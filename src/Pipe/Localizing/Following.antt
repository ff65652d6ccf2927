-- ===== src/Pipe/Localizing/Following.antt =====
-- What a proxy of src/messages/pipe/ProxyInterface.cpp with a localizer sends after each of its readings.
use sentinet_cpp.Common.{
  ◌≡◌, refl, ap, ◌∙◌, sym, subst, arith, Option, none, some, List, [], ◌∷◌, ◌++◌, Memory, Message,
  c_str, load32, store32,
}
use sentinet_cpp.Common.Maps.{String, find}
use sentinet_cpp.Messages.Rmt.PathState.{
  create_path_state, path_state_from_wire, path_state_to_wire,
}
use sentinet_cpp.Localizer.{
  State, new_localizer, SimpleLocalizer, receive, convert, update_outgoing,
}
use sentinet_cpp.Localizer.Readings.{
  Reading, InRange, IsPlaced, IsState, update, update-IsState, state_of,
}
use sentinet_cpp.Localizer.Latest.{
  convert-IsPlaced, receive-IsPlaced, no_state, new_localizer-IsPlaced,
}
use sentinet_cpp.Control.NetworkPatterns.Serving.{found, two_parts}
use sentinet_cpp.Pipe.{Pipe, convert_all, set_filter, create_pub_sub_endpoint}
use sentinet_cpp.Pipe.Filters.{set_filters}
use sentinet_cpp.Pipe.Turns.{
  Turn, stops, transduce, start_proxy, start_proxy-transduce, with_filters, polls_only, sent_parts,
}
use sentinet_cpp.Pipe.Localizing.{
  memory_of, string_of, memory_of-string_of, localize, sent, receive-sent,
}

-- The outgoing message of a localizer has its first length.
abbrev pub IsSized : SimpleLocalizer → Type 0
IsSized l = l.msg.buff.byte_length ≡ create_path_state.buff.byte_length

pub receive-IsSized : (l : SimpleLocalizer) (m : Memory) → IsSized l → IsSized (receive l m).0
unfolding receive
receive-IsSized l m s = ground (arith, s)

state_words :
    (b tail : Memory) (s : State)
    → IsState s
    → let at = create_path_state.indexes in
      let m =
        c_str
          (record {
            text =
                store32
                  (store32
                    (store32 (store32 (store32 b (at 0) s.x) (at 1) s.y) (at 2) s.theta)
                    (at 3)
                    s.v)
                  (at 4)
                  s.w;
            size = create_path_state.buff.byte_length;
          })
          tail in
      (load32 m (at 0) ≡ s.x)
      × (load32 m (at 1) ≡ s.y)
      × (load32 m (at 2) ≡ s.theta)
      × (load32 m (at 3) ≡ s.v)
      × (load32 m (at 4) ≡ s.w)
unfolding create_path_state load32 store32
state_words b tail s i = omega (arith, i)

-- What a string of a localizer reads as, whatever lies behind it.
unfoldable pub state_read : String → Memory → State
unfolding state_of
state_read message tail = state_of (path_state_from_wire create_path_state (memory_of message tail))

pub update_outgoing-state :
    (l : SimpleLocalizer) (tail : Memory)
    → l.msg.indexes ≡ create_path_state.indexes
    → IsSized l
    → IsState l.state
    → let b = (update_outgoing l).msg.buff in
      state_read (string_of (record { text = b.bytes; size = b.byte_length })) tail ≡ l.state
unfolding update_outgoing path_state_to_wire path_state_from_wire state_read state_of
update_outgoing-state l tail p z i =
    let b = (update_outgoing l).msg.buff in
    let m : Message = record { text = b.bytes; size = b.byte_length } in
    let (x, y, theta, v, w) = state_words l.msg.buff.bytes tail l.state i in
    ap (λ m. state_of (path_state_from_wire create_path_state m)) (memory_of-string_of m tail)
    ∙ rw (p, z, x, y, theta, v, w)

-- The strings of a localizer answer the readings under their topics: each reads, whatever lies behind
-- it, as the last velocities of the robot and the last pose of the camera up to its reading.
abbrev pub Follows : State → List (String × Reading) → List (String × String) → Type 0
Follows s [] [] = Unit {0}
Follows s [] (out ∷ outs) = ⊥
Follows s (r ∷ rs) [] = ⊥
Follows s ((topic, r) ∷ rs) ((topic', out) ∷ outs) =
    (topic' ≡ topic)
    × ((tail : Memory) → state_read out tail ≡ update r s)
    × Follows (update r s) rs outs

abbrev pub AllInRange : List (String × Reading) → Type 0
AllInRange [] = Unit {0}
AllInRange ((topic, r) ∷ rs) = InRange r × AllInRange rs

abbrev pub sent_all : List (String × Reading) → List (String × String)
sent_all [] = []
sent_all ((topic, r) ∷ rs) = (topic, sent r) ∷ sent_all rs

localize-sent :
    (r : Reading) (l : SimpleLocalizer) (tail : Memory)
    → InRange r
    → IsPlaced l
    → IsSized l
    → IsState l.state
    → let next = localize tail l (sent r) in
      IsPlaced next.0
      × IsSized next.0
      × (next.0.state ≡ update r l.state)
      × ((t : Memory) → state_read next.1 t ≡ update r l.state)
unfolding localize convert update_outgoing path_state_to_wire
localize-sent r l tail a p z i =
    let m = memory_of (sent r) tail in
    let got = (receive l m).0 in
    let state_is = receive-sent r l tail a p in
    let ranges = subst IsState (sym state_is) (update-IsState r l.state a i) in
    let sized = receive-IsSized l m z in
    (
      convert-IsPlaced l m p,
      sized,
      state_is,
      λ t. update_outgoing-state got t (receive-IsPlaced l m p).path sized ranges ∙ state_is,
    )

transduce-Follows :
    (tail : Memory) (rs : List (String × Reading)) (l : SimpleLocalizer)
    → AllInRange rs
    → IsPlaced l
    → IsSized l
    → IsState l.state
    → Follows l.state rs (transduce (localize tail) (l ∷ []) (sent_all rs))
unfolding transduce convert_all
transduce-Follows tail [] l a p z i = tt
transduce-Follows tail ((topic, r) ∷ rs) l a p z i =
    let (placed, sized, state_is, reads) = localize-sent r l tail a.0 p z i in
    let next = (localize tail l (sent r)).0 in
    let ranges = subst IsState (sym state_is) (update-IsState r l.state a.0 i) in
    let rest = transduce-Follows tail rs next a.1 placed sized ranges in
    (
      refl,
      reads,
      subst (λ s. Follows s rs (transduce (localize tail) (next ∷ []) (sent_all rs))) state_is rest,
    )

-- A pub-sub proxy that is made under an id not in use and given a new localizer as its filter, and whose
-- polls find the strings of some readings of 32-bit values under some topics: until it is stopped it
-- sends for each one message of two parts, its topic and a string that reads, whatever lies behind it, as the last velocities
-- of the robot and the last pose of the camera up to that reading, or as zero where there was none.
pub start_proxy-Follows :
    (id frontend backend : String) (pipe : Pipe SimpleLocalizer) (tail : Memory)
    (rs : List (String × Reading)) (polls : List (Option (String × String)))
    (later : List (Turn SimpleLocalizer))
    → find id pipe ≡ none
    → found polls ≡ sent_all rs
    → AllInRange rs
    → let p = with_filters (localize tail) frontend backend (new_localizer ∷ []) in
      let turns = polls_only polls ++ (stops ∷ later) in
      (find id (set_filter id new_localizer (create_pub_sub_endpoint id frontend backend pipe).0).0
        ≡ some p)
      × ((outs : List (String × String)) × (sent_parts (start_proxy (localize tail) turns p).1
            ≡ two_parts outs)
          × Follows no_state rs outs)
unfolding new_localizer set_filters
start_proxy-Follows id frontend backend pipe tail rs polls later e f a =
    let (made, got, gave) =
      start_proxy-transduce (localize tail) id frontend backend pipe (new_localizer ∷ []) polls
        later e in
    let range : IsState no_state = record {
      x_range = omega arith;
      y_range = omega arith;
      theta_range = omega arith;
      v_range = omega arith;
      w_range = omega arith;
    } in
    let outs = transduce (localize tail) (new_localizer ∷ []) in
    (
      made,
      (
        outs (sent_all rs),
        gave ∙ ap (λ ms. two_parts (outs ms)) f,
        transduce-Follows tail rs new_localizer a new_localizer-IsPlaced refl range,
      ),
    )
