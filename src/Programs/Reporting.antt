-- ===== src/Programs/Reporting.antt =====
-- From the robot over the kernel's publisher and the proxy of src/impl/kermit_proxy.cpp to those who listen to the
-- localizer: what becomes of the velocities that were measured.
use sentinet_cpp.Common.{
  true, false, ℕ, zero, suc, ◌≡◌, refl, sym, ap, ◌∙◌, subst, Option, List, [], ◌∷◌, ◌++◌, arith,
  Memory, IsBytes, length,
}
use sentinet_cpp.Common.Maps.{String, find}
use sentinet_cpp.Messages.Rmt.Sensor.{teensy_sensor_array_to_wire}
use sentinet_cpp.Messages.Rmt.PathState.{path_state_to_wire}
use sentinet_cpp.Control.NetworkPatterns.{publish_loop, periodic_publish_thread}
use sentinet_cpp.Control.NetworkPatterns.Serving.{found, two_parts}
use sentinet_cpp.Kernel.{Kernel, Teensy, new_kernel, localizer_cmd_get_data}
use sentinet_cpp.Localizer.{
  State, SimpleLocalizer, new_localizer, receive, convert, update_outgoing,
}
use sentinet_cpp.Localizer.Readings.{IsPlaced, IsState}
use sentinet_cpp.Localizer.Latest.{convert-IsPlaced, receive-IsPlaced, new_localizer-IsPlaced}
use sentinet_cpp.Sensing.{IsLaidOut, IsMeasured, localizer_cmd_get_data-convert}
use sentinet_cpp.Serial.{TeensyDevice}
use sentinet_cpp.Interface.{Robot}
use sentinet_cpp.Interface.Reaching.{Reach, Reach-IsReady}
use sentinet_cpp.Pipe.{convert_all}
use sentinet_cpp.Pipe.Turns.{
  Turn, stops, transduce, start_proxy, start_proxy-transduce, polls_only, sent_parts,
}
use sentinet_cpp.Pipe.Localizing.{memory_of, string_of, memory_of-string_of, localize}
use sentinet_cpp.Pipe.Localizing.Following.{
  IsSized, receive-IsSized, update_outgoing-state, state_read,
}
use sentinet_cpp.Programs.Addresses.{
  localizer_topic, to_bind_addr, localizer_front_address, localizer_back_address,
}
use sentinet_cpp.Programs.KernelMain.{kernel_addresses}
use sentinet_cpp.Programs.Endpoints.{localizer_proxy}
use sentinet_cpp.Programs.Commanding.{two_parts-injective}

-- The kernel's callback for its publisher, on strings.
abbrev pub measured_string : Kernel → Kernel × String
measured_string k = let (k', m) = localizer_cmd_get_data k in (k', string_of m)

-- The messages that the publisher sends in some periods.
reports : ℕ → Kernel → List (String × String)
reports zero k = []
reports (suc n) k =
    let (k', message) = measured_string k in (localizer_topic, message) ∷ reports n k'

publish_loop-reports :
    (n : ℕ) (k : Kernel)
    → sent_parts (publish_loop localizer_topic measured_string n k).1 ≡ two_parts (reports n k)
unfolding publish_loop reports
publish_loop-reports zero k = refl
publish_loop-reports (suc n) k =
    let (k', message) = measured_string k in
    ap (λ r. (true, localizer_topic) ∷ (false, message) ∷ r) (publish_loop-reports n k')

-- Each message is one of the localizer, and reads as a state, whatever lies behind it.
abbrev pub AllRead : State → List (String × String) → Type 0
AllRead s [] = Unit {0}
AllRead s ((topic, out) ∷ outs) =
    (topic ≡ localizer_topic) × ((tail : Memory) → state_read out tail ≡ s) × AllRead s outs

report-state :
    (k : Kernel) (l : SimpleLocalizer) (tail : Memory)
    → IsLaidOut k.teensy_buffer
    → IsMeasured k
    → IsPlaced l
    → IsSized l
    → IsState l.state
    → let next = localize tail l (measured_string k).1 in
      let s : State = record l.state { v = k.teensy.v; w = k.teensy.w } in
      IsPlaced next.0
      × IsSized next.0
      × (next.0.state ≡ s)
      × ((t : Memory) → state_read next.1 t ≡ s)
unfolding localize convert update_outgoing path_state_to_wire
report-state k l tail o i p z j =
    let m = (localizer_cmd_get_data k).1 in
    let text = memory_of (string_of m) tail in
    let got = (receive l text).0 in
    let taken = (localizer_cmd_get_data-convert k l tail o i p j).1 in
    let state_is : got.state ≡ record l.state { v = k.teensy.v; w = k.teensy.w } =
      ap (λ (x : Memory). (receive l x).0.state) (memory_of-string_of m tail) ∙ taken in
    let ranges : IsState (record l.state { v = k.teensy.v; w = k.teensy.w }) = record {
      x_range = j.x_range;
      y_range = j.y_range;
      theta_range = j.theta_range;
      v_range = i.v_range;
      w_range = i.w_range;
    } in
    let sized = receive-IsSized l text z in
    (
      convert-IsPlaced l text p,
      sized,
      state_is,
      λ t.
          update_outgoing-state got t (receive-IsPlaced l text p).path sized
            (subst IsState (sym state_is) ranges)
          ∙ state_is,
    )

-- What the publisher does not change.
measured_string-kept :
    (k : Kernel)
    → IsLaidOut k.teensy_buffer
    → IsMeasured k
    → let k' = (measured_string k).0 in
      IsLaidOut k'.teensy_buffer × IsMeasured k' × (k'.teensy ≡ k.teensy)
unfolding localizer_cmd_get_data teensy_sensor_array_to_wire
measured_string-kept k o i = (
  record { head = o.head; values = o.values; type_is = o.type_is; length_is = o.length_is },
  record { v_range = i.v_range; w_range = i.w_range; dt_range = i.dt_range },
  refl,
)

transduce-AllRead :
    (n : ℕ) (k : Kernel) (l : SimpleLocalizer) (tail : Memory) (s : State)
    → IsLaidOut k.teensy_buffer
    → IsMeasured k
    → IsPlaced l
    → IsSized l
    → IsState l.state
    → record l.state { v = k.teensy.v; w = k.teensy.w } ≡ s
    → let outs = transduce (localize tail) (l ∷ []) (reports n k) in
      AllRead s outs × (length outs ≡ n)
unfolding transduce convert_all reports
transduce-AllRead zero k l tail s o i p z j e = (tt, refl)
transduce-AllRead (suc n) k l tail s o i p z j e =
    let (o', i', same) = measured_string-kept k o i in
    let (p', z', state_is, reads) = report-state k l tail o i p z j in
    let k' = (measured_string k).0 in
    let next = (localize tail l (measured_string k).1).0 in
    let ranges : IsState (record l.state { v = k.teensy.v; w = k.teensy.w }) = record {
      x_range = j.x_range;
      y_range = j.y_range;
      theta_range = j.theta_range;
      v_range = i.v_range;
      w_range = i.w_range;
    } in
    let again : record next.state { v = k'.teensy.v; w = k'.teensy.w } ≡ s =
      ap (λ (t : Teensy). record next.state { v = t.v; w = t.w }) same
      ∙ (ap (λ (q : State). record q { v = k.teensy.v; w = k.teensy.w }) state_is ∙ e) in
    let (rest, count) =
      transduce-AllRead n k' next tail s o' i' p' z' (subst IsState (sym state_is) ranges) again in
    ((refl, (λ t. reads t ∙ e), rest), ap suc count)

-- A robot in any state that it reaches, and the proxy of the localizer as the program of the proxies makes it. Where
-- the proxy finds what the kernel's publisher sends in some periods, it sends one message for each of
-- them until it is stopped, of two parts, the topic of the localizer and a
-- string: each reads, whatever lies behind it,
-- as the velocities that the robot measured, at the pose of a new localizer. The memory of the robot
-- holds 32-bit values and bytes at the start.
pub periodic_publish_thread-AllRead :
    {t : Teensy} {d : TeensyDevice} {r : Robot} (tail : Memory) (n : ℕ)
    (polls : List (Option (String × String))) (later : List (Turn SimpleLocalizer))
    → IsMeasured (new_kernel t)
    → IsBytes d.buffer
    → Reach t d r
    → two_parts (found polls)
      ≡ sent_parts
          (periodic_publish_thread kernel_addresses.localizer localizer_topic measured_string n
            r.kernel).1
    → let turns = polls_only polls ++ (stops ∷ later) in
      let calls = (start_proxy (localize tail) turns (localizer_proxy new_localizer)).1 in
      (outs : List (String × String)) × (sent_parts calls ≡ two_parts outs)
      × (length outs ≡ n)
      × AllRead
          (record { x = 0; y = 0; theta = 0; v = r.kernel.teensy.v; w = r.kernel.teensy.w })
          outs
unfolding periodic_publish_thread new_localizer find
periodic_publish_thread-AllRead {r} tail n polls later m b h gets =
    let ready = Reach-IsReady m b h in
    let (made, got, gave) =
      start_proxy-transduce (localize tail) localizer_topic (to_bind_addr localizer_front_address)
        (to_bind_addr localizer_back_address) [] (new_localizer ∷ []) polls later refl in
    let same_messages =
      two_parts-injective (found polls) (reports n r.kernel)
        (gets ∙ publish_loop-reports n r.kernel) in
    let s : State = record {
      x = 0;
      y = 0;
      theta = 0;
      v = r.kernel.teensy.v;
      w = r.kernel.teensy.w;
    } in
    let outs = transduce (localize tail) (new_localizer ∷ []) (reports n r.kernel) in
    let (reads, count) =
      transduce-AllRead n r.kernel new_localizer tail s ready.laid ready.measured
        new_localizer-IsPlaced refl
        (record {
          x_range = omega arith;
          y_range = omega arith;
          theta_range = omega arith;
          v_range = omega arith;
          w_range = omega arith;
        })
        refl in
    (
      outs,
      gave ∙ ap (λ ms. two_parts (transduce (localize tail) (new_localizer ∷ []) ms)) same_messages,
      count,
      reads,
    )
