-- ===== src/Examples/Pipe.antt =====
-- The theorems on the proxies, with two filters that number the messages, and with a localizer.
use sentinet_cpp.Common.{
  ℕ, suc, ◌≡◌, refl, arith, true, false, Option, none, some, List, [], ◌∷◌, ◌++◌, zeros,
}
use sentinet_cpp.Common.Maps.{String, find}
use sentinet_cpp.Pipe.{
  Proxy, pub_sub, set_filter, create_pub_sub_endpoint, stop, kill, returned, convert_all,
}
use sentinet_cpp.Pipe.Filters.{set_filters, create_pub_sub_endpoint-stop}
use sentinet_cpp.Pipe.Turns.{
  spins, stops, adds, with_filters, polls_only, start_proxy, sent_parts, transduce,
  start_proxy-transduce,
}
use sentinet_cpp.Pipe.Localizing.{localize, sent}
use sentinet_cpp.Pipe.Localizing.Following.{Follows, start_proxy-Follows}
use sentinet_cpp.Control.NetworkPatterns.Serving.{two_parts, received}
use sentinet_cpp.Localizer.{new_localizer}
use sentinet_cpp.Localizer.Readings.{Reading, teensy, camera}
use sentinet_cpp.Localizer.Latest.{no_state}

abbrev prefix : ℕ → String → ℕ × String
prefix c message = (c, c ∷ message)

abbrev name : String
name = 112 ∷ []

abbrev front : String
front = 102 ∷ []

abbrev back : String
back = 98 ∷ []

create_pub_sub_endpoint-stop_example :
    let made = (create_pub_sub_endpoint {F = ℕ} name front back []).0 in
    let p : Proxy ℕ = record {
      endpoint = pub_sub;
      frontend = front;
      backend = back;
      running = true;
      filters = [];
    } in
    ((create_pub_sub_endpoint {F = ℕ} name front back []).1 ≡ true)
    × (find name made ≡ some p)
    × (stop name made ≡ (made, returned false))
    × (kill name made ≡ (made, returned false))
    × (create_pub_sub_endpoint name back front made ≡ (made, false))
unfolding find
create_pub_sub_endpoint-stop_example = create_pub_sub_endpoint-stop {F = ℕ} name front back [] refl

abbrev polls : List (Option (String × String))
polls = some (front, sent (teensy 5 6 7)) ∷ none ∷ some (front, sent (camera 1 2 3 4)) ∷ []

abbrev readings : List (String × Reading)
readings = (front, teensy 5 6 7) ∷ (front, camera 1 2 3 4) ∷ []

start_proxy-Follows_example :
    let p = with_filters (localize zeros) front back (new_localizer ∷ []) in
    let turns = polls_only polls ++ (stops ∷ spins false (some (front, front)) ∷ []) in
    (find name (set_filter name new_localizer (create_pub_sub_endpoint name front back []).0).0
      ≡ some p)
    × ((outs : List (String × String)) × (sent_parts (start_proxy (localize zeros) turns p).1
          ≡ two_parts outs)
        × Follows no_state readings outs)
unfolding find
start_proxy-Follows_example =
    start_proxy-Follows name front back [] zeros readings polls
      (spins false (some (front, front)) ∷ []) refl refl
      (
        (omega arith, omega arith, omega arith),
        ((omega arith, omega arith, omega arith, omega arith), tt),
      )

-- A filter that puts a counter before each message and counts on.
abbrev number : ℕ → String → ℕ × String
number n message = (suc n, n ∷ message)

start_proxy-transduce_example :
    let p = with_filters number front back (4 ∷ 7 ∷ []) in
    let turns =
      polls_only {F = ℕ} (some (front, back) ∷ none ∷ some (back, front) ∷ [])
      ++ (stops ∷ adds 9 ∷ []) in
    let calls = (start_proxy number turns p).1 in
    (find name (set_filters name (4 ∷ 7 ∷ []) (create_pub_sub_endpoint name front back []).0)
      ≡ some p)
    × (received calls ≡ front ∷ back ∷ back ∷ front ∷ [])
    × (sent_parts calls
        ≡ (true, front) ∷ (false, 7 ∷ 4 ∷ back) ∷ (true, back) ∷ (false, 8 ∷ 5 ∷ front) ∷ [])
unfolding find transduce convert_all
start_proxy-transduce_example =
    start_proxy-transduce number name front back [] (4 ∷ 7 ∷ [])
      (some (front, back) ∷ none ∷ some (back, front) ∷ []) (adds 9 ∷ []) refl
