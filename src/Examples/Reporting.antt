-- ===== src/Examples/Reporting.antt =====
-- Two periods of the kernel's publisher, over the proxy of the localizer to its listeners.
use sentinet_cpp.Common.{◌≡◌, refl, ◌++◌, Option, none, some, List, [], ◌∷◌, length, zeros}
use sentinet_cpp.Common.Maps.{String}
use sentinet_cpp.Control.NetworkPatterns.{publish_loop, periodic_publish_thread}
use sentinet_cpp.Localizer.{new_localizer}
use sentinet_cpp.Pipe.Localizing.{localize}
use sentinet_cpp.Pipe.Turns.{stops, start_proxy, polls_only, sent_parts}
use sentinet_cpp.Control.NetworkPatterns.Serving.{two_parts}
use sentinet_cpp.Programs.Addresses.{localizer_topic}
use sentinet_cpp.Programs.Endpoints.{localizer_proxy}
use sentinet_cpp.Programs.Reporting.{AllRead, measured_string, periodic_publish_thread-AllRead}
use sentinet_cpp.Examples.Interface.{moving, measured, buffered, reached}

abbrev polls : List (Option (String × String))
polls =
    let (k, message) = measured_string moving.kernel in
    some (localizer_topic, message) ∷ none ∷ some (localizer_topic, (measured_string k).1) ∷ []

periodic_publish_thread-AllRead_example :
    let turns = polls_only polls ++ (stops ∷ []) in
    let calls = (start_proxy (localize zeros) turns (localizer_proxy new_localizer)).1 in
    (outs : List (String × String)) × (sent_parts calls ≡ two_parts outs)
    × (length outs ≡ 2)
    × AllRead
        (record { x = 0; y = 0; theta = 0; v = moving.kernel.teensy.v; w = moving.kernel.teensy.w })
        outs
unfolding publish_loop periodic_publish_thread
periodic_publish_thread-AllRead_example =
    periodic_publish_thread-AllRead zeros 2 polls [] measured buffered reached refl
