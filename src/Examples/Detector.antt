-- ===== src/Examples/Detector.antt =====
-- The detector at concrete inputs.
use sentinet_cpp.Common.{
  ℕ, zero, suc, ◌+◌, List, ◌≡◌, refl, arith, true, false, some, [], ◌∷◌, zeros, c_str,
}
use sentinet_cpp.Common.Maps.{same}
use sentinet_cpp.Common.Decimal.{chars}
use sentinet_cpp.Messages.Rmt.Sensor.{camera_type}
use sentinet_cpp.Messages.Rmt.PathState.{create_path_state, path_state_from_wire}
use sentinet_cpp.Localizer.{State, convert, new_localizer}
use sentinet_cpp.Localizer.Readings.{state_of}
use sentinet_cpp.Localizer.Latest.{new_localizer-IsPlaced}
use sentinet_cpp.Position.{new_pos, get_pos}
use sentinet_cpp.Position.Published.{gets, run, gets_only}
use sentinet_cpp.Position.AprilTags.{AprilDetector, no_tag, pose_x, pose_y, pose_theta, loop}
use sentinet_cpp.Position.Lifetime.{Look, nothing, track, lifetime, lifetime-track}
use sentinet_cpp.Position.Looking.{loop-convert}

-- A picture is a number, in which there are as many things as it says.
abbrev count : ℕ → List ℕ
count zero = []
count (suc n) = n ∷ count n

abbrev mark : ℕ → ℕ → ℕ
mark n frame = frame + n

abbrev turn : Look ℕ
turn = record { frame = 2; x = 1; y = 2; theta = 3; key = true }

lifetime-track_example :
    track nothing (lifetime count mark (new_pos 1 2 3) true (chars "tag16h5") (turn ∷ turn ∷ []))
    ≡ some nothing
unfolding same
lifetime-track_example =
    lifetime-track count mark (new_pos 1 2 3) true (chars "tag16h5") (turn ∷ turn ∷ [])

abbrev detector : AprilDetector
detector = record { pos = (get_pos (new_pos 1 2 3)).0; tag = no_tag; show_stream = false }

loop-convert_example :
    let p = run (loop count mark 7 8 9 3 true detector).0.0.pos (gets_only 2) in
    let r = convert new_localizer (c_str (get_pos p).1 zeros) in
    let s : State = record { x = pose_x; y = pose_y; theta = pose_theta; v = 0; w = 0 } in
    (r.1 ≡ camera_type)
    × (r.0.0.state ≡ s)
    × (state_of (path_state_from_wire create_path_state r.0.1.text) ≡ s)
unfolding run loop new_localizer
loop-convert_example =
    loop-convert count mark 3 1 2 3 (gets ∷ []) detector 7 8 9 true 2 new_localizer zeros refl refl
      new_localizer-IsPlaced
      (record {
        x_range = omega arith;
        y_range = omega arith;
        theta_range = omega arith;
        v_range = omega arith;
        w_range = omega arith;
      })
