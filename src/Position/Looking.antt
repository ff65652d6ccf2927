-- ===== src/Position/Looking.antt =====
-- What the detector of src/localizer/AprilDetector.cpp publishes, and what the localizer of
-- src/messages/pipe/Simple_Localizer.cpp makes of it.
use sentinet_cpp.Common.{
  ℕ, ◌≡◌, refl, ap, sym, subst, ◌∙◌, Bool, true, List, [], ◌∷◌, ◌++◌, arith, Memory, c_str,
}
use sentinet_cpp.Messages.Rmt.Sensor.{camera_type}
use sentinet_cpp.Messages.Rmt.PathState.{create_path_state, path_state_from_wire}
use sentinet_cpp.Localizer.{State, SimpleLocalizer, convert}
use sentinet_cpp.Localizer.Readings.{IsPlaced, IsState, state_of}
use sentinet_cpp.Position.{Pos, new_pos, set_pos, get_pos}
use sentinet_cpp.Position.Published.{PosCall, sets, gets, run, gets_only, get_pos-convert}
use sentinet_cpp.Position.AprilTags.{AprilDetector, pose_x, pose_y, pose_theta, loop}

run-sets :
    (p : Pos) (cs : List PosCall) (x y theta : ℕ)
    → run p (cs ++ (sets x y theta ∷ [])) ≡ set_pos x y theta (run p cs)
unfolding run
run-sets p [] x y theta = refl
run-sets p (sets a b c ∷ cs) x y theta = run-sets (set_pos a b c p) cs x y theta
run-sets p (gets ∷ cs) x y theta = run-sets (get_pos p).0 cs x y theta

loop-pos :
    {P D : Type 0} (found : P → List D) (draw : D → P → P) (frame : P) (d : AprilDetector)
    (x y theta : ℕ) (key : Bool)
    → (loop found draw x y theta frame key d).0.1 ≡ true
    → (loop found draw x y theta frame key d).0.0.pos
      ≡ set_pos pose_x pose_y pose_theta (set_pos x y theta d.pos)
unfolding loop
loop-pos found draw frame d x y theta key e = ground (arith, e)

-- A detector in any state that calls on its pose leave of a new one, and a turn of its `loop` that goes on,
-- whatever the camera shows, and whatever is found in it: every message until the next turn is one of
-- the camera to a localizer, which takes over the pose 4.5, 5.6 and 7.8, keeps the velocities, and
-- puts out that state.
pub loop-convert :
    {P D : Type 0} (found : P → List D) (draw : D → P → P) (frame : P) (x0 y0 theta0 : ℕ)
    (cs : List PosCall) (d : AprilDetector) (x y theta : ℕ) (key : Bool) (n : ℕ)
    (l : SimpleLocalizer) (tail : Memory)
    → d.pos ≡ run (new_pos x0 y0 theta0) cs
    → (loop found draw x y theta frame key d).0.1 ≡ true
    → IsPlaced l
    → IsState l.state
    → let p = run (loop found draw x y theta frame key d).0.0.pos (gets_only n) in
      let r = convert l (c_str (get_pos p).1 tail) in
      let s : State = record l.state { x = pose_x; y = pose_y; theta = pose_theta } in
      (r.1 ≡ camera_type)
      × (r.0.0.state ≡ s)
      × (state_of (path_state_from_wire create_path_state r.0.1.text) ≡ s)
loop-convert found draw frame x0 y0 theta0 cs d x y theta key n l tail from goes placed state =
    let start = new_pos x0 y0 theta0 in
    let history = cs ++ (sets x y theta ∷ []) in
    let pos_is : (loop found draw x y theta frame key d).0.0.pos
        ≡ set_pos pose_x pose_y pose_theta (run start history) =
      loop-pos found draw frame d x y theta key goes
      ∙ ap (set_pos pose_x pose_y pose_theta)
          (ap (set_pos x y theta) from ∙ sym (run-sets start cs x y theta)) in
    subst
      (λ (pos : Pos).
        let r = convert l (c_str (get_pos (run pos (gets_only n))).1 tail) in
        let s : State = record l.state { x = pose_x; y = pose_y; theta = pose_theta } in
        (r.1 ≡ camera_type)
        × (r.0.0.state ≡ s)
        × (state_of (path_state_from_wire create_path_state r.0.1.text) ≡ s))
      (sym pos_is)
      (get_pos-convert x0 y0 theta0 history pose_x pose_y pose_theta n l tail (omega arith)
        (omega arith) (omega arith) placed state)
