-- ===== src/Position/Published.antt =====
-- From src/localizer/PosLocalizer.cpp to src/messages/pipe/Simple_Localizer.cpp: what the camera's node
-- publishes, and what the localizer makes of it.
use sentinet_cpp.Common.{
  ℕ, zero, suc, ◌<◌, ◌^◌, ◌≡◌, refl, ◌∙◌, sym, subst, ap, arith, Memory, c_str, load32, store32,
  List, [], ◌∷◌,
}
use sentinet_cpp.Messages.Rmt.PathState.{create_path_state, path_state_from_wire}
use sentinet_cpp.Messages.Rmt.Sensor.{
  CameraMsg, create_sensor_msg, create_camera_msg, sensor_msg_from_wire, camera_msg_from_wire,
  camera_msg_to_wire, camera_type,
}
use sentinet_cpp.Localizer.{
  State, SimpleLocalizer, receive, convert, camera_update, update_outgoing,
}
use sentinet_cpp.Localizer.Readings.{IsPlaced, IsState, state_of}
use sentinet_cpp.Localizer.Latest.{convert_sent}
use sentinet_cpp.Position.{Pos, new_pos, set_pos, get_pos}

-- The outgoing message is laid out as it was created.
pub record IsLaidOut (c : CameraMsg) : Type 0 where
  pub head : c.msg.indexes ≡ create_camera_msg.msg.indexes
  pub values : c.indexes ≡ create_camera_msg.indexes
  pub type_is : c.msg.type ≡ camera_type
  pub length_is : c.msg.buff.byte_length ≡ create_camera_msg.msg.buff.byte_length

pub data PosCall : Type 0 where
  sets : (x y theta : ℕ) → PosCall
  gets : PosCall

-- The node after some calls, of the detector and of the publisher's thread.
unfoldable pub run : Pos → List PosCall → Pos
run p [] = p
run p (sets x y theta ∷ cs) = run (set_pos x y theta p) cs
run p (gets ∷ cs) = run (get_pos p).0 cs

run-IsLaidOut : (p : Pos) (cs : List PosCall) → IsLaidOut p.msg → IsLaidOut (run p cs).msg
unfolding run set_pos get_pos camera_msg_to_wire
run-IsLaidOut p [] o = o
run-IsLaidOut p (sets x y theta ∷ cs) o = run-IsLaidOut (set_pos x y theta p) cs o
run-IsLaidOut p (gets ∷ cs) o =
    run-IsLaidOut (get_pos p).0 cs
      (record { head = o.head; values = o.values; type_is = o.type_is; length_is = o.length_is })

-- Calls of the publisher's thread only.
abbrev pub gets_only : ℕ → List PosCall
gets_only zero = []
gets_only (suc n) = gets ∷ gets_only n

gets_only-pos :
    (n : ℕ) (p : Pos)
    → let q = run p (gets_only n) in (q.x ≡ p.x) × (q.y ≡ p.y) × (q.theta ≡ p.theta)
unfolding run get_pos
gets_only-pos zero p = (refl, refl, refl)
gets_only-pos (suc n) p = gets_only-pos n (get_pos p).0

pub pose_at :
    (b tail : Memory) (x y theta dt : ℕ)
    → x < 2 ^ 32
    → y < 2 ^ 32
    → theta < 2 ^ 32
    → let at = create_camera_msg.indexes in
      let head = create_camera_msg.msg.indexes in
      let m =
        c_str
          (record {
            text =
                store32
                  (store32
                    (store32 (store32 (store32 b (head 0) camera_type) (at 0) x) (at 1) y)
                    (at 2)
                    theta)
                  (at 3)
                  dt;
            size = create_camera_msg.msg.buff.byte_length;
          })
          tail in
      (load32 m (head 0) ≡ camera_type)
      × (load32 m (at 0) ≡ x)
      × (load32 m (at 1) ≡ y)
      × (load32 m (at 2) ≡ theta)
unfolding create_camera_msg load32 store32
pose_at b tail x y theta dt p q r = omega arith

same_head : create_sensor_msg.indexes 0 ≡ create_camera_msg.msg.indexes 0
unfolding create_sensor_msg create_camera_msg
same_head = refl

pub receive_pose :
    (l : SimpleLocalizer) (m : Memory) (x y theta : ℕ)
    → IsPlaced l
    → load32 m (create_camera_msg.msg.indexes 0) ≡ camera_type
    → load32 m (create_camera_msg.indexes 0) ≡ x
    → load32 m (create_camera_msg.indexes 1) ≡ y
    → load32 m (create_camera_msg.indexes 2) ≡ theta
    → ((receive l m).1 ≡ camera_type)
      × ((receive l m).0.state ≡ record l.state { x = x; y = y; theta = theta })
unfolding receive camera_update sensor_msg_from_wire camera_msg_from_wire
receive_pose l m x y theta p e x_is y_is theta_is =
    let h0 = ap (λ f. f 0) p.camera_head in
    let i0 = ap (λ f. f 0) p.camera_values in
    let i1 = ap (λ f. f 1) p.camera_values in
    let i2 = ap (λ f. f 2) p.camera_values in
    (
      ground (arith, h0, same_head, e),
      ground (arith, h0, i0, i1, i2, same_head, e, x_is, y_is, theta_is),
    )

get_pos_words :
    (p : Pos) (tail : Memory)
    → IsLaidOut p.msg
    → p.x < 2 ^ 32
    → p.y < 2 ^ 32
    → p.theta < 2 ^ 32
    → let m = c_str (get_pos p).1 tail in
      (load32 m (create_camera_msg.msg.indexes 0) ≡ camera_type)
      × (load32 m (create_camera_msg.indexes 0) ≡ p.x)
      × (load32 m (create_camera_msg.indexes 1) ≡ p.y)
      × (load32 m (create_camera_msg.indexes 2) ≡ p.theta)
unfolding get_pos camera_msg_to_wire
get_pos_words p tail o a b c =
    rw (o.head, o.values, o.type_is, o.length_is)
      (pose_at p.msg.msg.buff.bytes tail p.x p.y p.theta p.msg.dt a b c)

-- A node whose message is laid out as created is heard: the localizer takes its message for one of
-- the camera, takes over the pose and keeps the velocities.
get_pos-receive :
    (p : Pos) (l : SimpleLocalizer) (tail : Memory)
    → IsLaidOut p.msg
    → p.x < 2 ^ 32
    → p.y < 2 ^ 32
    → p.theta < 2 ^ 32
    → IsPlaced l
    → let r = receive l (c_str (get_pos p).1 tail) in
      (r.1 ≡ camera_type) × (r.0.state ≡ record l.state { x = p.x; y = p.y; theta = p.theta })
get_pos-receive p l tail o a b c placed =
    let (head, x_is, y_is, theta_is) = get_pos_words p tail o a b c in
    receive_pose l (c_str (get_pos p).1 tail) p.x p.y p.theta placed head x_is y_is theta_is

-- After any calls of a new node, whatever its memory held, and one of `set_pos` with three 32-bit
-- values, every further message is one of the camera to a localizer, whatever lies behind it: the
-- localizer takes over the pose and keeps the velocities, and what it puts out reads as that state.
pub get_pos-convert :
    (x0 y0 theta0 : ℕ) (cs : List PosCall) (x y theta n : ℕ) (l : SimpleLocalizer) (tail : Memory)
    → x < 2 ^ 32
    → y < 2 ^ 32
    → theta < 2 ^ 32
    → IsPlaced l
    → IsState l.state
    → let p = run (set_pos x y theta (run (new_pos x0 y0 theta0) cs)) (gets_only n) in
      let r = convert l (c_str (get_pos p).1 tail) in
      let s : State = record l.state { x = x; y = y; theta = theta } in
      (r.1 ≡ camera_type)
      × (r.0.0.state ≡ s)
      × (state_of (path_state_from_wire create_path_state r.0.1.text) ≡ s)
unfolding convert update_outgoing set_pos new_pos create_camera_msg
get_pos-convert x0 y0 theta0 cs x y theta n l tail a b c placed state =
    let before = set_pos x y theta (run (new_pos x0 y0 theta0) cs) in
    let p = run before (gets_only n) in
    let m = c_str (get_pos p).1 tail in
    let laid : IsLaidOut before.msg =
      run-IsLaidOut (new_pos x0 y0 theta0) cs
        (record { head = refl; values = refl; type_is = refl; length_is = refl }) in
    let (x_is, y_is, theta_is) = gets_only-pos n before in
    let (type_is, taken) =
      get_pos-receive p l tail (run-IsLaidOut before (gets_only n) laid) (omega (arith, x_is))
        (omega (arith, y_is)) (omega (arith, theta_is)) placed in
    let s : State = record l.state { x = x; y = y; theta = theta } in
    let is : (receive l m).0.state ≡ s = taken ∙ ground (arith, x_is, y_is, theta_is) in
    let ranges : IsState s = record {
      x_range = a;
      y_range = b;
      theta_range = c;
      v_range = state.v_range;
      w_range = state.w_range;
    } in
    (type_is, is, convert_sent m l placed (subst IsState (sym is) ranges) ∙ is)
