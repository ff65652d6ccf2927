-- ===== src/Serial/Frames.antt =====
-- The frames to and from the teensy in src/kernel/serial.c.
use sentinet_cpp.Common.{
  ℕ, suc, ◌+◌, ◌*◌, ◌/◌, ◌^◌, ◌<◌, ◌≡◌, ◌⊎◌, inl, inr, refl, ◌∙◌, sym, subst, ap, arith, ◌==◌, ◌&&◌,
  if◌then◌else◌, Option, none, some, List, [], ◌∷◌, ◌++◌, Memory, u8, store8, store32, load32,
  length,
}
use sentinet_cpp.Serial.{
  Input, failure, nothing, ok, broken, timed_out, serialport_read, TeensyDevice, response_com,
  teensy_send_data, send_drive, stop_robot, Measured, Response, take_response, respond,
  read_teensy_response,
}
use sentinet_cpp.Serial.Reading.{
  Succeed, pauses, written, serialport_read-written, serialport_read_fails,
}
use sentinet_cpp.Serial.Until.{bytes}

-- The bytes of a 32-bit value as the wire has them.
abbrev pub word_bytes : ℕ → List ℕ
word_bytes n = u8 n ∷ u8 (n / 2 ^ 8) ∷ u8 (n / 2 ^ 16) ∷ u8 (n / 2 ^ 24) ∷ []

abbrev pub word : ℕ → ℕ → ℕ → ℕ → ℕ
word a b c d = a + 2 ^ 8 * b + 2 ^ 16 * c + 2 ^ 24 * d

-- The velocities that a receiver takes from a frame: the letter 'd', two words and a line's end.
unfoldable pub decode : List ℕ → Option (ℕ × ℕ)
decode (h ∷ a0 ∷ a1 ∷ a2 ∷ a3 ∷ b0 ∷ b1 ∷ b2 ∷ b3 ∷ n ∷ z ∷ []) =
    if h == 100 && (n == 10 && z == 0) then some (word a0 a1 a2 a3, word b0 b1 b2 b3) else none
decode frame = none

-- Whatever the device held, the frame that `send_drive` hands to `write` has the size it returns and
-- carries the two velocities, of 32 bits each; the frame of `stop_robot` carries zeros.
pub send_drive-decode :
    (lin ang : ℕ) (d : TeensyDevice)
    → lin < 2 ^ 32
    → ang < 2 ^ 32
    → (decode (send_drive lin ang d).1 ≡ some (lin, ang))
      × (length (send_drive lin ang d).1 ≡ 11)
      × (decode (stop_robot d).1 ≡ some (0, 0))
unfolding send_drive stop_robot teensy_send_data decode store8 store32
send_drive-decode lin ang d p q = (ground arith, refl, refl)

-- A response of the teensy.
abbrev pub response : ℕ → ℕ → ℕ → ℕ → List ℕ
response v w w_err dt =
    response_com ∷ (word_bytes v ++ (word_bytes w ++ (word_bytes w_err ++ word_bytes dt)))

-- The buffer with a response in it.
abbrev filled : Memory → ℕ → ℕ → ℕ → ℕ → Memory
filled buf v w w_err dt = written buf 0 (bytes (response v w w_err dt))

filled_words :
    (buf : Memory) (v w w_err dt : ℕ)
    → v < 2 ^ 32
    → w < 2 ^ 32
    → w_err < 2 ^ 32
    → dt < 2 ^ 32
    → let m = filled buf v w w_err dt in
      (m 0 ≡ response_com)
      × (load32 m 1 ≡ v)
      × (load32 m 5 ≡ w)
      × (load32 m 9 ≡ w_err)
      × (load32 m 13 ≡ dt)
unfolding written load32 store8
filled_words buf v w w_err dt p q r s = omega arith

-- A response of four 32-bit values that is there in full is read and taken over: velocity and turning
-- rate, the error and the time, each to its place in the device and behind its pointer. What comes
-- behind it is not touched.
pub read_teensy_response-response :
    (v w w_err dt : ℕ) (d : TeensyDevice) (m : Measured) (rest : List Input)
    → v < 2 ^ 32
    → w < 2 ^ 32
    → w_err < 2 ^ 32
    → dt < 2 ^ 32
    → let r = read_teensy_response d m (bytes (response v w w_err dt) ++ rest) in
      (r.status ≡ ok)
      × (r.measured ≡ record { omega = w; velocity = v; w_err = w_err; dt = dt })
      × (r.device.v ≡ v)
      × (r.device.w ≡ w)
      × (r.device.w_err ≡ w_err)
      × (r.device.dt ≡ dt)
      × (r.input ≡ rest)
unfolding read_teensy_response respond take_response
read_teensy_response-response v w w_err dt d m rest p q r s =
    let got =
      serialport_read-written (bytes (response v w w_err dt)) 1 d.buffer rest tt (omega arith) in
    let (head, v_is, w_is, err_is, dt_is) = filled_words d.buffer v w w_err dt p q r s in
    let d' : TeensyDevice = record d { buffer = filled d.buffer v w w_err dt } in
    let taken : respond d m
          (record { status = ok; buf = filled d.buffer v w w_err dt; input = rest })
        ≡ record {
          device = (take_response d').0;
          measured = (take_response d').1;
          status = ok;
          input = rest;
        } =
      ground (arith, head) in
    subst
      (λ r.
        (r.status ≡ ok)
        × (r.measured ≡ record { omega = w; velocity = v; w_err = w_err; dt = dt })
        × (r.device.v ≡ v)
        × (r.device.w ≡ w)
        × (r.device.w_err ≡ w_err)
        × (r.device.dt ≡ dt)
        × (r.input ≡ rest))
      (sym (ap (respond d m) got ∙ taken))
      (refl, ground (arith, v_is, w_is, err_is, dt_is), v_is, w_is, err_is, dt_is, refl)

all_bytes :
    (bs : List ℕ) → Succeed (bytes bs) × (pauses (bytes bs) ≡ 0) × (length (bytes bs) ≡ length bs)
all_bytes [] = (tt, refl, refl)
all_bytes (b ∷ bs) = let (s, p, l) = all_bytes bs in (s, p, ap suc l)

-- Where the port fails or pauses once within a response, the values measured stay as they were; what
-- was read of the response is gone from the port.
pub read_teensy_response_fails :
    (bs : List ℕ) (x : Input) (d : TeensyDevice) (m : Measured) (rest : List Input)
    → length bs < 17
    → (x ≡ failure) ⊎ (x ≡ nothing)
    → let r = read_teensy_response d m (bytes bs ++ (x ∷ rest)) in
      ((r.status ≡ broken) ⊎ (r.status ≡ timed_out))
      × (r.measured ≡ m)
      × (r.device.v ≡ d.v)
      × (r.device.w ≡ d.w)
      × (r.input ≡ rest)
unfolding read_teensy_response respond
read_teensy_response_fails bs x d m rest l o =
    let (s, p, n) = all_bytes bs in
    let (broke, paused) =
      serialport_read_fails (bytes bs) 17 1 d.buffer rest s (omega (arith, n)) (omega (arith, p)) in
    let once =
      subst
        (λ n.
          serialport_read 17 (suc n) d.buffer (bytes bs ++ (nothing ∷ rest))
          ≡ record { status = timed_out; buf = written d.buffer 0 (bytes bs); input = rest })
        p paused in
    let unread = λ (r : Response).
      ((r.status ≡ broken) ⊎ (r.status ≡ timed_out))
      × (r.measured ≡ m)
      × (r.device.v ≡ d.v)
      × (r.device.w ≡ d.w)
      × (r.input ≡ rest) in
    elim o [
      | inl e ↦
          subst (λ x. unread (read_teensy_response d m (bytes bs ++ (x ∷ rest)))) (sym e)
            (subst unread (sym (ap (respond d m) broke)) (inl refl, refl, refl, refl, refl))
      | inr e ↦
          subst (λ x. unread (read_teensy_response d m (bytes bs ++ (x ∷ rest)))) (sym e)
            (subst unread (sym (ap (respond d m) once)) (inr refl, refl, refl, refl, refl))
    ]
