-- ===== src/Serial/Reading.antt =====
-- What `serialport_read` of src/kernel/serial.c makes of what the port gives.
use sentinet_cpp.Common.{
  ℕ, zero, suc, ◌+◌, ◌-◌, ◌∙◌, ◌<◌, ◌≡◌, refl, arith, List, [], ◌∷◌, ◌++◌, Memory, store8, length,
}
use sentinet_cpp.Serial.{
  Input, failure, nothing, byte, ok, broken, timed_out, read, read_loop, serialport_read,
}

-- How often there is nothing to read.
abbrev pub pauses : List Input → ℕ
pauses [] = 0
pauses (failure ∷ xs) = pauses xs
pauses (nothing ∷ xs) = suc (pauses xs)
pauses (byte b ∷ xs) = pauses xs

-- No read fails.
abbrev pub Succeed : List Input → Type 0
Succeed [] = Unit {0}
Succeed (failure ∷ xs) = ⊥
Succeed (nothing ∷ xs) = Succeed xs
Succeed (byte b ∷ xs) = Succeed xs

-- The bytes of some reads written from an index on, a pause leaving the byte at its own index as it
-- was.
unfoldable pub written : Memory → ℕ → List Input → Memory
written buf i [] = buf
written buf i (byte b ∷ xs) = written (store8 buf i b) (i + 1) xs
written buf i (nothing ∷ xs) = written buf (i + 1) xs
written buf i (failure ∷ xs) = written buf (i + 1) xs

-- The loop over reads of which none fails and that pause less often than the timeout.
read_loop-append :
    (xs : List Input) (n left t timeout i : ℕ) (buf : Memory) (rest : List Input)
    → Succeed xs
    → n ≡ length xs + left
    → t ≡ pauses xs + suc timeout
    → read_loop n t i buf (xs ++ rest)
      ≡ read_loop left (suc timeout) (i + length xs) (written buf i xs) rest
unfolding read_loop written read
read_loop-append [] n left t timeout i buf rest s e f =
    let e' : n ≡ left = omega arith in
    let f' : t ≡ suc timeout = omega arith in
    let g : i ≡ i + length {A = Input} [] = omega arith in rw (e', f', ← g)
read_loop-append (failure ∷ xs) n left t timeout i buf rest s e f = elim s [ ]
read_loop-append (x ∷ xs) zero left t timeout i buf rest s e f = absurd (omega arith)
read_loop-append (x ∷ xs) (suc n) left zero timeout i buf rest s e f = absurd (omega arith)
read_loop-append (nothing ∷ xs) (suc n) left (suc zero) timeout i buf rest s e f =
    absurd (omega arith)
read_loop-append (nothing ∷ xs) (suc n) left (suc (suc t)) timeout i buf rest s e f =
    let g : i + 1 + length xs ≡ i + length (nothing ∷ xs) = omega arith in
    let ih =
      read_loop-append xs n left (suc t) timeout (i + 1) buf rest s (omega arith) (omega arith) in
    rw (← g) ih
read_loop-append (byte b ∷ xs) (suc n) left (suc t) timeout i buf rest s e f =
    let g : i + 1 + length xs ≡ i + length (byte b ∷ xs) = omega arith in
    let ih =
      read_loop-append xs n left (suc t) timeout (i + 1) (store8 buf i b) rest s (omega arith)
        (omega arith) in
    rw (← g) ih

-- The loop at reads that end it early: a failure, or the pause that exhausts the timeout.
read_loop_ends :
    (left i : ℕ) (buf : Memory) (rest : List Input)
    → ((timeout : ℕ)
        → read_loop (suc left) (suc timeout) i buf (failure ∷ rest)
          ≡ record { status = broken; buf = buf; input = rest })
      × (read_loop (suc left) 1 i buf (nothing ∷ rest)
          ≡ record { status = timed_out; buf = buf; input = rest })
unfolding read_loop read
read_loop_ends left i buf rest = ((λ timeout. refl), refl)

-- Where no read fails and there are fewer pauses than the timeout, as many reads as bytes are made,
-- and 0 is returned. The bytes read are written each at the number of its read: a pause uses up a
-- place of the buffer, which keeps what it held.
pub serialport_read-written :
    (xs : List Input) (timeout : ℕ) (buf : Memory) (rest : List Input)
    → Succeed xs
    → pauses xs < timeout
    → serialport_read (length xs) timeout buf (xs ++ rest)
      ≡ record { status = ok; buf = written buf 0 xs; input = rest }
unfolding serialport_read read_loop
serialport_read-written xs timeout buf rest s l =
    read_loop-append xs (length xs) 0 timeout (timeout - pauses xs - 1) 0 buf rest s (omega arith)
      (omega arith)

-- Reads that succeed and pause less often than the timeout, fewer than the bytes wanted: a failure
-- behind them gives -1, and a pause behind them that exhausts the timeout gives -2. What was read is
-- in the buffer.
pub serialport_read_fails :
    (xs : List Input) (bytes timeout : ℕ) (buf : Memory) (rest : List Input)
    → Succeed xs
    → length xs < bytes
    → pauses xs < timeout
    → (serialport_read bytes timeout buf (xs ++ (failure ∷ rest))
        ≡ record { status = broken; buf = written buf 0 xs; input = rest })
      × (serialport_read bytes (suc (pauses xs)) buf (xs ++ (nothing ∷ rest))
          ≡ record { status = timed_out; buf = written buf 0 xs; input = rest })
unfolding serialport_read
serialport_read_fails xs bytes timeout buf rest s l t =
    let left = bytes - length xs - 1 in
    let ends = read_loop_ends left (0 + length xs) (written buf 0 xs) rest in
    (
      read_loop-append xs bytes (suc left) timeout (timeout - pauses xs - 1) 0 buf (failure ∷ rest)
            s (omega arith) (omega arith)
          ∙ ends.0 (timeout - pauses xs - 1),
      read_loop-append xs bytes (suc left) (suc (pauses xs)) 0 0 buf (nothing ∷ rest) s
            (omega arith) (omega arith)
          ∙ ends.1,
    )
