-- ===== src/Serial/Until.antt =====
-- `serialport_read_until` of src/kernel/serial.c, which reads up to a delimiter.
use sentinet_cpp.Common.{
  ℕ, zero, suc, ◌+◌, ◌-◌, ◌∙◌, ◌<◌, ◌≡◌, ◌⊎◌, inl, inr, Bool, true, false, ltb, sym, subst, refl,
  arith, ◌==◌, List, [], ◌∷◌, ◌++◌, Memory, store8, length, Holds, if◌then◌else◌, ◌||◌,
}
use sentinet_cpp.Serial.Reading.{written}
use sentinet_cpp.Serial.{Input, failure, nothing, byte, Status, ok, broken, timed_out, read}

-- `size` is the result where the status is `ok`.
pub record Line : Type 0 where
  pub status : Status
  pub size : ℕ
  pub buf : Memory
  pub input : List Input

-- The terminator, behind the bytes read.
unfoldable pub terminate : ℕ → Memory → List Input → Line
terminate i buf input = record { status = ok; size = i + 1; buf = store8 buf i 0; input = input }

unfoldable pub line_fails : Status → Memory → List Input → Line
line_fails status buf input = record { status = status; size = 0; buf = buf; input = input }

-- `b[0] == until`: a `char` is signed, so the bytes from 128 on are negative numbers and `until` is not.
unfoldable pub matches : ℕ → ℕ → Bool
matches b until = if ltb b 128 then b == until else false

-- The body of the loop, with `left` places before `buf_max`, the timeout, and `last`, what `b[0]`
-- holds; each call is one turn, and the test behind a turn decides on the next one.
unfoldable pub until_loop : ℕ → ℕ → ℕ → ℕ → ℕ → Memory → List Input → Line
unfolding read terminate line_fails
until_loop left zero i last until buf input =
    let rest = (read input).1 in
    elim (read input).0 [
      | failure ↦ line_fails broken buf rest
      | nothing ↦ terminate i buf rest
      | byte b ↦ terminate (i + 1) (store8 buf i b) rest
    ]
until_loop zero (suc timeout) i last until buf input =
    let rest = (read input).1 in
    elim (read input).0 [
      | failure ↦ line_fails broken buf rest
      | nothing ↦ if timeout == 0 then line_fails timed_out buf rest else terminate i buf rest
      | byte b ↦ terminate (i + 1) (store8 buf i b) rest
    ]
until_loop (suc left) (suc timeout) i last until buf input =
    let rest = (read input).1 in
    elim (read input).0 [
      | failure ↦ line_fails broken buf rest
      | nothing ↦
          let again = until_loop (suc left) timeout i last until buf rest in
          if timeout == 0
          then line_fails timed_out buf rest
          else if matches last until
          then terminate i buf rest
          else again
      | byte b ↦
          let again = until_loop left (suc timeout) (i + 1) b until (store8 buf i b) rest in
          if matches b until || left == 0 then terminate (i + 1) (store8 buf i b) rest else again
    ]

-- `last` is what the stack held at `b`.
unfoldable pub serialport_read_until : ℕ → ℕ → ℕ → ℕ → Memory → List Input → Line
unfolding until_loop
serialport_read_until last until buf_max timeout buf input =
    until_loop buf_max timeout 0 last until buf input

-- These bytes, none of which matches the delimiter.
abbrev pub Lacks : ℕ → List ℕ → Type 0
Lacks until [] = Unit {0}
Lacks until (b ∷ bs) = (matches b until ≡ false) × (b < 256) × Lacks until bs

abbrev pub bytes : List ℕ → List Input
bytes [] = []
bytes (b ∷ bs) = byte b ∷ bytes bs

-- What `b[0]` holds after some bytes.
abbrev last_of : ℕ → List ℕ → ℕ
last_of last [] = last
last_of last (b ∷ bs) = last_of b bs

-- Bytes other than the delimiter go into the buffer while there is room behind them.
until_loop-bytes :
    (bs : List ℕ) (left k t i last until : ℕ) (buf : Memory) (rest : List Input)
    → Lacks until bs
    → left ≡ length bs + suc k
    → until_loop left (suc t) i last until buf (bytes bs ++ rest)
      ≡ until_loop
          (suc k)
          (suc t)
          (i + length bs)
          (last_of last bs)
          until
          (written buf i (bytes bs))
          rest
unfolding until_loop written read
until_loop-bytes [] left k t i last until buf rest l e =
    let e' : left ≡ suc k = omega arith in
    let g : i ≡ i + length {A = ℕ} [] = omega arith in rw (e', ← g)
until_loop-bytes (b ∷ bs) zero k t i last until buf rest l e = absurd (omega arith)
until_loop-bytes (b ∷ bs) (suc left) k t i last until buf rest (n, s, l) e =
    let g : i + 1 + length bs ≡ i + length (b ∷ bs) = omega arith in
    let ih = until_loop-bytes bs left k t (i + 1) b until (store8 buf i b) rest l (omega arith) in
    let step : until_loop (suc left) (suc t) i last until buf (bytes (b ∷ bs) ++ rest)
        ≡ until_loop left (suc t) (i + 1) b until (store8 buf i b) (bytes bs ++ rest) =
      ground arith in
    step ∙ rw (← g) ih

written_before : (xs : List Input) (buf : Memory) (i j : ℕ) → j < i → written buf i xs j ≡ buf j
unfolding written store8
written_before [] buf i j l = refl
written_before (byte b ∷ xs) buf i j l =
    written_before xs (store8 buf i b) (i + 1) j (omega arith) ∙ ground arith
written_before (nothing ∷ xs) buf i j l = written_before xs buf (i + 1) j (omega arith)
written_before (failure ∷ xs) buf i j l = written_before xs buf (i + 1) j (omega arith)

written-Holds :
    (bs : List ℕ) (until b i k : ℕ) (buf : Memory)
    → Lacks until bs
    → b < 256
    → k ≡ i + length bs
    → Holds (store8 (store8 (written buf i (bytes bs)) k b) (k + 1) 0) i (bs ++ (b ∷ 0 ∷ []))
unfolding written store8
written-Holds [] until b i k buf l s e = (ground arith, (ground arith, tt))
written-Holds (a ∷ bs) until b i k buf (n, r, l) s e =
    let before = written_before (bytes bs) (store8 buf i a) (i + 1) i (omega arith) in
    (ground (arith, before), written-Holds bs until b (i + 1) k (store8 buf i a) l s (omega arith))

until_loop_ends :
    (k t i last until b : ℕ) (buf : Memory) (rest : List Input)
    → (matches b until ≡ true) ⊎ (k ≡ 0)
    → until_loop (suc k) (suc t) i last until buf (byte b ∷ rest)
      ≡ terminate (i + 1) (store8 buf i b) rest
unfolding until_loop read
until_loop_ends k t i last until b buf rest o = ground arith

-- Bytes that do not match the delimiter, fewer than `buf_max`, and one more that matches it or is the one
-- that fills the buffer, where a byte from 128 on matches none: all of them are in the buffer afterwards with a 0 behind them, also where that
-- is the place behind the last one of the buffer. The result counts the 0, and nothing more is read.
pub serialport_read_until-Holds :
    (bs : List ℕ) (last until b buf_max timeout : ℕ) (buf : Memory) (rest : List Input)
    → Lacks until bs
    → b < 256
    → length bs < buf_max
    → 0 < timeout
    → (matches b until ≡ true) ⊎ (length bs + 1 ≡ buf_max)
    → let r = serialport_read_until last until buf_max timeout buf (bytes bs ++ (byte b ∷ rest)) in
      (r.status ≡ ok)
      × (r.size ≡ length bs + 2)
      × Holds r.buf 0 (bs ++ (b ∷ 0 ∷ []))
      × (r.input ≡ rest)
unfolding serialport_read_until terminate
serialport_read_until-Holds bs last until b buf_max timeout buf rest l s room t o =
    let k = buf_max - length bs - 1 in
    let filled = store8 (written buf 0 (bytes bs)) (length bs) b in
    let go =
      until_loop-bytes bs buf_max k (timeout - 1) 0 last until buf (byte b ∷ rest) l
        (omega arith) in
    let ends =
      until_loop_ends k (timeout - 1) (length bs) (last_of last bs) until b
        (written buf 0 (bytes bs)) rest (elim o [ inl e ↦ inl e | inr full ↦ inr (omega arith) ]) in
    let whole : timeout ≡ suc (timeout - 1) = omega arith in
    let zero_add : 0 + length bs ≡ length bs = omega arith in
    let result : serialport_read_until last until buf_max timeout buf (bytes bs ++ (byte b ∷ rest))
        ≡ terminate (length bs + 1) filled rest =
      rw whole (go ∙ rw zero_add ends) in
    subst
      (λ r.
        (r.status ≡ ok)
        × (r.size ≡ length bs + 2)
        × Holds r.buf 0 (bs ++ (b ∷ 0 ∷ []))
        × (r.input ≡ rest))
      (sym result)
      (refl, omega arith, written-Holds bs until b 0 (length bs) buf l s (omega arith), refl)
