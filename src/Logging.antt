-- ===== src/Logging.antt =====
-- include/scpp/common.h: what `log_log` makes of the path of a source file. The rest of its log is the
-- library log.c. A path is a string without its terminator, of one character at least.
pub mod Names
use sentinet_cpp.Common.{
  ℕ, zero, suc, ◌+◌, ◌-◌, ◌==◌, ltb, if◌then◌else◌, Bool, true, false, Option, none, some, List, [],
  ◌∷◌, Memory, store8, get_elem?, length,
}
use sentinet_cpp.Common.Maps.{String}

abbrev pub slash : ℕ
slash = 47

-- The size of `file`.
abbrev pub file_size : ℕ
file_size = 20

unfoldable pub char_at : String → ℕ → ℕ
char_at [] i = 0
char_at (c ∷ s) zero = c
char_at (c ∷ s) (suc i) = char_at s i

-- The loop from the end on, which stops behind the first slash that it meets. The argument is `i + 1`, of an
-- `i` that may be -1, and the result is `copy_index + 1`.
unfoldable pub name_loop : String → ℕ → ℕ
unfolding char_at
name_loop path zero = zero
name_loop path (suc i) = let rest = name_loop path i in if char_at path i == slash then i else rest

-- The bytes from `from` on, as many as `n`, copied to the front of `file`.
unfoldable copy : String → ℕ → ℕ → ℕ → Memory → Memory
unfolding char_at
copy path from zero i file = file
copy path from (suc n) i file = copy path (from + 1) n (i + 1) (store8 file i (char_at path from))

-- The copy and its terminator: `file` and what lies behind it, and the number of bytes written.
unfoldable pub file_name : String → Memory → Memory × ℕ
unfolding name_loop copy
file_name path file =
    let from = name_loop path (length path) in
    let n = length path - from in (store8 (copy path from n 0 file) n 0, n + 1)
