-- ===== src/Examples/Memory.antt =====
-- The theorems on memory, applied to three bytes.
use sentinet_cpp.Common.{◌≡◌, zeros, store8, store8-IsBytes, Memory, arith, IsBytes}
use sentinet_cpp.Messages.Memory.{reverse_bytes}
use sentinet_cpp.Messages.Memory.Reversal.{reverse_bytes_at}

abbrev three : Memory
three = store8 (store8 (store8 zeros 0 7) 1 8) 2 9

three-IsBytes : IsBytes three
three-IsBytes =
    store8-IsBytes _ _ _ (store8-IsBytes _ _ _ (store8-IsBytes _ _ _ (λ a. omega arith)))

reverse_bytes_at_example : reverse_bytes three 2 0 ≡ three 2
reverse_bytes_at_example = reverse_bytes_at three 2 0 three-IsBytes
