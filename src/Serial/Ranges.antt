-- ===== src/Serial/Ranges.antt =====
-- What the reads of src/kernel/serial.c leave: bytes in the buffer, and measured values of 32 bits.
use sentinet_cpp.Common.{
  ℕ, load32-lt, zero, suc, [], ◌∷◌, ◌+◌, store8, store8-IsBytes, IsBytes, ◌^◌, ◌<◌, arith, Memory,
  List,
}
use sentinet_cpp.Serial.{
  Input, failure, nothing, byte, TeensyDevice, Measured, Received, read, read_loop, respond,
  take_response, serialport_read, read_teensy_response,
}

read_loop-IsBytes :
    (left timeout i : ℕ) (buf : Memory) (input : List Input)
    → IsBytes buf
    → IsBytes (read_loop left timeout i buf input).buf
unfolding read_loop read
read_loop-IsBytes zero timeout i buf input b = b
read_loop-IsBytes (suc left) zero i buf input b = b
read_loop-IsBytes (suc left) (suc zero) i buf [] b = b
read_loop-IsBytes (suc left) (suc (suc t)) i buf [] b =
    read_loop-IsBytes left (suc t) (i + 1) buf [] b
read_loop-IsBytes (suc left) (suc timeout) i buf (failure ∷ input) b = b
read_loop-IsBytes (suc left) (suc zero) i buf (nothing ∷ input) b = b
read_loop-IsBytes (suc left) (suc (suc t)) i buf (nothing ∷ input) b =
    read_loop-IsBytes left (suc t) (i + 1) buf input b
read_loop-IsBytes (suc left) (suc timeout) i buf (byte c ∷ input) b =
    read_loop-IsBytes left (suc timeout) (i + 1) (store8 buf i c) input (store8-IsBytes buf i c b)

respond-IsMeasured :
    (d : TeensyDevice) (m : Measured) (r : Received)
    → IsBytes r.buf
    → m.velocity < 2 ^ 32
    → m.omega < 2 ^ 32
    → m.dt < 2 ^ 32
    → let got = respond d m r in
      IsBytes got.device.buffer
      × (got.measured.velocity < 2 ^ 32)
      × (got.measured.omega < 2 ^ 32)
      × (got.measured.dt < 2 ^ 32)
unfolding respond take_response
respond-IsMeasured d m r b v w t =
    ground (arith, load32-lt r.buf 1 b, load32-lt r.buf 5 b, load32-lt r.buf 13 b, b)

-- The values that a response leaves have 32 bits, and the buffer holds bytes.
pub read_teensy_response-IsMeasured :
    (d : TeensyDevice) (m : Measured) (input : List Input)
    → IsBytes d.buffer
    → m.velocity < 2 ^ 32
    → m.omega < 2 ^ 32
    → m.dt < 2 ^ 32
    → let got = read_teensy_response d m input in
      IsBytes got.device.buffer
      × (got.measured.velocity < 2 ^ 32)
      × (got.measured.omega < 2 ^ 32)
      × (got.measured.dt < 2 ^ 32)
unfolding read_teensy_response serialport_read
read_teensy_response-IsMeasured d m input b v w t =
    respond-IsMeasured d m (read_loop 17 1 0 d.buffer input)
      (read_loop-IsBytes 17 1 0 d.buffer input b) v w t
