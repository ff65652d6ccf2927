-- ===== src/Serial.antt =====
-- src/kernel/serial.c: the serial port to the robot's microcontroller, a teensy. What `read` gives, one
-- byte at a time, is a list.
pub mod Reading
pub mod Until
pub mod Frames
pub mod Ranges
pub mod Opening
use sentinet_cpp.Common.{
  ℕ, zero, suc, ◌+◌, ◌==◌, ltb, min, if◌then◌else◌, Bool, true, false, List, [], ◌∷◌, Memory, zeros,
  store8, store32, load32, slice,
}

-- The three results of `read(fd, b, 1)`: -1, 0, and 1 with the byte read.
pub data Input : Type 0 where
  failure nothing : Input
  byte : ℕ → Input

-- The result of a function of the port: 0, -1 and -2.
pub data Status : Type 0 where
  ok broken timed_out : Status

-- The next result and those that follow; an exhausted port has nothing to read.
unfoldable pub read : List Input → Input × List Input
read [] = (nothing, [])
read (x ∷ input) = (x, input)

pub record Received : Type 0 where
  pub status : Status
  pub buf : Memory
  pub input : List Input

-- The loop of `serialport_read` at index `i`, with as many turns left as bytes: a turn without a byte
-- is one too.
unfoldable pub read_loop : ℕ → ℕ → ℕ → Memory → List Input → Received
unfolding read
read_loop zero timeout i buf input = record { status = ok; buf = buf; input = input }
read_loop (suc left) zero i buf input = record { status = ok; buf = buf; input = input }
read_loop (suc left) (suc timeout) i buf input =
    let rest = (read input).1 in
    elim (read input).0 [
      | failure ↦ record { status = broken; buf = buf; input = rest }
      | nothing ↦ elim timeout [
        | zero ↦ record { status = timed_out; buf = buf; input = rest }
        | suc t ↦ read_loop left (suc t) (i + 1) buf rest
      ]
      | byte b ↦ read_loop left (suc timeout) (i + 1) (store8 buf i b) rest
    ]

unfoldable pub serialport_read : ℕ → ℕ → Memory → List Input → Received
unfolding read_loop
serialport_read bytes timeout buf input = read_loop bytes timeout 0 buf input

-- The result of `serialport_write` where `write` took `taken` bytes.
unfoldable pub serialport_write : ℕ → ℕ → Status
serialport_write bytes taken = if taken == bytes then ok else broken

pub record TeensyDevice : Type 0 where
  pub lin : ℕ  -- msg
  pub ang : ℕ
  pub v : ℕ  -- resp_msg
  pub w : ℕ
  pub w_err : ℕ
  pub dt : ℕ
  pub buffer : Memory

-- `new_teensy_device`, less the opening of the port.
unfoldable pub new_teensy_device : TeensyDevice
new_teensy_device = record { lin = 0; ang = 0; v = 0; w = 0; w_err = 0; dt = 0; buffer = zeros }

-- The bytes 'd', '\n' and 'r'.
abbrev pub drive_com : ℕ
drive_com = 100

abbrev pub newline : ℕ
newline = 10

abbrev pub response_com : ℕ
response_com = 114

-- The size of a frame, which is the result of `teensy_send_data` whatever `write` takes.
abbrev pub frame_size : ℕ
frame_size = 11

-- The device after the call, and the bytes handed to `write`.
unfoldable pub teensy_send_data : TeensyDevice → TeensyDevice × List ℕ
teensy_send_data d =
    let buffer =
      store8 (store8 (store32 (store32 (store8 d.buffer 0 drive_com) 1 d.lin) 5 d.ang) 9 newline) 10
        0 in
    (record d { buffer = buffer }, slice buffer 0 frame_size)

unfoldable pub send_drive : ℕ → ℕ → TeensyDevice → TeensyDevice × List ℕ
unfolding teensy_send_data
send_drive lin ang d = teensy_send_data (record d { lin = lin; ang = ang })

unfoldable pub stop_robot : TeensyDevice → TeensyDevice × List ℕ
unfolding teensy_send_data
stop_robot d = teensy_send_data (record d { lin = 0; ang = 0 })

-- The values that `read_teensy_response` writes through its pointers.
pub record Measured : Type 0 where
  pub omega : ℕ
  pub velocity : ℕ
  pub w_err : ℕ
  pub dt : ℕ

abbrev pub response_size : ℕ
response_size = 17

pub record Response : Type 0 where
  pub device : TeensyDevice
  pub measured : Measured
  pub status : Status
  pub input : List Input

-- The message in the buffer taken over.
unfoldable pub take_response : TeensyDevice → TeensyDevice × Measured
take_response d = (
  record d {
    v = load32 d.buffer 1;
    w = load32 d.buffer 5;
    w_err = load32 d.buffer 9;
    dt = load32 d.buffer 13;
  },
  record {
    velocity = load32 d.buffer 1;
    omega = load32 d.buffer 5;
    w_err = load32 d.buffer 9;
    dt = load32 d.buffer 13;
  },
)

-- What follows the read, `m` being what lies behind the pointers before the call.
unfoldable pub respond : TeensyDevice → Measured → Received → Response
unfolding take_response
respond d m r =
    let d' : TeensyDevice = record d { buffer = r.buf } in
    let kept : Response = record {
      device = d';
      measured = m;
      status = r.status;
      input = r.input;
    } in
    elim r.status [
      | ok ↦
          if r.buf 0 == response_com
          then record {
            device = (take_response d').0;
            measured = (take_response d').1;
            status = ok;
            input = r.input;
          }
          else kept
      | broken ↦ kept
      | timed_out ↦ kept
    ]

unfoldable pub read_teensy_response : TeensyDevice → Measured → List Input → Response
unfolding respond
read_teensy_response d m input = respond d m (serialport_read response_size 1 d.buffer input)
