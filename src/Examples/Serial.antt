-- ===== src/Examples/Serial.antt =====
-- The serial port at concrete inputs.
use sentinet_cpp.Common.{
  ◌≡◌, refl, true, false, some, ◌++◌, inr, arith, List, [], ◌∷◌, ◌⊎◌, zeros, Holds,
}
use sentinet_cpp.Serial.{
  serialport_write, Input, nothing, byte, ok, broken, timed_out, new_teensy_device, Measured,
  read_teensy_response,
}
use sentinet_cpp.Serial.Until.{matches, serialport_read_until, serialport_read_until-Holds}
use sentinet_cpp.Serial.Frames.{read_teensy_response_fails}
use sentinet_cpp.Serial.Opening.{
  System, as_given, brate, held, open_teensy, serialport_init, serialport_close, teensy_cleanup,
  serialport_writebyte, serialport_write_len,
}

-- Two bytes with a pause between them.
abbrev paused : List Input
paused = byte 7 ∷ nothing ∷ byte 8 ∷ []

-- A line that ends where the buffer of two bytes is full.
serialport_read_until-Holds_example :
    let r = serialport_read_until 0 10 2 5 zeros (byte 65 ∷ byte 66 ∷ byte 67 ∷ []) in
    (r.status ≡ ok) × (r.size ≡ 3) × Holds r.buf 0 (65 ∷ 66 ∷ 0 ∷ []) × (r.input ≡ byte 67 ∷ [])
unfolding matches
serialport_read_until-Holds_example =
    serialport_read_until-Holds (65 ∷ []) 0 10 66 2 5 zeros (byte 67 ∷ []) (refl, omega arith, tt)
      (omega arith) (omega arith) (omega arith) (inr refl)

abbrev unmeasured : Measured
unmeasured = record { omega = 0; velocity = 0; w_err = 0; dt = 0 }

read_teensy_response_fails_example :
    let r = read_teensy_response new_teensy_device unmeasured (byte 114 ∷ nothing ∷ byte 5 ∷ []) in
    ((r.status ≡ broken) ⊎ (r.status ≡ timed_out))
    × (r.measured ≡ unmeasured)
    × (r.device.v ≡ new_teensy_device.v)
    × (r.device.w ≡ new_teensy_device.w)
    × (r.input ≡ byte 5 ∷ [])
read_teensy_response_fails_example =
    read_teensy_response_fails (114 ∷ []) nothing new_teensy_device unmeasured (byte 5 ∷ [])
      (omega arith) (inr refl)

abbrev busy : System
busy = record {
  opened = some 3;
  tcgetattr = true;
  tcsetattr = false;
  has_b14400 = false;
  has_b28800 = false;
}

-- A port whose attributes cannot be set stays open.
open_busy : held ((open_teensy busy []).2 ++ teensy_cleanup (open_teensy busy []).1) [] ≡ 3 ∷ []
unfolding open_teensy teensy_cleanup serialport_close serialport_init
open_busy = refl

brate_unknown : brate busy 14400 ≡ as_given 14400
unfolding brate
brate_unknown = refl

writebyte_full : serialport_writebyte 1 ≡ ok
unfolding serialport_writebyte serialport_write
writebyte_full = refl

write_len_short : serialport_write_len (65 ∷ 66 ∷ []) 1 ≡ broken
unfolding serialport_write_len serialport_write
write_len_short = refl
