-- ===== src/Serial/Opening.antt =====
-- src/kernel/serial.c: the opening, the closing and the flushing of the port, and its writes. What the
-- operating system answers is a parameter, and what is asked of it is listed; messages on the terminal
-- are left out.
use sentinet_cpp.Common.{
  ℕ, ◌≡◌, refl, ==_iff, arith, ◌==◌, if◌then◌else◌, Bool, Option, none, some, List, [], ◌∷◌, ◌++◌,
  length,
}
use sentinet_cpp.Common.Maps.{String}
use sentinet_cpp.Serial.{Status, TeensyDevice, new_teensy_device, serialport_write}

-- The constants of <termios.h>.
pub data Flag : Type 0 where
  parenb cstopb csize crtscts cs8 cread clocal ixon ixoff ixany icanon echo echoe isig opost : Flag

-- The constants for speeds, and a number that is none of them.
pub data Speed : Type 0 where
  b4800 b9600 b14400 b19200 b28800 b38400 b57600 b115200 : Speed
  as_given : ℕ → Speed

-- What is done to the attributes of the port before they are set.
pub data Change : Type 0 where
  input_speed output_speed : Speed → Change
  clears sets : List Flag → Change
  vmin vtime : ℕ → Change

-- The calls of the operating system, on a descriptor; the one that `open` failed to give is `none`.
pub data PortCall : Type 0 where
  opens : String → Option ℕ → PortCall
  gets_attributes : ℕ → PortCall
  sets_attributes_now sets_attributes_flush : ℕ → List Change → PortCall
  closes : Option ℕ → PortCall
  sleeps : ℕ → PortCall
  flushes : ℕ → PortCall

-- What the operating system answers: the descriptor, and whether the attributes can be got and set. The
-- last two fields are whether <termios.h> has B14400 and B28800.
pub record System : Type 0 where
  pub opened : Option ℕ
  pub tcgetattr : Bool
  pub tcsetattr : Bool
  pub has_b14400 : Bool
  pub has_b28800 : Bool

unfoldable pub brate : System → ℕ → Speed
brate s baud =
    if baud == 4800
    then b4800
    else if baud == 9600
    then b9600
    else if baud == 14400
    then (if s.has_b14400 then b14400 else as_given baud)
    else if baud == 19200
    then b19200
    else if baud == 28800
    then (if s.has_b28800 then b28800 else as_given baud)
    else if baud == 38400
    then b38400
    else if baud == 57600
    then b57600
    else if baud == 115200
    then b115200
    else as_given baud

-- Eight bits, no parity, one stop bit, no flow control, raw, and reads that do not wait.
unfoldable pub toptions : Speed → List Change
toptions rate =
    input_speed rate
    ∷ output_speed rate
    ∷ clears (parenb ∷ [])
    ∷ clears (cstopb ∷ [])
    ∷ clears (csize ∷ [])
    ∷ sets (cs8 ∷ [])
    ∷ clears (crtscts ∷ [])
    ∷ sets (cread ∷ clocal ∷ [])
    ∷ clears (ixon ∷ ixoff ∷ ixany ∷ [])
    ∷ clears (icanon ∷ echo ∷ echoe ∷ isig ∷ [])
    ∷ clears (opost ∷ [])
    ∷ vmin 0
    ∷ vtime 0
    ∷ []

-- The descriptor, `none` for -1, and the calls.
unfoldable pub serialport_init : System → String → ℕ → Option ℕ × List PortCall
serialport_init s serialport baud = elim s.opened [
  | none ↦ (none, opens serialport none ∷ [])
  | some fd ↦
      let options = toptions (brate s baud) in
      let asked = opens serialport (some fd) ∷ gets_attributes fd ∷ [] in
      let set = asked ++ (sets_attributes_now fd options ∷ sets_attributes_flush fd options ∷ []) in
      if s.tcgetattr then (if s.tcsetattr then (some fd, set) else (none, set)) else (none, asked)
]

unfoldable pub serialport_close : Option ℕ → List PortCall
serialport_close fd = closes fd ∷ []

unfoldable pub serialport_flush : ℕ → List PortCall
serialport_flush fd = sleeps 2 ∷ flushes fd ∷ []

-- The results of the two writes where `write` took `taken` bytes.
unfoldable pub serialport_writebyte : ℕ → Status
serialport_writebyte taken = serialport_write 1 taken

unfoldable pub serialport_write_len : String → ℕ → Status
serialport_write_len str taken = serialport_write (length str) taken

-- `new_teensy_device`: the device, its descriptor and the calls.
unfoldable pub open_teensy : System → String → TeensyDevice × Option ℕ × List PortCall
open_teensy s serialport =
    let (fd, calls) = serialport_init s serialport 9600 in (new_teensy_device, fd, calls)

unfoldable pub teensy_cleanup : Option ℕ → List PortCall
teensy_cleanup fd = serialport_close fd

-- The descriptors that stay open, of those held before the calls.
abbrev drop : ℕ → List ℕ → List ℕ
drop fd [] = []
drop fd (f ∷ fs) = let rest = drop fd fs in if f == fd then rest else f ∷ rest

abbrev pub held : List PortCall → List ℕ → List ℕ
held [] fs = fs
held (opens port (some fd) ∷ calls) fs = held calls (fd ∷ fs)
held (opens port none ∷ calls) fs = held calls fs
held (gets_attributes fd ∷ calls) fs = held calls fs
held (sets_attributes_now fd changes ∷ calls) fs = held calls fs
held (sets_attributes_flush fd changes ∷ calls) fs = held calls fs
held (closes (some fd) ∷ calls) fs = held calls (drop fd fs)
held (closes none ∷ calls) fs = held calls fs
held (sleeps n ∷ calls) fs = held calls fs
held (flushes fd ∷ calls) fs = held calls fs

-- The port opened for a teensy and cleaned up: the descriptor stays open unless both its attributes could
-- be got and they could be set.
open_teensy-held :
    (n : ℕ) (s : System) (serialport : String)
    → let (d, fd, calls) = open_teensy (record s { opened = some n }) serialport in
      held (calls ++ teensy_cleanup fd) []
      ≡ (if s.tcgetattr then (if s.tcsetattr then [] else n ∷ []) else n ∷ [])
unfolding open_teensy teensy_cleanup serialport_close serialport_init
open_teensy-held n s serialport = let same = (==_iff n n).1 refl in ground (arith, same)
