-- ===== src/Messages/Data/Layout.antt =====
-- include/scpp/messages/data_message_keys.h and type_codes.h: positions, sizes and type codes.
use sentinet_cpp.Common.{ℕ, ◌+◌}

abbrev pub protocol_version_1 : ℕ
protocol_version_1 = 1

abbrev pub data_packet : ℕ
data_packet = 1

abbrev pub max_message_type : ℕ
max_message_type = 2

abbrev pub message_size : ℕ
message_size = 256

abbrev pub max_fields : ℕ
max_fields = 32

abbrev pub prot_pos : ℕ
prot_pos = 0

abbrev pub op_pos : ℕ
op_pos = prot_pos + 1

abbrev pub func_pos : ℕ
func_pos = op_pos + 1

abbrev pub mag_pos : ℕ
mag_pos = func_pos + 2

abbrev pub byte_pos : ℕ
byte_pos = mag_pos + 2

abbrev pub fld_pos : ℕ
fld_pos = byte_pos + 4

abbrev pub null_term_pos : ℕ
null_term_pos = fld_pos + 2

abbrev pub data_pos : ℕ
data_pos = null_term_pos + 1

abbrev pub data_header_size : ℕ
data_header_size = data_pos

abbrev pub char : ℕ
char = b'c'

abbrev pub byte_type : ℕ
byte_type = b'y'

abbrev pub bool : ℕ
bool = b'b'

abbrev pub int8 : ℕ
int8 = b'p'

abbrev pub uint8 : ℕ
uint8 = b'r'

abbrev pub int16 : ℕ
int16 = b'n'

abbrev pub uint16 : ℕ
uint16 = b'q'

abbrev pub int32 : ℕ
int32 = b'i'

abbrev pub uint32 : ℕ
uint32 = b'u'

abbrev pub int64 : ℕ
int64 = b'x'

abbrev pub uint64 : ℕ
uint64 = b't'

abbrev pub float : ℕ
float = b'f'

abbrev pub double : ℕ
double = b'd'
