-- ===== src/Programs/Addresses.antt =====
-- src/common.cpp and the constants of include/scpp/common.h: the addresses and topics of the programs.
use sentinet_cpp.Common.{ℕ, ◌^◌, ◌<◌, ◌≡◌, ◌≢◌, ◌++◌, ◌∷◌, [], refl, false, true, ap, ◌∙◌}
use sentinet_cpp.Common.Maps.{String, same, same_refl}
use sentinet_cpp.Common.Decimal.{chars, to_string, to_string-injective}

unfoldable pub to_bind_addr : ℕ → String
to_bind_addr port = chars "tcp://*:" ++ to_string port

unfoldable pub to_conn_addr : ℕ → String
to_conn_addr port = chars "tcp://localhost:" ++ to_string port

abbrev pub cmd_vel_topic : String
cmd_vel_topic = chars "curmt://cmd_vel"

abbrev pub localizer_topic : String
localizer_topic = chars "curmt://state_localizer"

-- The ports of the two proxies, towards the senders and towards the receivers.
abbrev pub localizer_front_address : ℕ
localizer_front_address = 5452

abbrev pub localizer_back_address : ℕ
localizer_back_address = 5454

abbrev pub cmd_vel_front_address : ℕ
cmd_vel_front_address = 5470

abbrev pub cmd_vel_back_address : ℕ
cmd_vel_back_address = 5472

-- The kernel's server, and the ports to which the kernel connects.
abbrev pub kernel_address : ℕ
kernel_address = 5450

abbrev pub kernel_localizer : ℕ
kernel_localizer = localizer_front_address

abbrev pub kernel_cmd_vel : ℕ
kernel_cmd_vel = cmd_vel_back_address

append-injective : (p s t : String) → p ++ s ≡ p ++ t → s ≡ t
append-injective [] s t e = e
append-injective (c ∷ p) s t e = append-injective p s t (cc)

bool_apart : ¬ (false ≡ true)
bool_apart e = cc

-- Two ports of 32 bits give the same address to bind, or the same to connect to, only where they are the
-- same port; an address to bind is never one to connect to; and no address to connect to is a topic.
pub to_conn_addr-apart :
    (a b : ℕ)
    → a < 2 ^ 32
    → b < 2 ^ 32
    → (to_bind_addr a ≡ to_bind_addr b → a ≡ b)
      × (to_conn_addr a ≡ to_conn_addr b → a ≡ b)
      × (to_bind_addr a ≢ to_conn_addr b)
      × (same (to_conn_addr a) cmd_vel_topic ≡ false)
      × (same (to_conn_addr a) localizer_topic ≡ false)
unfolding to_bind_addr to_conn_addr same
to_conn_addr-apart a b p q = (
  λ e. to_string-injective a b p q (append-injective (chars "tcp://*:") _ _ e),
  λ e. to_string-injective a b p q (append-injective (chars "tcp://localhost:") _ _ e),
  λ e.
      let absurd_test : false ≡ true =
        ap (λ s. same s (to_conn_addr b)) e ∙ same_refl (to_conn_addr b) in
      bool_apart absurd_test,
  refl,
  refl,
)
