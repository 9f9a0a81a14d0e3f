-- ===== src/Settings/Remote/Types.antt =====
-- `Remote`, and the results of the functions that can fail.
use chisel_uds.Prelude.{Text, codes, Bool, false, ◌||◌, [], text_eq, if◌then◌else◌}

pub record Remote : Type 0 where
  pub local_host : Text
  pub local_port : Text
  pub local_proto : Text
  pub remote_host : Text
  pub remote_port : Text
  pub remote_proto : Text
  pub socks : Bool
  pub reverse : Bool
  pub stdio : Bool
  pub uds_mode : Text
  pub uds_socket_path : Text

-- &Remote{}
abbrev pub empty_remote : Remote
empty_remote = record {
  local_host = [];
  local_port = [];
  local_proto = [];
  remote_host = [];
  remote_port = [];
  remote_proto = [];
  socks = false;
  reverse = false;
  stdio = false;
  uds_mode = [];
  uds_socket_path = [];
}

-- the texts of the errors
pub data DecodeError : Type 0 where
  requires_reverse invalid_mode invalid_remote missing_ports invalid_host cross_protocol :
      DecodeError
  only_tcp_socks stdio_reversed invalid_target missing_socket_path : DecodeError

pub data Result {ℓ} (A : Type ℓ) : Type ℓ where
  err : DecodeError → Result A
  ok : A → Result A

module _ {ℓ κ} {A : Type ℓ} {B : Type κ} where
  infixl 5 ◌>>=◌
  abbrev pub ◌>>=◌ : Result A → (A → Result B) → Result B
  err e >>= next = err e
  ok a >>= next = next a

-- if !test { return nil, e }
abbrev pub guard : Bool → DecodeError → Result (Unit {0})
guard test e = if test then ok tt else err e

infixl 5 ◌>>◌
abbrev pub ◌>>◌ {ℓ} : {B : Type ℓ} → Result (Unit {0}) → Result B → Result B
first >> second = first >>= (λ _. second)

-- if s == "" { s = d }
abbrev pub or_default : Text → Text → Text
or_default s d = if text_eq s [] then d else s

abbrev pub uds_mode_listen : Text
uds_mode_listen = codes "uds-listen"

abbrev pub uds_mode_pair : Text
uds_mode_pair = codes "uds-pair"

unfoldable pub is_uds : Remote → Bool
is_uds r = text_eq r.uds_mode uds_mode_listen || text_eq r.uds_mode uds_mode_pair
