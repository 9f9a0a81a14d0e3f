-- ===== src/Settings/Remote/Uds.antt =====
-- `decodeUDSRemote` of share/settings/remote.go.
pub mod RoundTrip
use chisel_uds.Prelude.{
  ℕ, Text, codes, Bool, true, false, not, ◌&&◌, ◌||◌, Option, none, some, [], ◌∷◌, ◌++◌, text_eq,
  has_prefix, trim_prefix, has_byte, cut, trim_space, if◌then◌else◌,
}
use chisel_uds.Settings.Number.{is_port}
use chisel_uds.Settings.HostPort.{split_host_port}
use chisel_uds.Settings.Remote.Types.{
  Remote, Result, ok, err, ◌>>=◌, ◌>>◌, guard, requires_reverse, invalid_mode, invalid_remote,
  missing_ports, invalid_host, invalid_target, missing_socket_path, empty_remote, uds_mode_listen,
  uds_mode_pair,
}

-- `pathSep <= 0 || pathSep >= len(rest)-1` is an error: neither side of the colon is empty.
unfoldable pub split_path : Text → Result (Text × Text)
split_path rest = elim (cut rest b':') [
  | none ↦ err invalid_remote
  | some (path, target) ↦
      if text_eq path [] || text_eq target []
      then err invalid_remote
      else ok (trim_space path, trim_space target)
]

-- An IPv6 host gets its brackets back.
abbrev pub bracket_host : Text → Text
bracket_host host =
    if has_byte host b':' && not (has_prefix host (codes "["))
    then b'[' ∷ host ++ b']' ∷ []
    else host

abbrev pub target_of : Text → Result (Text × Text)
target_of target = elim (split_host_port target) [
  | none ↦ err invalid_target
  | some (host, port) ↦ ok (bracket_host host, port)
]

abbrev pub uds_mode_of : Text → Text
uds_mode_of s =
    if has_prefix s (codes "uds-listen:")
    then uds_mode_listen
    else if has_prefix s (codes "uds-pair:")
    then uds_mode_pair
    else []

module _ (is_host : Text → Bool) where
  -- behind the mode
  unfoldable pub decode_uds_target : Text → Text → Result Remote
  unfolding split_path
  decode_uds_target mode rest = do
    (path, target) ← split_path rest
    (host, port) ← target_of target
    guard (not (text_eq path [])) missing_socket_path
    guard (not (text_eq host [] || not (is_host host))) invalid_host
    guard (is_port port) missing_ports
    ok (record empty_remote {
      reverse = true;
      uds_mode = mode;
      uds_socket_path = path;
      local_proto = codes "unix";
      remote_host = host;
      remote_port = port;
      remote_proto = codes "tcp";
    })

  unfoldable pub decode_uds_remote : Text → Bool → Result Remote
  unfolding decode_uds_target
  decode_uds_remote s reversed = do
    guard reversed requires_reverse
    let mode = uds_mode_of s
    guard (text_eq mode uds_mode_listen || text_eq mode uds_mode_pair) invalid_mode
    decode_uds_target mode (trim_prefix s (mode ++ codes ":"))
