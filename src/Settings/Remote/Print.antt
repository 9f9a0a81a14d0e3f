-- ===== src/Settings/Remote/Print.antt =====
-- `String`, `Encode`, `Local`, `Remote`, `UserAddr`, `CanListen` and the methods of `Remotes` of
-- share/settings/remote.go. The receivers are values, so their fields are set in a copy.
use chisel_uds.Prelude.{
  Text, codes, Bool, true, false, not, ◌&&◌, List, [], ◌∷◌, ◌++◌, map, keep, text_eq, trim_prefix,
  trim_space, if◌then◌else◌,
}
use chisel_uds.Settings.Remote.Types.{Remote, or_default, is_uds}

unfoldable pub local : Remote → Text
unfolding is_uds
local r =
    if is_uds r
    then r.uds_socket_path
    else if r.stdio
    then codes "stdio"
    else or_default r.local_host (codes "0.0.0.0") ++ b':' ∷ r.local_port

unfoldable pub remote : Remote → Text
remote r =
    if r.socks
    then codes "socks"
    else or_default r.remote_host (codes "127.0.0.1") ++ b':' ∷ r.remote_port

-- The descriptor of an endpoint.
unfoldable pub to_string : Remote → Text
unfolding is_uds local remote
to_string r =
    if is_uds r
    then (codes "R:")
      ++ r.uds_mode
      ++ codes ":"
      ++ r.uds_socket_path
      ++ codes "=>"
      ++ trim_prefix (remote r) (codes "127.0.0.1:")
    else (if r.reverse then codes "R:" else [])
      ++ trim_prefix (local r) (codes "0.0.0.0:")
      ++ codes "=>"
      ++ trim_prefix (remote r) (codes "127.0.0.1:")
      ++ (if text_eq r.remote_proto (codes "udp") then codes "/udp" else [])

-- the branch of `Encode` for hosts and ports, behind the prefix
unfoldable pub encode_host_port : Remote → Text
unfolding local remote
encode_host_port r =
    let r' = record r { local_port = or_default r.local_port r.remote_port } in
    local r'
    ++ b':' ∷ remote r'
    ++ (if text_eq r.remote_proto (codes "udp") then codes "/udp" else [])

unfoldable pub encode : Remote → Text
unfolding is_uds remote encode_host_port
encode r =
    if is_uds r
    then codes "R:" ++ r.uds_mode ++ b':' ∷ r.uds_socket_path ++ b':' ∷ remote r
    else if r.reverse
    then codes "R:" ++ encode_host_port r
    else encode_host_port r

-- What the addresses of a user are matched with.
unfoldable pub user_addr : Remote → Text
unfolding is_uds
user_addr r =
    if is_uds r
    then codes "R:" ++ r.uds_mode ++ b':' ∷ r.uds_socket_path
    else if r.reverse
    then codes "R:" ++ r.local_host ++ b':' ∷ r.local_port
    else r.remote_host ++ b':' ∷ r.remote_port

-- What `CanListen` asks of the system: whether a TCP or a UDP address can be listened on, and
-- whether the directory of a path is "." or can be made.
pub record Host : Type 0 where
  pub listens_tcp : Text → Bool
  pub listens_udp : Text → Bool
  pub has_directory : Text → Bool

-- validateSocketPath(path) == nil
abbrev pub valid_socket_path : Host → Text → Bool
valid_socket_path host path = not (text_eq (trim_space path) []) && host.has_directory path

unfoldable pub can_listen : Host → Remote → Bool
unfolding is_uds local
can_listen host r =
    if is_uds r
    then valid_socket_path host r.uds_socket_path
    else if text_eq r.local_proto (codes "tcp")
    then host.listens_tcp (local r)
    else if text_eq r.local_proto (codes "udp")
    then host.listens_udp (local r)
    else false

-- r.Reverse == reverse
abbrev pub same_direction : Bool → Remote → Bool
same_direction true r = r.reverse
same_direction false r = not r.reverse

unfoldable pub reversed : Bool → List Remote → List Remote
reversed direction = keep (same_direction direction)

unfoldable pub encode_all : List Remote → List Text
unfolding encode
encode_all = map encode
