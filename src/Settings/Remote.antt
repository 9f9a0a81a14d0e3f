-- ===== src/Settings/Remote.antt =====
-- share/settings/remote.go: the endpoints of one tunnelled remote, parsed and printed.
-- `url.Parse` is a parameter: whether it accepts a text. Nothing here relies on more.
pub mod Types
pub mod Tokens
pub mod Uds
pub mod Print
pub mod RoundTrip
mod Tests
mod Examples
use chisel_uds.Prelude.{
  ℕ, ◌+◌, ◌-◌, Text, codes, Bool, true, false, not, ◌&&◌, ◌||◌, Option, none, some, List, [], ◌∷◌,
  ◌++◌, ◌==◌, ltb, leb, text_eq, has_prefix, trim_prefix, has_suffix, to_lower, length, take, drop,
  if◌then◌else◌,
}
use mathlib.Core.List.{reverse}
use chisel_uds.Settings.Number.{is_port}
use Types.{
  Remote, Result, ok, err, ◌>>=◌, ◌>>◌, guard, DecodeError, missing_ports, invalid_host,
  invalid_remote, invalid_mode, cross_protocol, only_tcp_socks, stdio_reversed, empty_remote,
  or_default,
}
use Tokens.{find_parts, l4_proto}
use Uds.{decode_uds_remote}

-- the assignment of `proto` in the loop of `DecodeRemote`
unfoldable pub set_proto : Text → Remote → Remote
set_proto proto r =
    if text_eq proto []
    then r
    else if text_eq r.remote_port []
    then record r { remote_proto = proto }
    else if text_eq r.local_proto []
    then record r { local_proto = proto }
    else r

-- the checks of the finished remote, after the defaults
unfoldable pub apply_defaults : Remote → Remote
apply_defaults r =
    let hosts =
      if r.socks
      then record r {
        local_host = or_default r.local_host (codes "127.0.0.1");
        local_port = or_default r.local_port (codes "1080");
      }
      else record r {
        local_host = or_default r.local_host (codes "0.0.0.0");
        remote_host = or_default r.remote_host (codes "127.0.0.1");
      } in
    let remote_proto = or_default hosts.remote_proto (codes "tcp") in
    record hosts {
      remote_proto = remote_proto;
      local_proto = or_default hosts.local_proto remote_proto;
    }

unfoldable pub check_remote : Remote → Result Remote
check_remote r = do
  guard (text_eq r.local_proto r.remote_proto) cross_protocol
  guard (not (r.socks && not (text_eq r.remote_proto (codes "tcp")))) only_tcp_socks
  guard (not (r.stdio && r.reverse)) stdio_reversed
  ok r

module _ (url_parse : Text → Bool) where
  -- _, err := url.Parse("//" + s); err == nil
  unfoldable pub is_host : Text → Bool
  is_host s = url_parse (codes "//" ++ s)

  -- what follows `L4Proto` in the loop's body
  unfoldable pub decode_part : Text → Remote → Result Remote
  unfolding is_host
  decode_part p r =
      if is_port p
      then ok (record r {
        remote_port = if not r.socks && text_eq r.remote_port [] then p else r.remote_port;
        local_port = p;
      })
      else if not r.socks && (text_eq r.remote_port [] && text_eq r.local_port [])
      then err missing_ports
      else if not (is_host p)
      then err invalid_host
      else if not r.socks && text_eq r.remote_host []
      then ok (record r { remote_host = p })
      else ok (record r { local_host = p })

  -- The loop runs from the last part to the first. `last` is `i == len(parts)-1`.
  unfoldable pub decode_parts : Bool → List Text → Remote → Result Remote
  unfolding decode_part
  decode_parts last [] r = ok r
  decode_parts last (p ∷ rest) r =
      (if last && text_eq p (codes "socks")
        then ok (record r { socks = true })
        else if is_first rest && text_eq p (codes "stdio")
        then ok (record r { stdio = true })
        else (let (q, proto) = l4_proto p in decode_part q (set_proto proto r)))
      >>= λ r'. decode_parts false rest r'
    where
      -- i == 0
      is_first : List Text → Bool
      is_first [] = true
      is_first (q ∷ qs) = false

  -- the part of `DecodeRemote` behind the prefix "R:" and the socket modes
  unfoldable pub decode_host_port : Bool → Text → Result Remote
  unfolding decode_parts apply_defaults check_remote
  decode_host_port reverse_flag s = do
    let parts = find_parts s
    guard (not (leb (length parts) 0 || leb 5 (length parts))) invalid_remote
    r ← decode_parts true (reverse parts) (record empty_remote { reverse = reverse_flag })
    check_remote (apply_defaults r)

  -- behind the prefix "R:"
  unfoldable pub decode_rest : Bool → Text → Result Remote
  unfolding decode_host_port
  decode_rest reverse_flag s =
      if has_prefix s (codes "uds-listen:") || has_prefix s (codes "uds-pair:")
      then decode_uds_remote is_host s reverse_flag
      else if reverse_flag && has_prefix s (codes "uds-")
      then err invalid_mode
      else decode_host_port reverse_flag s

  unfoldable pub decode_remote : Text → Result Remote
  unfolding decode_rest
  decode_remote s =
      if has_prefix s (codes "R:")
      then decode_rest true (trim_prefix s (codes "R:"))
      else decode_rest false s
