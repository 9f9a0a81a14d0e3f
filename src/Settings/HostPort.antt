-- ===== src/Settings/HostPort.antt =====
-- `net.SplitHostPort`, which `decodeUDSRemote` calls.
use chisel_uds.Prelude.{
  Text, ◌||◌, Option, none, some, [], ◌∷◌, ◌==◌, cut, cut_last, has_byte, if◌then◌else◌,
}

-- The host inside the brackets and the port behind them. The first ']' must be followed by the last
-- colon; no other bracket may stand anywhere.
unfoldable pub split_bracketed : Text → Option (Text × Text)
split_bracketed inner = elim (cut inner b']') [
  | none ↦ none
  | some (host, []) ↦ none
  | some (host, c ∷ port) ↦
      if c == b':'
      then (if has_byte port b':'
          then none
          else if has_byte host b'[' || has_byte port b'[' || has_byte port b']'
          then none
          else some (host, port))
      else none
]

-- the branch for a host without brackets
unfoldable pub split_plain : Text → Option (Text × Text)
split_plain s = elim (cut_last s b':') [
  | none ↦ none
  | some (host, port) ↦
      if has_byte host b':'
      then none
      else if has_byte s b'[' || has_byte s b']'
      then none
      else some (host, port)
]

-- host, port, err := net.SplitHostPort(s); `none` is an error
unfoldable pub split_host_port : Text → Option (Text × Text)
unfolding split_bracketed split_plain
split_host_port [] = none
split_host_port (c ∷ s) = if c == b'[' then split_bracketed s else split_plain (c ∷ s)
