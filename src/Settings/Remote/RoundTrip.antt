-- ===== src/Settings/Remote/RoundTrip.antt =====
-- `DecodeRemote` reads what `Encode` writes.
use mathlib.Core.List.{reverse}
use chisel_uds.Prelude.{
  Text, codes, Bool, true, false, ◌&&◌, List, [], ◌∷◌, ◌++◌, ◌≡◌, ◌≢◌, ◌⊎◌, inl, inr, refl, ap, ◌∙◌,
  arith, text_eq, text_eq_iff, has_prefix, has_byte, all, append_assoc, if◌then◌else◌, append-nil,
  Bool-cases, text_eq_refl, all-append,
}
use chisel_uds.Prelude.Strings.Laws.{
  has_prefix_shorter, has_prefix_before, trim_prefix-append, has_prefix-append,
}
use chisel_uds.Settings.Number.{is_port}
use chisel_uds.Settings.Number.Ports.{is_port_byte, is_port-all, is_port-ne_nil}
use chisel_uds.Settings.Remote.{
  is_host, decode_part, decode_parts, decode_host_port, decode_rest, decode_remote, apply_defaults,
  check_remote, set_proto,
}
use chisel_uds.Settings.Remote.Types.{Remote, ok, is_uds, empty_remote, or_default}
use chisel_uds.Settings.Remote.Tokens.{find_parts, l4_proto, is_plain}
use chisel_uds.Settings.Remote.Tokens.Laws.{
  IsToken, join, find_parts-join, l4_proto_none, l4_proto_udp,
}
use chisel_uds.Settings.Remote.Print.{encode, encode_host_port, local, remote}

-- A host that the loop takes for a host.
pub record IsHostName (url_parse : Text → Bool) (h : Text) : Type 0 where
  pub token : IsToken h
  pub accepted : is_host url_parse h ≡ true
  pub not_port : is_port h ≡ false
  pub no_slash : has_byte h b'/' ≡ false

-- The remotes that `DecodeRemote` makes of hosts and ports, both sides given.
pub record IsHostPort (url_parse : Text → Bool) (r : Remote) : Type 0 where
  pub local_host : IsHostName url_parse r.local_host
  pub not_stdio : r.local_host ≢ codes "stdio"
  pub not_prefix : r.local_host ≢ codes "R"
  pub not_mode : has_prefix r.local_host (codes "uds-") ≡ false
  pub local_port : is_port r.local_port ≡ true
  pub remote_host : IsHostName url_parse r.remote_host
  pub remote_port : is_port r.remote_port ≡ true
  pub proto : (r.remote_proto ≡ codes "tcp") ⊎ (r.remote_proto ≡ codes "udp")
  pub same_proto : r.local_proto ≡ r.remote_proto
  pub no_socks : r.socks ≡ false
  pub no_stdio : r.stdio ≡ false
  pub no_mode : r.uds_mode ≡ []
  pub no_path : r.uds_socket_path ≡ []

all-port_plain : (p : Text) → all is_port_byte p ≡ true → all is_plain p ≡ true
all-port_plain [] h = refl
all-port_plain (c ∷ p) h = ground (arith, all-port_plain p)

port-IsToken : (p : Text) → is_port p ≡ true → IsToken p
port-IsToken p h = inl (is_port-ne_nil p h, all-port_plain p (is_port-all p h))

-- the last part of the encoding
abbrev udp_suffix : Remote → Text
udp_suffix r = if text_eq r.remote_proto (codes "udp") then codes "/udp" else []

abbrev encoded_parts : Remote → List Text
encoded_parts r = r.local_host ∷ r.local_port ∷ r.remote_host ∷ (r.remote_port ++ udp_suffix r) ∷ []

token-ne_nil : (t : Text) → IsToken t → t ≢ []
token-ne_nil t (inl h) = h.0
token-ne_nil t (inr (c, s, h, q)) = λ e. cc

not-text_eq_nil : (t : Text) → t ≢ [] → text_eq t [] ≡ false
not-text_eq_nil t h = ground (arith, text_eq_iff t [])

append-ne_nil : (a b : Text) → a ≢ [] → a ++ b ≢ []
append-ne_nil [] b h q = absurd (h refl)
append-ne_nil (x ∷ a) b h q = cc

no_slash_port : (p : Text) → all is_port_byte p ≡ true → has_byte p b'/' ≡ false
unfolding has_byte
no_slash_port [] h = refl
no_slash_port (c ∷ p) h = ground (arith, no_slash_port p)

-- A text that begins with a byte of a port is no word.
port-ne_word :
    (p t : Text) → p ≢ [] → all is_port_byte p ≡ true → text_eq (p ++ t) (codes "socks") ≡ false
unfolding text_eq
port-ne_word [] t h k = absurd (h refl)
port-ne_word (c ∷ p) t h k = ground arith

set_proto-nil : (r : Remote) → set_proto [] r ≡ r
unfolding set_proto
set_proto-nil r = rw (text_eq_refl [])

set_proto-first :
    (proto : Text) (reversed : Bool)
    → set_proto proto (record empty_remote { reverse = reversed })
      ≡ record empty_remote { reverse = reversed; remote_proto = proto }
unfolding set_proto
set_proto-first proto reversed = ground (arith, text_eq_iff proto [], text_eq_refl [])

-- The loop over four parts: a port that may carry a protocol, a host, a port and a host.
decode_parts_four :
    (url_parse : Text → Bool) (reversed : Bool) (lh lp rh last rp proto : Text)
    → l4_proto last ≡ (rp, proto)
    → text_eq last (codes "socks") ≡ false
    → is_port rp ≡ true
    → is_port lp ≡ true
    → rp ≢ []
    → lp ≢ []
    → rh ≢ []
    → has_byte lp b'/' ≡ false
    → IsHostName url_parse rh
    → IsHostName url_parse lh
    → text_eq lh (codes "stdio") ≡ false
    → decode_parts url_parse true
        (last ∷ rh ∷ lp ∷ lh ∷ [])
        (record empty_remote { reverse = reversed })
      ≡ ok (record empty_remote {
        reverse = reversed;
        local_host = lh;
        local_port = lp;
        remote_host = rh;
        remote_port = rp;
        remote_proto = proto;
      })
unfolding decode_parts decode_part
decode_parts_four url_parse reversed lh lp rh last rp proto e ns hrp hlp nrp nlp nrh slp wr wl
      nstdio =
    simp (
      ns,
      e,
      nstdio,
      hrp,
      hlp,
      l4_proto_none lp slp,
      l4_proto_none rh wr.no_slash,
      l4_proto_none lh wl.no_slash,
      wr.not_port,
      wl.not_port,
      wr.accepted,
      wl.accepted,
      set_proto-first proto reversed,
      set_proto-nil,
      text_eq_refl [],
      not-text_eq_nil rp nrp,
      not-text_eq_nil lp nlp,
      not-text_eq_nil rh nrh,
    )

-- what the defaults make of a protocol that is not written
proto_back :
    (p : Text)
    → (p ≡ codes "tcp") ⊎ (p ≡ codes "udp")
    → or_default (if text_eq p (codes "udp") then codes "udp" else []) (codes "tcp") ≡ p
unfolding text_eq
proto_back p (inl e) = rw e
proto_back p (inr e) = rw e

check_remote-defaults :
    (reversed : Bool) (lh lp rh rp p : Text)
    → lh ≢ []
    → rh ≢ []
    → (p ≡ codes "tcp") ⊎ (p ≡ codes "udp")
    → check_remote (
        apply_defaults (record empty_remote {
          reverse = reversed;
          local_host = lh;
          local_port = lp;
          remote_host = rh;
          remote_port = rp;
          remote_proto = if text_eq p (codes "udp") then codes "udp" else [];
        }))
      ≡ ok (record empty_remote {
        reverse = reversed;
        local_host = lh;
        local_port = lp;
        local_proto = p;
        remote_host = rh;
        remote_port = rp;
        remote_proto = p;
      })
unfolding check_remote apply_defaults
check_remote-defaults reversed lh lp rh rp p nl nr h =
    simp (
      proto_back p h,
      text_eq_refl [],
      not-text_eq_nil lh nl,
      not-text_eq_nil rh nr,
      text_eq_refl p,
    )

decode_remote-prefixed :
    (url_parse : Text → Bool) (b : Bool) (s : Text)
    → has_prefix s (codes "R:") ≡ false
    → decode_remote url_parse (if b then codes "R:" ++ s else s) ≡ decode_rest url_parse b s
unfolding decode_remote
decode_remote-prefixed url_parse true s h =
    rw (has_prefix-append (codes "R:") s, trim_prefix-append (codes "R:") s)
decode_remote-prefixed url_parse false s h = rw h

no_reverse :
    (h t : Text) → IsToken h → h ≢ codes "R" → has_prefix (h ++ b':' ∷ t) (codes "R:") ≡ false
unfolding has_prefix
no_reverse [] t (inl k) ne = absurd (k.0 refl)
no_reverse [] t (inr (c, s, k, q)) ne = cc
no_reverse (c ∷ []) t k ne = ground arith
no_reverse (c ∷ d ∷ s) t (inl k) ne = ground arith
no_reverse (c ∷ d ∷ s) t (inr (c', s', k, q)) ne = ground arith

and_false : (b : Bool) → (b && false) ≡ false
and_false true = refl
and_false false = refl

module _ (url_parse : Text → Bool) (r : Remote) (w : IsHostPort url_parse r) where
  encode_host_port-join : encode_host_port r ≡ join (encoded_parts r)
  unfolding encode_host_port local remote is_uds text_eq
  encode_host_port-join = simp (
    w.no_mode,
    w.no_stdio,
    w.no_socks,
    not-text_eq_nil r.local_port (is_port-ne_nil r.local_port w.local_port),
    not-text_eq_nil r.local_host (token-ne_nil r.local_host w.local_host.token),
    not-text_eq_nil r.remote_host (token-ne_nil r.remote_host w.remote_host.token),
    append_assoc,
  )

  last_part-IsToken : IsToken (r.remote_port ++ udp_suffix r)
  last_part-IsToken = elim (Bool-cases (text_eq r.remote_proto (codes "udp"))) [
    | inl e ↦ rw e (
        inl (
          λ q.
              append-ne_nil r.remote_port (codes "/udp")
                (is_port-ne_nil r.remote_port w.remote_port) q,
          all-append is_plain r.remote_port (codes "/udp")
              (all-port_plain r.remote_port (is_port-all r.remote_port w.remote_port)) refl,
        ))
    | inr e ↦ rw (e, append-nil r.remote_port) (port-IsToken r.remote_port w.remote_port)
  ]

  find_parts-encode : find_parts (encode_host_port r) ≡ encoded_parts r
  find_parts-encode =
      ap find_parts encode_host_port-join
      ∙ find_parts-join (encoded_parts r) (
        w.local_host.token,
        (port-IsToken r.local_port w.local_port, (w.remote_host.token, (last_part-IsToken, tt))),
      )

  l4_proto-last :
      l4_proto (r.remote_port ++ udp_suffix r)
      ≡ (r.remote_port, if text_eq r.remote_proto (codes "udp") then codes "udp" else [])
  l4_proto-last = elim (Bool-cases (text_eq r.remote_proto (codes "udp"))) [
    | inl e ↦ rw e (l4_proto_udp r.remote_port (is_port-all r.remote_port w.remote_port))
    | inr e ↦
        rw (e, append-nil r.remote_port)
          (l4_proto_none r.remote_port
            (no_slash_port r.remote_port (is_port-all r.remote_port w.remote_port)))
  ]

  parsed : Remote
  parsed = record empty_remote {
    reverse = r.reverse;
    local_host = r.local_host;
    local_port = r.local_port;
    remote_host = r.remote_host;
    remote_port = r.remote_port;
    remote_proto = if text_eq r.remote_proto (codes "udp") then codes "udp" else [];
  }

  decode_parts-encoded :
      decode_parts url_parse true
        (reverse (encoded_parts r))
        (record empty_remote { reverse = r.reverse })
      ≡ ok parsed
  unfolding parsed
  decode_parts-encoded =
      decode_parts_four url_parse r.reverse r.local_host r.local_port r.remote_host
        (r.remote_port ++ udp_suffix r) r.remote_port _ l4_proto-last
        (port-ne_word r.remote_port (udp_suffix r) (is_port-ne_nil r.remote_port w.remote_port)
          (is_port-all r.remote_port w.remote_port))
        w.remote_port w.local_port (is_port-ne_nil r.remote_port w.remote_port)
        (is_port-ne_nil r.local_port w.local_port) (token-ne_nil r.remote_host w.remote_host.token)
        (no_slash_port r.local_port (is_port-all r.local_port w.local_port)) w.remote_host
        w.local_host (ground (arith, text_eq_iff r.local_host (codes "stdio"), w.not_stdio))

  completed :
      ◌≡◌ {A = Remote}
        (record empty_remote {
          reverse = r.reverse;
          local_host = r.local_host;
          local_port = r.local_port;
          local_proto = r.remote_proto;
          remote_host = r.remote_host;
          remote_port = r.remote_port;
          remote_proto = r.remote_proto;
        })
        r
  completed = ground (arith, w.same_proto, w.no_socks, w.no_stdio, w.no_mode, w.no_path)

  check_remote-parsed : check_remote (apply_defaults parsed) ≡ ok r
  unfolding parsed
  check_remote-parsed =
      check_remote-defaults r.reverse r.local_host r.local_port r.remote_host r.remote_port
        r.remote_proto (token-ne_nil r.local_host w.local_host.token)
        (token-ne_nil r.remote_host w.remote_host.token) w.proto
      ∙ ap ok completed

  decode_host_port-encode : decode_host_port url_parse r.reverse (encode_host_port r) ≡ ok r
  unfolding decode_host_port
  decode_host_port-encode = rw (find_parts-encode, decode_parts-encoded) check_remote-parsed

  no_mode_prefix : has_prefix (encode_host_port r) (codes "uds-") ≡ false
  unfolding has_byte
  no_mode_prefix =
      rw encode_host_port-join
        (has_prefix_before r.local_host _ (codes "uds-") b':' refl w.not_mode)

  decode_rest-encode : decode_rest url_parse r.reverse (encode_host_port r) ≡ ok r
  unfolding decode_rest
  decode_rest-encode =
      rw
        (
          has_prefix_shorter (encode_host_port r) (codes "uds-") (codes "listen:") no_mode_prefix,
          has_prefix_shorter (encode_host_port r) (codes "uds-") (codes "pair:") no_mode_prefix,
          no_mode_prefix,
        )
        (rw (and_false r.reverse) decode_host_port-encode)

  no_reverse_prefix : has_prefix (encode_host_port r) (codes "R:") ≡ false
  no_reverse_prefix =
      rw encode_host_port-join (no_reverse r.local_host _ w.local_host.token w.not_prefix)

  encode-eq :
      encode r ≡ (if r.reverse then codes "R:" ++ encode_host_port r else encode_host_port r)
  unfolding encode is_uds text_eq
  encode-eq = simp w.no_mode

  -- Encoding a remote with hosts and ports on both sides and decoding the text gives the remote back,
  -- over TCP and UDP, forward and reversed, with names, IPv4 and bracketed IPv6 hosts. The hosts are
  -- ones that `url.Parse` accepts and that are not read as a port; the local host is not "stdio" or
  -- "R" and does not begin with "uds-".
  pub decode-encode : decode_remote url_parse (encode r) ≡ ok r
  decode-encode =
      ap (decode_remote url_parse) encode-eq
      ∙ decode_remote-prefixed url_parse r.reverse (encode_host_port r) no_reverse_prefix
      ∙ decode_rest-encode
