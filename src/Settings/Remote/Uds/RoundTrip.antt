-- ===== src/Settings/Remote/Uds/RoundTrip.antt =====
-- `DecodeRemote` reads what `Encode` writes of a Unix socket remote.
use chisel_uds.Prelude.{
  ℕ, Text, codes, Bool, true, false, ◌||◌, some, [], ◌∷◌, ◌++◌, ◌≡◌, ◌≢◌, ◌⊎◌, inl, inr, refl, ap,
  ◌∙◌, arith, text_eq, text_eq_iff, has_prefix, has_byte, trim_prefix, trim_space, all,
  append_assoc, cut_first, cut_last_lem, ◌==◌,
}
use chisel_uds.Prelude.Strings.Laws.{has_byte-append}
use chisel_uds.Settings.Number.{is_port}
use chisel_uds.Settings.Number.Ports.{is_port_byte, is_port-all}
use chisel_uds.Settings.HostPort.{split_host_port, split_plain, split_bracketed}
use chisel_uds.Settings.Remote.{is_host, decode_remote}
use chisel_uds.Settings.Remote.Types.{
  Remote, ok, is_uds, empty_remote, uds_mode_listen, uds_mode_pair,
}
use chisel_uds.Settings.Remote.Uds.{split_path, target_of, decode_uds_target, decode_uds_remote}
use chisel_uds.Settings.Remote.Print.{encode, remote}

-- A host that stands in a target without doubt: without colons and brackets, or with colons and in
-- brackets.
abbrev pub IsUdsHost : Text → Type 0
IsUdsHost h =
    ((h ≢ []) × (has_byte h b':' ≡ false) × (has_byte h b'[' ≡ false) × (has_byte h b']' ≡ false))
    ⊎ ((s : Text) × (has_byte s b':' ≡ true)
        × (has_byte s b'[' ≡ false)
        × (has_byte s b']' ≡ false)
        × (h ≡ b'[' ∷ s ++ b']' ∷ []))

-- The Unix socket remotes that `DecodeRemote` makes.
pub record IsUdsRemote (url_parse : Text → Bool) (r : Remote) : Type 0 where
  pub mode : (r.uds_mode ≡ uds_mode_listen) ⊎ (r.uds_mode ≡ uds_mode_pair)
  pub path_ne_nil : r.uds_socket_path ≢ []
  pub path_no_colon : has_byte r.uds_socket_path b':' ≡ false
  pub path_trimmed : trim_space r.uds_socket_path ≡ r.uds_socket_path
  pub target_trimmed :
      trim_space (r.remote_host ++ b':' ∷ r.remote_port) ≡ r.remote_host ++ b':' ∷ r.remote_port
  pub host : IsUdsHost r.remote_host
  pub accepted : is_host url_parse r.remote_host ≡ true
  pub port : is_port r.remote_port ≡ true
  pub is_reverse : r.reverse ≡ true
  pub no_socks : r.socks ≡ false
  pub no_stdio : r.stdio ≡ false
  pub no_local_host : r.local_host ≡ []
  pub no_local_port : r.local_port ≡ []
  pub local_unix : r.local_proto ≡ codes "unix"
  pub remote_tcp : r.remote_proto ≡ codes "tcp"

port_without :
    (p : Text) (c : ℕ) → is_port_byte c ≡ false → all is_port_byte p ≡ true → has_byte p c ≡ false
unfolding has_byte
port_without [] c h k = refl
port_without (d ∷ p) c h k = ground (arith, port_without p c h)

split_plain_lem :
    (h p : Text)
    → has_byte h b':' ≡ false
    → has_byte h b'[' ≡ false
    → has_byte h b']' ≡ false
    → all is_port_byte p ≡ true
    → split_plain (h ++ b':' ∷ p) ≡ some (h, p)
unfolding split_plain has_byte
split_plain_lem h p c o s k = ground (
  arith,
  cut_last_lem h p b':' (port_without p b':' refl k),
  has_byte-append h (b':' ∷ p) b'[',
  has_byte-append h (b':' ∷ p) b']',
  port_without p b'[' refl k,
  port_without p b']' refl k,
)

split_bracketed_lem :
    (s p : Text)
    → has_byte s b'[' ≡ false
    → has_byte s b']' ≡ false
    → all is_port_byte p ≡ true
    → split_bracketed (s ++ b']' ∷ b':' ∷ p) ≡ some (s, p)
unfolding split_bracketed
split_bracketed_lem s p o c k = ground (
  arith,
  cut_first s (b':' ∷ p) b']' c,
  port_without p b':' refl k,
  port_without p b'[' refl k,
  port_without p b']' refl k,
)

head_ne : (c : ℕ) (s : Text) (b : ℕ) → has_byte (c ∷ s) b ≡ false → (c == b) ≡ false
unfolding has_byte
head_ne c s b h = ground arith

bracket_first : (t : Text) → has_byte t b'[' ≡ false → has_prefix t (codes "[") ≡ false
unfolding has_byte has_prefix
bracket_first [] h = refl
bracket_first (c ∷ t) h = ground arith

uds_mode_known :
    (mode : Text)
    → (mode ≡ uds_mode_listen) ⊎ (mode ≡ uds_mode_pair)
    → (text_eq mode uds_mode_listen || text_eq mode uds_mode_pair) ≡ true
unfolding text_eq
uds_mode_known mode (inl e) = rw e
uds_mode_known mode (inr e) = rw e

-- A target is split into its host and port, and the host gets its brackets back.
target_of_lem :
    (h p : Text) → IsUdsHost h → all is_port_byte p ≡ true → target_of (h ++ b':' ∷ p) ≡ ok (h, p)
unfolding split_host_port
target_of_lem [] p (inl (ne, c, o, s)) k = absurd (ne refl)
target_of_lem (x ∷ h) p (inl (ne, c, o, s)) k =
    ground (arith, head_ne x h b'[' o, split_plain_lem (x ∷ h) p c o s k)
target_of_lem h p (inr (s, c, o, e, q)) k =
    rw (q, append_assoc) (ground (arith, split_bracketed_lem s p o e k, bracket_first s o))

uds_host-ne_nil : (h : Text) → IsUdsHost h → h ≢ []
uds_host-ne_nil h (inl k) = k.0
uds_host-ne_nil h (inr (s, c, o, e, q)) = λ z. cc

abbrev written : Text → Text → Text
written mode rest = codes "R:" ++ (mode ++ b':' ∷ rest)

decode_remote-mode :
    (url_parse : Text → Bool) (mode rest : Text)
    → (mode ≡ uds_mode_listen) ⊎ (mode ≡ uds_mode_pair)
    → decode_remote url_parse (written mode rest) ≡ decode_uds_target (is_host url_parse) mode rest
unfolding decode_remote decode_uds_remote has_prefix trim_prefix text_eq
decode_remote-mode url_parse mode rest (inl e) = rw e (listens rest)
  where
    listens :
        (t : Text)
        → decode_remote url_parse (written uds_mode_listen t)
          ≡ decode_uds_target (is_host url_parse) uds_mode_listen t
    listens [] = refl
    listens (c ∷ t) = refl
decode_remote-mode url_parse mode rest (inr e) = rw e (pairs rest)
  where
    pairs :
        (t : Text)
        → decode_remote url_parse (written uds_mode_pair t)
          ≡ decode_uds_target (is_host url_parse) uds_mode_pair t
    pairs [] = refl
    pairs (c ∷ t) = refl

encode_uds :
    (r : Remote)
    → (r.uds_mode ≡ uds_mode_listen) ⊎ (r.uds_mode ≡ uds_mode_pair)
    → r.socks ≡ false
    → r.remote_host ≢ []
    → encode r
      ≡ written r.uds_mode (r.uds_socket_path ++ b':' ∷ (r.remote_host ++ b':' ∷ r.remote_port))
unfolding encode is_uds remote
encode_uds r h s n =
    simp (uds_mode_known r.uds_mode h, s, append_assoc)
      (ground (arith, text_eq_iff r.remote_host [], n))

module _ (url_parse : Text → Bool) (r : Remote) (w : IsUdsRemote url_parse r) where
  port_bytes : all is_port_byte r.remote_port ≡ true
  port_bytes = is_port-all r.remote_port w.port

  split_path-encoded :
      split_path (r.uds_socket_path ++ b':' ∷ (r.remote_host ++ b':' ∷ r.remote_port))
      ≡ ok (r.uds_socket_path, r.remote_host ++ b':' ∷ r.remote_port)
  unfolding split_path
  split_path-encoded = ground (
    arith,
    cut_first r.uds_socket_path (r.remote_host ++ b':' ∷ r.remote_port) b':' w.path_no_colon,
    text_eq_iff r.uds_socket_path [],
    text_eq_iff (r.remote_host ++ b':' ∷ r.remote_port) [],
    w.path_ne_nil,
    uds_host-ne_nil r.remote_host w.host,
    w.path_trimmed,
    w.target_trimmed,
  )

  decoded : Text → Remote
  decoded mode = record empty_remote {
    reverse = true;
    uds_mode = mode;
    uds_socket_path = r.uds_socket_path;
    local_proto = codes "unix";
    remote_host = r.remote_host;
    remote_port = r.remote_port;
    remote_proto = codes "tcp";
  }

  decode_uds_target-encoded :
      (mode : Text)
      → decode_uds_target
          (is_host url_parse)
          mode
          (r.uds_socket_path ++ b':' ∷ (r.remote_host ++ b':' ∷ r.remote_port))
        ≡ ok (decoded mode)
  unfolding decode_uds_target decoded
  decode_uds_target-encoded mode = ground (
    arith,
    split_path-encoded,
    target_of_lem r.remote_host r.remote_port w.host port_bytes,
    text_eq_iff r.uds_socket_path [],
    text_eq_iff r.remote_host [],
    w.path_ne_nil,
    uds_host-ne_nil r.remote_host w.host,
    w.accepted,
    w.port,
  )

  decoded-eq : decoded r.uds_mode ≡ r
  unfolding decoded
  decoded-eq = ground (
    arith, w.is_reverse, w.no_socks, w.no_stdio, w.no_local_host, w.no_local_port, w.local_unix,
    w.remote_tcp,
  )

  -- Encoding a Unix socket remote and decoding the text gives the remote back, in both modes. The
  -- path is not empty, has no colon and no outer space; the host has no colons and brackets, or has
  -- colons and stands in brackets, and `url.Parse` accepts it.
  pub decode-encode_uds : decode_remote url_parse (encode r) ≡ ok r
  decode-encode_uds =
      ap (decode_remote url_parse)
        (encode_uds r w.mode w.no_socks (uds_host-ne_nil r.remote_host w.host))
      ∙ decode_remote-mode url_parse r.uds_mode _ w.mode
      ∙ decode_uds_target-encoded r.uds_mode
      ∙ ap ok decoded-eq
