-- ===== src/Settings/Remote/Tokens/Laws.antt =====
-- What the two regular expressions find in texts that are joined from parts.
use mathlib.Core.List.{map-append}
use chisel_uds.Prelude.{
  ℕ, zero, suc, ◌-◌, ◌≤◌, Text, codes, Bool, true, false, not, some, List, [], ◌∷◌, ◌++◌, ◌≡◌, ◌≢◌,
  ◌⊎◌, inl, inr, refl, sym, ap, ◌∙◌, arith, has_byte, to_lower, length, all, All, length-append,
  take-length, drop-length_next, append_assoc, append-nil,
}
use chisel_uds.Prelude.Strings.Laws.{has_suffix_without, has_suffix-append, has_byte-to_lower}
use chisel_uds.Settings.Number.Ports.{is_port_byte}
use chisel_uds.Settings.Remote.Tokens.{
  is_bracket, is_plain, span_plain, until_bracket, skip_colon, parts, find_parts, l4_proto,
  has_proto,
}

abbrev no_bracket : ℕ → Bool
no_bracket c = not (is_bracket c)

-- What the expression for the parts matches: plain bytes, or a text in brackets.
abbrev pub IsToken : Text → Type 0
IsToken t =
    ((t ≢ []) × (all is_plain t ≡ true))
    ⊎ ((c : ℕ) × (s : Text) × (all no_bracket (c ∷ s) ≡ true) × (t ≡ b'[' ∷ (c ∷ s) ++ b']' ∷ []))

-- the end of the text, or a colon
abbrev Ends : Text → Type 0
Ends rest = (rest ≡ []) ⊎ ((r : Text) × (rest ≡ b':' ∷ r))

span_plain_end : (rest : Text) → Ends rest → span_plain rest ≡ ([], rest)
unfolding span_plain
span_plain_end [] e = refl
span_plain_end (c ∷ rest) (inl e) = cc
span_plain_end (c ∷ rest) (inr (r, e)) = ground arith

span_plain_lem :
    (t rest : Text) → all is_plain t ≡ true → Ends rest → span_plain (t ++ rest) ≡ (t, rest)
unfolding span_plain
span_plain_lem [] rest h e = span_plain_end rest e
span_plain_lem (c ∷ t) rest h e = ground (arith, span_plain_lem t rest)

until_bracket_lem :
    (t rest : Text) → all no_bracket t ≡ true → until_bracket (t ++ b']' ∷ rest) ≡ some (t, rest)
unfolding until_bracket
until_bracket_lem [] rest h = refl
until_bracket_lem (c ∷ t) rest h = ground (arith, until_bracket_lem t rest)

parts-plain :
    (n : ℕ) (c : ℕ) (s rest : Text)
    → all is_plain (c ∷ s) ≡ true
    → Ends rest
    → parts (suc n) (c ∷ s ++ rest) ≡ (c ∷ s) ∷ parts n (skip_colon rest)
unfolding parts
parts-plain n c s rest h e = ground (arith, span_plain_lem s rest)

parts-bracketed :
    (n : ℕ) (c : ℕ) (s rest : Text)
    → all no_bracket (c ∷ s) ≡ true
    → parts (suc n) (b'[' ∷ (c ∷ s) ++ b']' ∷ rest)
      ≡ (b'[' ∷ (c ∷ s) ++ b']' ∷ []) ∷ parts n (skip_colon rest)
unfolding parts
parts-bracketed n c s rest h = rw (until_bracket_lem (c ∷ s) rest h, parts)

parts-token :
    (n : ℕ) (t rest : Text)
    → IsToken t
    → Ends rest
    → parts (suc n) (t ++ rest) ≡ t ∷ parts n (skip_colon rest)
parts-token n [] rest (inl h) e = absurd (h.0 refl)
parts-token n (c ∷ s) rest (inl h) e = parts-plain n c s rest h.1 e
parts-token n t rest (inr (c, s, h, q)) e = rw (q, append_assoc) (parts-bracketed n c s rest h)

-- the parts with a colon between each two
abbrev pub join : List Text → Text
join [] = []
join (t ∷ []) = t
join (t ∷ u ∷ us) = t ++ b':' ∷ join (u ∷ us)

parts-join : (n : ℕ) (ts : List Text) → All IsToken ts → length ts ≤ n → parts n (join ts) ≡ ts
unfolding parts
parts-join zero [] h e = refl
parts-join (suc n) [] h e = refl
parts-join zero (t ∷ ts) h e = absurd (omega arith)
parts-join (suc n) (t ∷ []) h e =
    ap (parts (suc n)) (sym (append-nil t))
    ∙ parts-token n t [] h.0 (inl refl)
    ∙ ap (◌∷◌ t) (parts-join n [] tt (omega arith))
parts-join (suc n) (t ∷ u ∷ us) h e =
    parts-token n t (b':' ∷ join (u ∷ us)) h.0 (inr (_, refl))
    ∙ ap (◌∷◌ t) (parts-join n (u ∷ us) h.1 (omega arith))

token_length : (t : Text) → IsToken t → 1 ≤ length t
token_length [] (inl h) = absurd (h.0 refl)
token_length [] (inr (c, s, h, q)) = cc
token_length (c ∷ t) h = omega arith

length-join : (ts : List Text) → All IsToken ts → length ts ≤ length (join ts)
length-join [] h = omega arith
length-join (t ∷ []) h = omega (arith, token_length t h.0)
length-join (t ∷ u ∷ us) h =
    omega
      (arith, token_length t h.0, length-append t (b':' ∷ join (u ∷ us)), length-join (u ∷ us) h.1)

-- From parts that are joined by colons, each a non-empty text without brackets and colons or one in
-- brackets, the expression finds these parts again, in order.
pub find_parts-join : (ts : List Text) → All IsToken ts → find_parts (join ts) ≡ ts
unfolding find_parts
find_parts-join ts h = parts-join (length (join ts)) ts h (length-join ts h)

pub l4_proto_none : (s : Text) → has_byte s b'/' ≡ false → l4_proto s ≡ (s, [])
unfolding l4_proto has_byte
l4_proto_none s h = ground (
  arith,
  has_byte-to_lower s,
  has_suffix_without (to_lower s) (codes "/tcp") b'/',
  has_suffix_without (to_lower s) (codes "/udp") b'/',
)

to_lower-port : (p : Text) → all is_port_byte p ≡ true → to_lower p ≡ p
to_lower-port [] h = refl
to_lower-port (c ∷ p) h = ground (arith, to_lower-port p)

has_proto-udp : (p : Text) → has_proto (p ++ codes "/udp") ≡ true
unfolding has_proto
has_proto-udp p = rw (map-append) (ground (arith, has_suffix-append (to_lower p) (codes "/udp")))

pub l4_proto_udp_lower : (p : Text) → l4_proto (p ++ codes "/udp") ≡ (to_lower p, codes "udp")
unfolding l4_proto
l4_proto_udp_lower p =
    let four : length (p ++ codes "/udp") - 4 ≡ length p =
      omega (arith, length-append p (codes "/udp")) in
    let three : length (p ++ codes "/udp") - 3 ≡ suc (length p) =
      omega (arith, length-append p (codes "/udp")) in
    rw
      (
        has_proto-udp p,
        four,
        three,
        take-length p (codes "/udp"),
        drop-length_next p b'/' (codes "udp"),
      )
      refl

pub l4_proto_udp :
    (p : Text) → all is_port_byte p ≡ true → l4_proto (p ++ codes "/udp") ≡ (p, codes "udp")
l4_proto_udp p h = l4_proto_udp_lower p ∙ ap (λ t. (t, codes "udp")) (to_lower-port p h)
