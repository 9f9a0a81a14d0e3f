-- ===== src/Settings/Remote/Tokens.antt =====
-- The two regular expressions of share/settings/remote.go.
pub mod Laws
use chisel_uds.Prelude.{
  ℕ, zero, suc, ◌-◌, Text, codes, Bool, true, false, not, ◌||◌, Option, none, some, List, [], ◌∷◌,
  ◌++◌, ◌==◌, has_suffix, to_lower, length, take, drop, if◌then◌else◌,
}

abbrev pub is_bracket : ℕ → Bool
is_bracket c = c == b'[' || c == b']'

-- [^\[\]:]
abbrev pub is_plain : ℕ → Bool
is_plain c = not (is_bracket c || c == b':')

-- The longest run of plain bytes, and what follows.
unfoldable pub span_plain : Text → Text × Text
span_plain [] = ([], [])
span_plain (c ∷ s) =
    let (run, rest) = span_plain s in if is_plain c then (c ∷ run, rest) else ([], c ∷ s)

-- [^\[\]]*\] : what stands before the bracket, and what follows it
unfoldable pub until_bracket : Text → Option (Text × Text)
until_bracket [] = none
until_bracket (c ∷ s) =
    if c == b']'
    then some ([], s)
    else if c == b'['
    then none
    else (elim (until_bracket s) [ none ↦ none | some (run, rest) ↦ some (c ∷ run, rest) ])

-- :?
abbrev pub skip_colon : Text → Text
skip_colon [] = []
skip_colon (c ∷ s) = if c == b':' then s else c ∷ s

-- `(\[[^\[\]]+\]|[^\[\]:]+):?`, all matches, the text of the group. A byte at which no match begins is
-- passed over. Each round takes at least one byte, so the length of the text is fuel enough.
unfoldable pub parts : ℕ → Text → List Text
unfolding span_plain until_bracket
parts zero s = []
parts (suc n) [] = []
parts (suc n) (c ∷ s) =
    let bracketed : List Text = elim (until_bracket s) [
      | none ↦ parts n s
      | some ([], rest) ↦ parts n s
      | some (b ∷ run, rest) ↦ ((b'[' ∷ b ∷ run) ++ b']' ∷ []) ∷ parts n (skip_colon rest)
    ] in
    let skipped = parts n s in
    let plain : List Text =
      (let (run, rest) = span_plain s in (c ∷ run) ∷ parts n (skip_colon rest)) in
    if c == b'[' then bracketed else if is_plain c then plain else skipped

unfoldable pub find_parts : Text → List Text
unfolding parts
find_parts s = parts (length s) s

-- (?i)\/(tcp|udp)$
unfoldable pub has_proto : Text → Bool
has_proto s = has_suffix (to_lower s) (codes "/tcp") || has_suffix (to_lower s) (codes "/udp")

-- The head is in lower case, the protocol as it was written.
unfoldable pub l4_proto : Text → Text × Text
unfolding has_proto
l4_proto s =
    if has_proto s then (to_lower (take (length s - 4) s), drop (length s - 3) s) else (s, [])
