-- ===== src/Prelude/Strings.antt =====
-- Go strings as lists of bytes, and the functions of the package `strings` that the program calls.
-- `to_lower` and `trim_space` are those of ASCII text.
pub mod Laws
use Prim.Native.Char.{code}
use Prim.Native.String.{String}
use Prim.Native.Nat.{ℕ, ◌+◌}
use mathlib.Core.Path.{◌≡◌, refl}
use mathlib.Core.Logic.{◌↔◌, ◌≢◌}
use mathlib.Core.Bool.{Bool, true, false, ◌&&◌, ◌||◌}
use mathlib.Core.Option.{Option, none, some}
use mathlib.Core.List.{List, [], ◌∷◌, ◌++◌, map, reverse}
use native.Mathlib.Omega.{arith}
use chisel_uds.Prelude.Tests.{ltb, leb, ◌==◌, if◌then◌else◌}
use chisel_uds.Prelude.Lists.{length, drop}

abbrev pub Text : Type 0
Text = List ℕ

abbrev pub codes : String → Text
codes (String.◌∷◌ first more) = code first ∷ codes more
codes String.[] = []

-- a == b
unfoldable pub text_eq : Text → Text → Bool
text_eq [] [] = true
text_eq (x ∷ xs) (y ∷ ys) = x == y && text_eq xs ys
text_eq _ _ = false

pub text_eq_refl : (a : Text) → text_eq a a ≡ true
unfolding text_eq
text_eq_refl [] = refl
text_eq_refl (x ∷ xs) = ground (arith, text_eq_refl xs)

text_eq_sound : (a b : Text) → text_eq a b ≡ true → a ≡ b
unfolding text_eq
text_eq_sound [] [] h = refl
text_eq_sound (x ∷ xs) (y ∷ ys) h = ground (arith, text_eq_sound xs ys)
text_eq_sound [] (y ∷ ys) h = cc
text_eq_sound (x ∷ xs) [] h = cc

pub text_eq_iff : (a b : Text) → (text_eq a b ≡ true) ↔ (a ≡ b)
text_eq_iff a b = (text_eq_sound a b, λ e. rw e (text_eq_refl b))

pub text_ne : (a b : Text) → text_eq a b ≡ false → a ≢ b
text_ne a b h e = ground (arith, text_eq_iff a b)

-- a < b, by bytes
unfoldable pub text_lt : Text → Text → Bool
text_lt [] [] = false
text_lt [] (y ∷ ys) = true
text_lt (x ∷ xs) [] = false
text_lt (x ∷ xs) (y ∷ ys) = ltb x y || (x == y && text_lt xs ys)

pub text_lt_irrefl : (a : Text) → text_lt a a ≡ false
unfolding text_lt
text_lt_irrefl [] = refl
text_lt_irrefl (x ∷ xs) = ground (arith, text_lt_irrefl xs)

pub text_lt_trans : (a b c : Text) → text_lt a b ≡ true → text_lt b c ≡ true → text_lt a c ≡ true
unfolding text_lt
text_lt_trans [] [] c h k = cc
text_lt_trans [] (y ∷ b) [] h k = cc
text_lt_trans [] (y ∷ b) (z ∷ c) h k = refl
text_lt_trans (x ∷ a) [] c h k = cc
text_lt_trans (x ∷ a) (y ∷ b) [] h k = cc
text_lt_trans (x ∷ a) (y ∷ b) (z ∷ c) h k = ground (arith, text_lt_trans a b c)

pub text_lt_total : (a b : Text) → a ≢ b → text_lt a b ≡ false → text_lt b a ≡ true
unfolding text_lt
text_lt_total [] [] ne h = absurd (ne refl)
text_lt_total [] (y ∷ b) ne h = cc
text_lt_total (x ∷ a) [] ne h = refl
text_lt_total (x ∷ a) (y ∷ b) ne h =
    ground (arith, text_lt_total a b, text_eq_iff a b, text_lt_irrefl a)

-- strings.HasPrefix(s, prefix)
unfoldable pub has_prefix : Text → Text → Bool
has_prefix s [] = true
has_prefix [] (p ∷ ps) = false
has_prefix (c ∷ s) (p ∷ ps) = c == p && has_prefix s ps

-- strings.TrimPrefix(s, prefix)
unfoldable pub trim_prefix : Text → Text → Text
unfolding has_prefix
trim_prefix s p = if has_prefix s p then drop (length p) s else s

-- strings.HasSuffix(s, suffix)
unfoldable pub has_suffix : Text → Text → Bool
unfolding has_prefix
has_suffix s p = has_prefix (reverse s) (reverse p)

-- strings.Contains(s, sub)
unfoldable pub contains : Text → Text → Bool
unfolding has_prefix
contains [] sub = has_prefix [] sub
contains (c ∷ s) sub = has_prefix (c ∷ s) sub || contains s sub

-- strings.IndexByte(s, c) >= 0
unfoldable pub has_byte : Text → ℕ → Bool
has_byte [] c = false
has_byte (b ∷ s) c = b == c || has_byte s c

-- s cut at the first c: s[:i] and s[i+1:] for i = strings.Index(s, c)
unfoldable pub cut : Text → ℕ → Option (Text × Text)
cut [] c = none
cut (b ∷ s) c =
    if b == c
    then some ([], s)
    else (elim (cut s c) [ none ↦ none | some (x, y) ↦ some (b ∷ x, y) ])

-- s cut at the last c
unfoldable pub cut_last : Text → ℕ → Option (Text × Text)
cut_last [] c = none
cut_last (b ∷ s) c = elim (cut_last s c) [
  | some (x, y) ↦ some (b ∷ x, y)
  | none ↦ if b == c then some ([], s) else none
]

abbrev pub lower_byte : ℕ → ℕ
lower_byte c = if leb b'A' c && leb c b'Z' then c + 32 else c

-- strings.ToLower(s)
abbrev pub to_lower : Text → Text
to_lower = map lower_byte

abbrev pub is_space : ℕ → Bool
is_space c = c == 32 || (leb 9 c && leb c 13)

unfoldable pub trim_left : Text → Text
trim_left [] = []
trim_left (c ∷ s) = if is_space c then trim_left s else c ∷ s

-- strings.TrimSpace(s)
unfoldable pub trim_space : Text → Text
unfolding trim_left
trim_space s = reverse (trim_left (reverse (trim_left s)))

pub cut_first : (a b : Text) (c : ℕ) → has_byte a c ≡ false → cut (a ++ c ∷ b) c ≡ some (a, b)
unfolding cut has_byte
cut_first [] b c h = ground arith
cut_first (x ∷ a) b c h = ground (arith, cut_first a b c)

pub cut_last-none : (b : Text) (c : ℕ) → has_byte b c ≡ false → cut_last b c ≡ none
unfolding cut_last has_byte
cut_last-none [] c h = refl
cut_last-none (x ∷ b) c h = ground (arith, cut_last-none b c)

pub cut_last_lem :
    (a b : Text) (c : ℕ) → has_byte b c ≡ false → cut_last (a ++ c ∷ b) c ≡ some (a, b)
unfolding cut_last has_byte
cut_last_lem [] b c h = ground (arith, cut_last-none b c h)
cut_last_lem (x ∷ a) b c h = ground (arith, cut_last_lem a b c h)

-- A split at the first `c` is read off: no `c` stands before it, and nothing is lost.
pub cut_sound :
    (s : Text) (c : ℕ) (a b : Text)
    → cut s c ≡ some (a, b)
    → (s ≡ a ++ c ∷ b) × (has_byte a c ≡ false)
unfolding cut has_byte
cut_sound [] c a b h = cc
cut_sound (x ∷ s) c [] b h = ground (arith, cut_sound s c)
cut_sound (x ∷ s) c (y ∷ a) b h = ground (arith, cut_sound s c a b)
