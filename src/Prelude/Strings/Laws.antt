-- ===== src/Prelude/Strings/Laws.antt =====
-- Laws of prefixes, suffixes and bytes of a text.
use mathlib.Core.List.{reverse, reverse-append, reverse-cons}
use Prim.Native.Nat.{ℕ}
use mathlib.Core.Path.{◌≡◌, refl}
use mathlib.Core.Bool.{true, false, ◌||◌}
use mathlib.Core.List.{[], ◌∷◌, ◌++◌}
use native.Mathlib.Omega.{arith}
use chisel_uds.Prelude.Lists.{length, drop}
use chisel_uds.Prelude.Strings.{Text, has_prefix, has_suffix, has_byte, to_lower, trim_prefix}

pub has_prefix-append : (p s : Text) → has_prefix (p ++ s) p ≡ true
unfolding has_prefix
has_prefix-append [] [] = refl
has_prefix-append [] (c ∷ s) = refl
has_prefix-append (c ∷ p) s = ground (arith, has_prefix-append p s)

-- A text with a long prefix has the shorter prefix.
pub has_prefix_shorter : (s p q : Text) → has_prefix s p ≡ false → has_prefix s (p ++ q) ≡ false
unfolding has_prefix
has_prefix_shorter [] [] q h = cc
has_prefix_shorter (c ∷ s) [] q h = cc
has_prefix_shorter [] (d ∷ p) q h = refl
has_prefix_shorter (c ∷ s) (d ∷ p) q h = ground (arith, has_prefix_shorter s p q)

-- A prefix without the byte ends before it.
pub has_prefix_before :
    (h t p : Text) (c : ℕ)
    → has_byte p c ≡ false
    → has_prefix h p ≡ false
    → has_prefix (h ++ c ∷ t) p ≡ false
unfolding has_prefix has_byte
has_prefix_before [] t [] c e k = cc
has_prefix_before (x ∷ h) t [] c e k = cc
has_prefix_before [] t (d ∷ p) c e k = ground arith
has_prefix_before (x ∷ h) t (d ∷ p) c e k = ground (arith, has_prefix_before h t p c)

pub has_byte-append : (a b : Text) (c : ℕ) → has_byte (a ++ b) c ≡ (has_byte a c || has_byte b c)
unfolding has_byte
has_byte-append [] b c = refl
has_byte-append (x ∷ a) b c = ground (arith, has_byte-append a b c)

pub has_byte-reverse : (a : Text) (c : ℕ) → has_byte (reverse a) c ≡ has_byte a c
unfolding has_byte
has_byte-reverse [] c = refl
has_byte-reverse (x ∷ a) c =
    rw (reverse-cons x a, has_byte-append (reverse a) (x ∷ []) c, has_byte-reverse a c)
      (ground arith)

has_byte-prefix :
    (s p : Text) (c : ℕ) → has_prefix s p ≡ true → has_byte p c ≡ true → has_byte s c ≡ true
unfolding has_prefix has_byte
has_byte-prefix [] [] c h k = cc
has_byte-prefix (x ∷ s) [] c h k = cc
has_byte-prefix [] (d ∷ p) c h k = cc
has_byte-prefix (x ∷ s) (d ∷ p) c h k = ground (arith, has_byte-prefix s p c)

-- A text without the byte has no suffix with it.
pub has_suffix_without :
    (s p : Text) (c : ℕ) → has_byte s c ≡ false → has_byte p c ≡ true → has_suffix s p ≡ false
unfolding has_suffix
has_suffix_without s p c h k =
    ground
      (arith, has_byte-prefix (reverse s) (reverse p) c, has_byte-reverse s c, has_byte-reverse p c)

pub has_suffix-append : (s p : Text) → has_suffix (s ++ p) p ≡ true
unfolding has_suffix
has_suffix-append s p = rw (reverse-append s p) (has_prefix-append (reverse p) (reverse s))

pub has_byte-to_lower : (s : Text) → has_byte (to_lower s) b'/' ≡ has_byte s b'/'
unfolding has_byte
has_byte-to_lower [] = refl
has_byte-to_lower (c ∷ s) = ground (arith, has_byte-to_lower s)

pub trim_prefix-append : (p s : Text) → trim_prefix (p ++ s) p ≡ s
unfolding trim_prefix
trim_prefix-append p s = rw (has_prefix-append p s) (drop_self p s)
  where
    drop_self : (a b : Text) → drop (length a) (a ++ b) ≡ b
    drop_self [] b = refl
    drop_self (x ∷ a) b = drop_self a b
