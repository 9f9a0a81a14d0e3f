-- ===== src/Settings/Number/Ports.antt =====
-- The texts that `isPort` accepts.
use chisel_uds.Prelude.{
  ℕ, ◌-◌, ◌*◌, ◌+◌, Text, Bool, true, ◌||◌, none, some, [], ◌∷◌, ◌≡◌, ◌≢◌, refl, arith, ◌==◌, all,
  ◌⊎◌, inl, inr, Option-cases,
}
use chisel_uds.Settings.Number.{is_digit, digits_value, unsigned, atoi, is_port}

abbrev pub is_port_byte : ℕ → Bool
is_port_byte c = is_digit c || c == b'+' || c == b'-'

digits_value-all : (s : Text) (acc n : ℕ) → digits_value acc s ≡ some n → all is_port_byte s ≡ true
unfolding digits_value
digits_value-all [] acc n h = refl
digits_value-all (c ∷ s) acc n h = ground (arith, digits_value-all s (acc * 10 + (c - b'0')) n)

unsigned-all : (s : Text) → (unsigned s ≡ none) ⊎ (all is_port_byte s ≡ true)
unfolding unsigned
unsigned-all [] = inl refl
unsigned-all (c ∷ s) = elim (Option-cases (digits_value 0 (c ∷ s))) [
  | inl e ↦ inl e
  | inr (n, e) ↦ inr (digits_value-all (c ∷ s) 0 n e)
]

-- A port has at least one byte, and digits and signs only.
pub is_port-all : (s : Text) → is_port s ≡ true → all is_port_byte s ≡ true
unfolding is_port atoi
is_port-all [] h = refl
is_port-all (c ∷ s) h = ground (arith, unsigned-all s, unsigned-all (c ∷ s))

pub is_port-ne_nil : (s : Text) → is_port s ≡ true → s ≢ []
unfolding is_port atoi
is_port-ne_nil [] h e = cc
is_port-ne_nil (c ∷ s) h e = cc
