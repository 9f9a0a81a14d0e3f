-- ===== src/Settings/Number.antt =====
-- `strconv.Atoi` on a 64-bit platform, and `isPort` of share/settings/remote.go.
pub mod Ports
use chisel_uds.Prelude.{
  ℕ, ◌+◌, ◌-◌, ◌*◌, ◌^◌, Text, Bool, true, false, not, ◌&&◌, ◌||◌, Option, none, some, [], ◌∷◌, ltb,
  leb, ◌==◌, if◌then◌else◌,
}
use chisel_uds.Prelude.Int.{ℤ, pos, negsuc, neg_ℕ}

abbrev pub is_digit : ℕ → Bool
is_digit c = leb b'0' c && leb c b'9'

unfoldable pub digits_value : ℕ → Text → Option ℕ
digits_value acc [] = some acc
digits_value acc (c ∷ s) =
    let rest = digits_value (acc * 10 + (c - b'0')) s in if is_digit c then rest else none

unfoldable pub unsigned : Text → Option ℕ
unfolding digits_value
unsigned [] = none
unsigned (c ∷ s) = digits_value 0 (c ∷ s)

-- the result in the range of `int`, from a sign and a magnitude
abbrev pub in_range : Bool → Option ℕ → Option ℤ
in_range negative none = none
in_range true (some n) = if leb n (2 ^ 63) then some (neg_ℕ n) else none
in_range false (some n) = if ltb n (2 ^ 63) then some (pos n) else none

-- strconv.Atoi(s); `none` is an error
unfoldable pub atoi : Text → Option ℤ
unfolding unsigned
atoi [] = none
atoi (c ∷ s) =
    if c == b'-'
    then in_range true (unsigned s)
    else if c == b'+'
    then in_range false (unsigned s)
    else in_range false (unsigned (c ∷ s))

-- !(n <= 0 || n > 65535)
abbrev pub port_range : ℤ → Bool
port_range (pos n) = not (n == 0 || ltb 65535 n)
port_range (negsuc n) = false

unfoldable pub is_port : Text → Bool
unfolding atoi
is_port s = elim (atoi s) [ none ↦ false | some n ↦ port_range n ]
