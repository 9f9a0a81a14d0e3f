-- ===== src/Keys/Reader.antt =====
-- The deterministic reader fills its buffer, and the keys that are drawn from it are in range.
use chisel_uds.Prelude.{
  ℕ, zero, suc, ◌+◌, ◌-◌, ◌/◌, ◌≤◌, ◌<◌, ◌%◌, Text, length, take, length-take, length-drop,
  length-append, ◌≡◌, refl, arith,
}
use native.Mathlib.Nat.{mod-lt}
use chisel_uds.Keys.{Crypto, hash, read_loop, read_bytes, number_of, rand_field_element}

module _ (c : Crypto) (sum : (t : Text) → length (c.sha512 t) ≡ 64) where
  length-output : (t : Text) → length (hash c t).1 ≡ 32
  unfolding hash
  length-output t = omega (arith, sum t, length-drop 32 (c.sha512 t))

  length-read_loop :
      (fuel left : ℕ) (next : Text) → left ≤ fuel → length (read_loop c fuel left next).0 ≡ left
  unfolding read_loop
  length-read_loop zero left next h = omega arith
  length-read_loop (suc fuel) zero next h = refl
  length-read_loop (suc fuel) (suc l) next h =
      let out = (hash c next).1 in
      let more = (read_loop c fuel (suc l - length (take (suc l) out)) (hash c next).0).0 in
      let o = length-output next in
      let t = length-take (suc l) out in
      let a = length-append (take (suc l) out) more in
      let ih =
        length-read_loop fuel (suc l - length (take (suc l) out)) (hash c next).0 (omega arith) in
      omega arith

  -- A sum of SHA-512 has 64 bytes: then the loop of a read ends, within as many rounds as the buffer has bytes,
  -- with the whole buffer filled.
  pub length-read_bytes : (l : ℕ) (next : Text) → length (read_bytes c l next).0 ≡ l
  unfolding read_bytes
  length-read_bytes l next = length-read_loop l l next (omega arith)

-- a remainder, and one more
in_range : (k n : ℕ) → 1 < n → (1 ≤ k % (n - 1) + 1) × (k % (n - 1) + 1 < n)
in_range k n h = let m : k % (n - 1) < n - 1 = mod-lt k (omega arith) in (omega arith, omega arith)

-- On a curve of an order above one, the number that is drawn for a private key lies between one and the order
-- less one, whatever the reader gave.
pub rand_field_element_bounds :
    (c : Crypto) (next : Text)
    → 1 < c.order
    → (1 ≤ rand_field_element c next) × (rand_field_element c next < c.order)
unfolding rand_field_element
rand_field_element_bounds c next h =
    in_range (number_of 0 (read_bytes c (c.bit_len / 8 + 8) next).0) c.order h
