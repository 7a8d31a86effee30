-- ===== src/Prelude/Bits.antt =====
-- `&` on numbers, bit by bit.
use Prim.Native.Nat.{ℕ, zero, suc, ◌%◌, ◌/◌, ◌≤◌, min, digits, bit_and, bit_and-bitwise}
use openplay.Prelude.{
  ◌≡◌, refl, arith, ap, ◌∙◌, ◌==◌, ==_iff, Bool-cases, inl, inr, ◌≢◌, ◌^◌, ◌↔◌, sym, subst,
}

unfoldable pub shift_right : (k a : ℕ) → ℕ
shift_right zero a = a
shift_right (suc k) a = shift_right k (a / 2)

unfoldable pub bit : (k a : ℕ) → ℕ
unfolding shift_right
bit k a = shift_right k a % 2

shift_right-zero : (k : ℕ) → shift_right k 0 ≡ 0
unfolding shift_right
shift_right-zero zero = refl
shift_right-zero (suc k) = shift_right-zero k

bit-zero : (k : ℕ) → bit k 0 ≡ 0
unfolding bit
bit-zero k = omega (arith, shift_right-zero k)

bit-digits : (k n a b : ℕ) → a ≤ n → bit k (digits (λ b. zero) min n a b) ≡ min (bit k a) (bit k b)
unfolding bit shift_right
bit-digits k zero zero b h = omega (arith, shift_right-zero k)
bit-digits k zero (suc a) b h = absurd (omega arith)
bit-digits k (suc n) zero b h = omega (arith, shift_right-zero k)
bit-digits zero (suc n) (suc a) b h = omega arith
bit-digits (suc k) (suc n) (suc a) b h =
    ap (λ x. shift_right k x % 2) halved ∙ bit-digits k n (suc a / 2) (b / 2) (omega arith)
  where
    halved :
        digits (λ b. zero) min (suc n) (suc a) b / 2 ≡ digits (λ b. zero) min n (suc a / 2) (b / 2)
    halved = omega arith

pub bit-bit_and : (k a b : ℕ) → bit k (bit_and a b) ≡ min (bit k a) (bit k b)
bit-bit_and k a b = ap (bit k) (bit_and-bitwise a b) ∙ bit-digits k a a b (omega arith)

set_bit_below : (n a : ℕ) → a ≤ n → a ≢ 0 → (k : ℕ) × (bit k a ≡ 1)
unfolding bit shift_right
set_bit_below zero a h ne = absurd (omega arith)
set_bit_below (suc n) a h ne = elim (Bool-cases (a % 2 == 1)) [
  | inl odd ↦ (0, (==_iff (a % 2) 1).0 odd)
  | inr even ↦
      let (k, set) =
        set_bit_below n (a / 2) (omega arith) (λ z. ne (ground (arith, ==_iff (a % 2) 1))) in
      (suc k, set)
]

-- A number that is not zero has a bit that is set.
pub set_bit : (a : ℕ) → a ≢ 0 → (k : ℕ) × (bit k a ≡ 1)
set_bit a ne = set_bit_below a a (omega arith) ne

pub bit-le : (k a : ℕ) → bit k a ≤ 1
unfolding bit
bit-le k a = omega arith

half_pow : (k : ℕ) → 2 ^ suc k / 2 ≡ 2 ^ k
half_pow k = omega arith

pub bit-pow : (k : ℕ) → bit k (2 ^ k) ≡ 1
unfolding bit shift_right
bit-pow zero = refl
bit-pow (suc k) = ap (λ x. shift_right k x % 2) (half_pow k) ∙ bit-pow k

-- A power of two has one bit.
pub bit-pow_single : (j k : ℕ) → bit j (2 ^ k) ≡ 1 → j ≡ k
unfolding bit shift_right
bit-pow_single zero zero h = refl
bit-pow_single zero (suc k) h = let h' : 2 ^ suc k % 2 ≡ 1 = h in absurd (omega arith)
bit-pow_single (suc j) zero h =
    let h' : shift_right j 0 % 2 ≡ 1 = h in absurd (omega (arith, shift_right-zero j))
bit-pow_single (suc j) (suc k) h =
    ap suc (bit-pow_single j k (sym (ap (λ x. shift_right j x % 2) (half_pow k)) ∙ h))

-- A test with a mask of one bit reads that bit.
pub bit_and-pow_iff : (k a : ℕ) → (bit_and a (2 ^ k) ≢ 0) ↔ (bit k a ≡ 1)
bit_and-pow_iff k a = (forth, back)
  where
    forth : bit_and a (2 ^ k) ≢ 0 → bit k a ≡ 1
    forth ne =
        let (j, set) = set_bit (bit_and a (2 ^ k)) ne in
        let both = sym (bit-bit_and j a (2 ^ k)) ∙ set in
        let same = bit-pow_single j k (omega (arith, bit-le j a, bit-le j (2 ^ k))) in
        subst (λ i. bit i a ≡ 1) same (omega (arith, bit-le j a, bit-le j (2 ^ k)))

    back : bit k a ≡ 1 → bit_and a (2 ^ k) ≢ 0
    back set z =
        absurd (omega (arith, bit-bit_and k a (2 ^ k), bit-pow k, ap (bit k) z, bit-zero k))
