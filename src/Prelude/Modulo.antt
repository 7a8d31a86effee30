-- ===== src/Prelude/Modulo.antt =====
-- Sums, products and powers modulo a number.
use openplay.Prelude.{inl, inr}
use native.Mathlib.Nat.{
  add-mul-mod_self_left, mod-add-div, pow-suc, pow-zero, mod-add-mod, mod-lt, mod-eq_of_lt,
  mod-eq-sub-mod, add-mod_right,
}
use openplay.Prelude.{
  zero, suc, ℕ, ◌%◌, ◌*◌, ◌^◌, ◌+◌, ◌≡◌, sym, arith, ap, ◌∙◌, ◌/◌, ◌<◌, ◌-◌, ◌⊎◌, ◌≤◌,
}

factor : (r q n b : ℕ) → r * b + n * (q * b) ≡ (r + n * q) * b
factor r q n b = grind arith

mul-mod_left_in : (a b n : ℕ) → (a % n) * b % n ≡ a * b % n
mul-mod_left_in a b n =
    sym (add-mul-mod_self_left ((a % n) * b) n (a / n * b))
    ∙ ap (λ x. x % n) (factor (a % n) (a / n) n b ∙ ap (λ x. x * b) (mod-add-div a n))

mul-mod_right_in : (a b n : ℕ) → a * (b % n) % n ≡ a * b % n
mul-mod_right_in a b n = grind (arith, mul-mod_left_in b a n)

-- A base may be reduced before it is raised.
pub pow-mod_in : (e a n : ℕ) → (a % n) ^ e % n ≡ a ^ e % n
pow-mod_in zero a n = ap (λ x. x % n) (pow-zero (a % n) ∙ sym (pow-zero a))
pow-mod_in (suc e) a n =
    ap (λ x. x % n) (pow-suc (a % n) e)
    ∙ sym (mul-mod_left_in ((a % n) ^ e) (a % n) n)
    ∙ ap (λ x. x * (a % n) % n) (pow-mod_in e a n)
    ∙ mul-mod_left_in (a ^ e) (a % n) n
    ∙ mul-mod_right_in (a ^ e) a n
    ∙ ap (λ x. x % n) (sym (pow-suc a e))

pub mul-pow_in : (a b v n : ℕ) → (a * (v % n)) ^ b % n ≡ (a * v) ^ b % n
mul-pow_in a b v n =
    sym (pow-mod_in b (a * (v % n)) n)
    ∙ ap (λ x. x ^ b % n) (mul-mod_right_in a v n)
    ∙ pow-mod_in b (a * v) n

pub pow_add : (b m n : ℕ) → b ^ (m + n) ≡ b ^ m * b ^ n
pow_add b m zero = grind (arith, pow-zero b)
pow_add b m (suc n) =
    ap (λ k. b ^ k) next
    ∙ pow-suc b (m + n)
    ∙ ap (λ x. x * b) (pow_add b m n)
    ∙ regroup (b ^ m) (b ^ n)
    ∙ ap (λ x. b ^ m * x) (sym (pow-suc b n))
  where
    regroup : (x y : ℕ) → x * y * b ≡ x * (y * b)
    regroup x y = grind arith

    next : m + suc n ≡ suc (m + n)
    next = omega arith

pub pow_mul : (b m n : ℕ) → b ^ (m * n) ≡ (b ^ m) ^ n
pow_mul b m zero = grind (arith, pow-zero b, pow-zero (b ^ m))
pow_mul b m (suc n) =
    ap (λ k. b ^ k) (split m n)
    ∙ pow_add b (m * n) m
    ∙ ap (λ x. x * b ^ m) (pow_mul b m n)
    ∙ sym (pow-suc (b ^ m) n)
  where
    split : (m n : ℕ) → m * suc n ≡ m * n + m
    split m n = grind arith

pub mul_pow : (a b n : ℕ) → (a * b) ^ n ≡ a ^ n * b ^ n
mul_pow a b zero = grind (arith, pow-zero a, pow-zero b, pow-zero (a * b))
mul_pow a b (suc n) =
    pow-suc (a * b) n
    ∙ ap (λ x. x * (a * b)) (mul_pow a b n)
    ∙ swap (a ^ n) (b ^ n)
    ∙ ap (λ x. x * (b ^ n * b)) (sym (pow-suc a n))
    ∙ ap (λ x. a ^ suc n * x) (sym (pow-suc b n))
  where
    swap : (x y : ℕ) → x * y * (a * b) ≡ x * a * (y * b)
    swap x y = grind arith

wrap : (r y n : ℕ) → r < n → y < n → ((r + y) % n + n - r) % n ≡ y
wrap r y n hr hy = elim (below (r + y) n) [
  | inl small ↦
      ap (λ z. (z + n - r) % n) (mod-eq_of_lt small)
      ∙ ap (λ z. z % n) (shift r y n)
      ∙ add-mod_right y n
      ∙ mod-eq_of_lt hy
  | inr large ↦
      ap (λ z. (z + n - r) % n) (mod-eq-sub-mod large ∙ mod-eq_of_lt (ground arith))
      ∙ ap (λ z. z % n) (ground arith)
      ∙ mod-eq_of_lt hy
]
  where
    below : (a b : ℕ) → (a < b) ⊎ (b ≤ a)
    below a b = ground arith

    shift : (r y n : ℕ) → r + y + n - r ≡ y + n
    shift r y n = omega arith

-- A term that was added modulo `n` is taken off again.
pub add-sub_mod : (p y n : ℕ) → 0 < n → y < n → ((p + y) % n + n - p % n) % n ≡ y
add-sub_mod p y n hn hy =
    ap (λ z. (z + n - p % n) % n) (sym (mod-add-mod p n y)) ∙ wrap (p % n) y n (mod-lt p hn) hy
