-- ===== src/Base/Powers.antt =====
-- `x & (x - 1)` is 0 for the powers of two, and for no other number above 0.
use Prim.Native.Nat.{bit_and, bit_and-bitwise, digits}
use native.Mathlib.Nat.{pow-zero, pow-succ', one-le-pow}
use koros.Base.{
  ℕ, zero, suc, ◌+◌, ◌-◌, ◌*◌, ◌/◌, ◌%◌, ◌^◌, ◌≤◌, ◌<◌, ◌≡◌, ◌⊎◌, refl, sym, ◌∙◌, ap, inl, inr, min,
  arith, ◌↔◌,
}

and_digits : ℕ → ℕ → ℕ → ℕ
and_digits n a b = digits (λ b. zero) min n a b

and_digits_zero : (n b : ℕ) → and_digits n 0 b ≡ 0
unfolding and_digits
and_digits_zero zero b = refl
and_digits_zero (suc n) b = refl

and_digits-suc :
    (n a b : ℕ)
    → and_digits (suc n) (suc a) b ≡ and_digits n (suc a / 2) (b / 2) * 2 + min (suc a % 2) (b % 2)
unfolding and_digits
and_digits-suc n a b = refl

and_digits_same : (n y : ℕ) → y ≤ n → and_digits n y y ≡ y
and_digits_same n zero h = and_digits_zero n 0
and_digits_same zero (suc a) h = absurd (omega arith)
and_digits_same (suc n) (suc a) h =
    omega (arith, and_digits-suc n a (suc a), and_digits_same n (suc a / 2) (omega arith))

pred : (a : ℕ) → suc a - 1 ≡ a
pred a = omega arith

and_digits_even :
    (n x y : ℕ) → 0 < y → x ≡ 2 * y → and_digits (suc n) x (x - 1) ≡ and_digits n y (y - 1) * 2
and_digits_even n zero y p e = absurd (omega arith)
and_digits_even n (suc a) y p e =
    let half : suc a / 2 ≡ y = omega arith in
    let less : a / 2 ≡ y - 1 = omega arith in
    ap (and_digits (suc n) (suc a)) (pred a)
    ∙ and_digits-suc n a a
    ∙ ap (λ z. and_digits n z (a / 2) * 2 + min (suc a % 2) (a % 2)) half
    ∙ ap (λ z. and_digits n y z * 2 + min (suc a % 2) (a % 2)) less
    ∙ omega arith

parity : (x : ℕ) → 0 < x → ((y : ℕ) × (0 < y) × (x ≡ 2 * y)) ⊎ (x ≡ 2 * ((x - 1) / 2) + 1)
parity x h = odd_or_even (x % 2) refl
  where
    odd_or_even :
        (m : ℕ) → x % 2 ≡ m → ((y : ℕ) × (0 < y) × (x ≡ 2 * y)) ⊎ (x ≡ 2 * ((x - 1) / 2) + 1)
    odd_or_even zero e = inl (x / 2, omega arith, omega arith)
    odd_or_even (suc m) e = inr (omega arith)

and_digits_power : (n x : ℕ) → 0 < x → x ≤ n → and_digits n x (x - 1) ≡ 0 → (k : ℕ) × (x ≡ 2 ^ k)
and_digits_power zero x p h e = absurd (omega arith)
and_digits_power (suc n) x p h e = elim (parity x p) [
  | inl (y, q, even) ↦
      let rest : and_digits n y (y - 1) ≡ 0 = omega (arith, e, and_digits_even n x y q even) in
      let (k, g) = and_digits_power n y q (omega arith) rest in
      (suc k, even ∙ ap (λ z. 2 * z) g ∙ sym (pow-succ' 2 k))
  | inr odd ↦ (0, one n x p h e odd ∙ sym (pow-zero 2))
]
  where
    one :
        (n x : ℕ)
        → 0 < x
        → x ≤ suc n
        → and_digits (suc n) x (x - 1) ≡ 0
        → x ≡ 2 * ((x - 1) / 2) + 1
        → x ≡ 1
    one n zero p h e odd = absurd (omega arith)
    one n (suc a) p h e odd =
        let half : suc a / 2 ≡ a / 2 = omega arith in
        omega (
          arith,
          sym e
              ∙ ap (and_digits (suc n) (suc a)) (pred a)
              ∙ and_digits-suc n a a
              ∙ ap (λ z. and_digits n z (a / 2) * 2 + min (suc a % 2) (a % 2)) half,
          and_digits_same n (a / 2) (omega arith),
        )

and_digits_of_power : (k n : ℕ) → 2 ^ k ≤ n → and_digits n (2 ^ k) (2 ^ k - 1) ≡ 0
and_digits_of_power k zero h =
    absurd (let p : 1 ≤ 2 ^ k = one-le-pow k 2 (omega arith) in omega (arith, p, h))
and_digits_of_power zero (suc n) h =
    ap (λ x. and_digits (suc n) x (x - 1)) (pow-zero 2)
    ∙ and_digits-suc n 0 0
    ∙ omega (arith, and_digits_zero n 0)
and_digits_of_power (suc k) (suc n) h =
    let p : 1 ≤ 2 ^ k = one-le-pow k 2 (omega arith) in
    let double : 2 ^ suc k ≡ 2 * 2 ^ k = pow-succ' 2 k in
    and_digits_even n (2 ^ suc k) (2 ^ k) p double
    ∙ ap (λ z. z * 2) (and_digits_of_power k n (omega (arith, p, double, h)))

-- The test for a power of two.
pub power_of_two_lem : (x : ℕ) → 0 < x → (bit_and x (x - 1) ≡ 0) ↔ ((k : ℕ) × (x ≡ 2 ^ k))
power_of_two_lem x p = (
  λ e. and_digits_power x x p (omega arith) (digitwise x ∙ e),
  λ (k, e).
      sym (digitwise x)
      ∙ ap (λ y. and_digits y y (y - 1)) e
      ∙ and_digits_of_power k (2 ^ k) (omega arith),
)
  where
    digitwise : (x : ℕ) → and_digits x x (x - 1) ≡ bit_and x (x - 1)
    digitwise x = unfold and_digits in sym (λ i. bit_and-bitwise x (x - 1) i)
