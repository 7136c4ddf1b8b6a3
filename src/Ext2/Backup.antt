-- ===== src/Ext2/Backup.antt =====
-- filesystems/kor-ext2/src/lib.rs, `is_power_of` and `group_has_super_backup`: which groups keep a
-- backup of the superblock and of the descriptor table.
mod Tests
use koros.Base.{
  ℕ, zero, suc, ◌*◌, ◌/◌, ◌%◌, ◌^◌, ◌≤◌, ◌<◌, ◌==◌, ◌≡◌, refl, sym, ◌∙◌, ap, Bool, true, false, leb,
  if◌then◌else◌, Option, none, some, Bool-cases, inl, inr, arith, ◌↔◌,
}
use native.Mathlib.Nat.{
  mul_assoc, pow-zero, pow-succ', one-le-pow, mul-mod_right, mul-div_cancel_left,
}

-- The loop of `is_power_of`, which leaves a number that `base` does not divide.
pub strip : ℕ → ℕ → ℕ → Option ℕ
strip zero n base = none
strip (suc fuel) n base =
    let rest = strip fuel (n / base) base in if n % base == 0 then rest else some n

pub is_one : Option ℕ → Option Bool
is_one none = none
is_one (some n) = some (n == 1)

-- The fuel is the number: each turn makes it smaller. `none` where the fuel runs out.
unfoldable pub is_power_of : ℕ → ℕ → Option Bool
unfolding strip is_one
is_power_of n base = if n == 0 then some false else is_one (strip n n base)

pub either : Option Bool → Option Bool → Option Bool
either (some true) other = some true
either (some false) other = other
either none other = none

unfoldable pub group_has_super_backup : ℕ → Option Bool
unfolding is_power_of either
group_has_super_backup group =
    if leb group 1
    then some true
    else either (is_power_of group 3) (either (is_power_of group 5) (is_power_of group 7))

-- What the loop leaves: the number is a power of the base times that.
strip_ends :
    (fuel n base : ℕ)
    → 2 ≤ base
    → 0 < n
    → n ≤ fuel
    → (m : ℕ) × (strip fuel n base ≡ some m) × ((k : ℕ) × (n ≡ base ^ k * m))
unfolding strip
strip_ends zero n base h p q = absurd (omega arith)
strip_ends (suc fuel) n base h p q = elim (Bool-cases (n % base == 0)) [
  | inr e ↦ rw (e, strip) (n, refl, (0, zeroth base n))
  | inl e ↦
      let exact : n ≡ base * (n / base) = exact n base h e in
      let (m, r, (k, g)) =
        strip_ends fuel (n / base) base h (quotient_pos n base h p exact)
          (quotient_low n base fuel h q p) in
      rw (e, strip) (m, r, (suc k, exact ∙ ap (λ x. base * x) g ∙ power base k m))
]
  where
    zeroth : (base n : ℕ) → n ≡ base ^ 0 * n
    zeroth base n = rw (pow-zero base) (omega arith)

    exact : (n base : ℕ) → 2 ≤ base → (n % base == 0) ≡ true → n ≡ base * (n / base)
    exact n base h e = grind arith

    quotient_pos : (n base : ℕ) → 2 ≤ base → 0 < n → n ≡ base * (n / base) → 0 < n / base
    quotient_pos n base h p e = grind arith

    quotient_low : (n base fuel : ℕ) → 2 ≤ base → n ≤ suc fuel → 0 < n → n / base ≤ fuel
    quotient_low n base fuel h q p = grind arith

    power : (base k m : ℕ) → base * (base ^ k * m) ≡ base ^ suc k * m
    power base k m = sym (mul_assoc base (base ^ k) m) ∙ ap (λ x. x * m) (sym (pow-succ' base k))

divide_power :
    (base j : ℕ)
    → 2 ≤ base
    → (base ^ suc j % base ≡ 0) × (base ^ suc j / base ≡ base ^ j) × (base ^ j < base ^ suc j)
divide_power base j h =
    let p = pow-succ' base j in
    let q : 1 ≤ base ^ j = one-le-pow j base (omega arith) in
    (
      ap (λ x. x % base) p ∙ mul-mod_right base (base ^ j),
      ap (λ x. x / base) p ∙ mul-div_cancel_left (base ^ j) (omega arith),
      grind (arith, p, q),
    )

strip-power : (j fuel base : ℕ) → 2 ≤ base → base ^ j ≤ fuel → strip fuel (base ^ j) base ≡ some 1
unfolding strip
strip-power j zero base h q =
    absurd (let p : 1 ≤ base ^ j = one-le-pow j base (omega arith) in omega (arith, p))
strip-power zero (suc fuel) base h q = rw (pow-zero base, one_mod base h) refl
  where
    one_mod : (base : ℕ) → 2 ≤ base → 1 % base ≡ 1
    one_mod base h = grind arith
strip-power (suc j) (suc fuel) base h q =
    let (r, d, l) = divide_power base j h in
    rw (r, d) (strip-power j fuel base h (omega (arith, l)))

-- For a base of at least 2 (for base 1 the loop does not end, and base 0 divides by zero), `is_power_of`
-- ends and decides what its comment says: the number is a power of the base, the zeroth
-- one included.
pub is_power_of_lem :
    (n base : ℕ)
    → 2 ≤ base
    → (b : Bool) × (is_power_of n base ≡ some b) × ((b ≡ true) ↔ ((k : ℕ) × (n ≡ base ^ k)))
unfolding is_power_of is_one
is_power_of_lem zero base h = (
  false,
  refl,
  (
    λ e. absurd (ground arith),
    λ p.
        absurd
          (let q : 1 ≤ base ^ p.0 = one-le-pow p.0 base (omega arith) in omega (arith, q, p.1)),
  ),
)
is_power_of_lem (suc n) base h =
    let (m, r, (k, g)) = strip_ends (suc n) (suc n) base h (omega arith) (omega arith) in
    (
      m == 1,
      rw (nonzero n, r, is_power_of) refl,
      (
        λ e. (k, g ∙ ap (λ x. base ^ k * x) (one m e) ∙ omega arith),
        λ (j, p). one_test m (
            same m (
              sym r
              ∙ ap (λ x. strip (suc n) x base) p
              ∙ strip-power j (suc n) base h (omega (arith, p)))),
      ),
    )
  where
    nonzero : (n : ℕ) → (suc n == 0) ≡ false
    nonzero n = ground arith

    one : (m : ℕ) → (m == 1) ≡ true → m ≡ 1
    one m e = ground arith

    one_test : (m : ℕ) → m ≡ 1 → (m == 1) ≡ true
    one_test m e = ground arith

    same : (m : ℕ) → ◌≡◌ {A = Option ℕ} (some m) (some 1) → m ≡ 1
    same m e = cc
