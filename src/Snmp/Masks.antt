-- ===== src/Snmp/Masks.antt =====
-- Masks of consecutive ones, as src/snmp uses them to split a counter into two halves.
use Prim.Native.Nat.{digits, min, two}
use native.Mathlib.Nat.{
  mul-add-mod_self_left, mod-eq_of_lt, div-add-mod, mod-lt, zero-mod, mod-one, pow-zero, zero-div,
  div-div-eq-div-mul, one-le-pow, pow-succ', mul_assoc, mul_comm, mul-one, div-one, zero-mul,
}
use ops_intfd.Prelude.{
  ℕ, zero, suc, ◌+◌, ◌-◌, ◌*◌, ◌/◌, ◌%◌, ◌^◌, ◌≤◌, ◌<◌, ◌≡◌, refl, sym, ap, ◌∙◌, arith,
}

-- The and of the binary digits, by the digits of the first number.
abbrev pub masked : ℕ → ℕ → ℕ → ℕ
masked n a b = digits (λ b. zero) min n a b

masked_zero : (n a : ℕ) → masked n a 0 ≡ 0
masked_zero zero a = refl
masked_zero (suc n) zero = refl
masked_zero (suc n) (suc a) = rw (masked_zero n (suc a / two)) (omega arith)

pow_pos : (k : ℕ) → 1 ≤ 2 ^ k
pow_pos k = one-le-pow k 2 (omega arith)

whole_lem : (p q r y d x : ℕ) → p * q + r ≡ y → 2 * y + d ≡ x → 2 * p * q + (r * 2 + d) ≡ x
whole_lem p q r y d x h k = rw (mul_assoc 2 p q) (omega (arith, h, k))

-- The last digit, and the others.
mod_double : (x p : ℕ) → 1 ≤ p → (x / 2 % p) * 2 + x % 2 ≡ x % (2 * p)
mod_double x p h =
    let r = (x / 2 % p) * 2 + x % 2 in
    let below : r < 2 * p = omega (arith, mod-lt (x / 2) {m = p} h) in
    let whole : 2 * p * (x / 2 / p) + r ≡ x =
      whole_lem p (x / 2 / p) (x / 2 % p) (x / 2) (x % 2) x (div-add-mod (x / 2) p) (omega arith) in
    sym (mod-eq_of_lt below)
    ∙ sym (mul-add-mod_self_left (2 * p) (x / 2 / p) r)
    ∙ ap (λ y. y % (2 * p)) whole

min_bit : (x : ℕ) → min (x % 2) 1 ≡ x % 2
min_bit x = omega arith

-- The bits below the mask of k ones.
pub low_mask : (k n a : ℕ) → a ≤ n → masked n a (2 ^ k - 1) ≡ a % 2 ^ k
low_mask k zero zero h = sym (zero-mod (2 ^ k))
low_mask k zero (suc a) h = absurd (omega arith)
low_mask k (suc n) zero h = sym (zero-mod (2 ^ k))
low_mask zero (suc n) (suc a) h = masked_zero (suc n) (suc a) ∙ sym (mod-one (suc a))
low_mask (suc k) (suc n) (suc a) h =
    let p = 2 ^ k in
    let one = pow_pos k in
    let double : 2 ^ suc k ≡ 2 * p = pow-succ' 2 k in
    let half : (2 * p - 1) / two ≡ p - 1 = omega (arith, one) in
    let odd : (2 * p - 1) % two ≡ 1 = omega (arith, one) in
    rw (double, half, odd, low_mask k n (suc a / two) (omega arith))
      (ap (λ d. suc a / 2 % p * 2 + d) (min_bit (suc a)) ∙ mod_double (suc a) p one)

double_lem : (m p : ℕ) → m * (2 * p) ≡ 2 * (m * p)
double_lem m p = sym (mul_assoc m 2 p) ∙ ap (λ x. x * p) (mul_comm m 2) ∙ mul_assoc 2 m p

rest_lem : (x p m q : ℕ) → q ≡ 2 * p → x / 2 / p % m * p * 2 + min (x % 2) 0 ≡ x / q % m * q
rest_lem x p m q e =
    rw (e, sym (div-div-eq-div-mul x 2 p), double_lem (x / 2 / p % m) p) (omega arith)

-- The bits of the mask of k ones above j zeros.
pub high_mask :
    (j k n a : ℕ) → a ≤ n → masked n a ((2 ^ k - 1) * 2 ^ j) ≡ (a / 2 ^ j % 2 ^ k) * 2 ^ j
high_mask zero k n a h =
    rw (pow-zero 2, mul-one (2 ^ k - 1), div-one a, mul-one (a % 2 ^ k)) (low_mask k n a h)
high_mask (suc j) k zero zero h =
    rw (zero-div (2 ^ suc j), zero-mod (2 ^ k)) (sym (zero-mul (2 ^ suc j)))
high_mask (suc j) k zero (suc a) h = absurd (omega arith)
high_mask (suc j) k (suc n) zero h =
    rw (zero-div (2 ^ suc j), zero-mod (2 ^ k)) (sym (zero-mul (2 ^ suc j)))
high_mask (suc j) k (suc n) (suc a) h =
    let m = (2 ^ k - 1) * 2 ^ j in
    let double : (2 ^ k - 1) * 2 ^ suc j ≡ 2 * m =
      ap (λ p. (2 ^ k - 1) * p) (pow-succ' 2 j) ∙ double_lem (2 ^ k - 1) (2 ^ j) in
    let half : 2 * m / two ≡ m = omega arith in
    let even : 2 * m % two ≡ 0 = omega arith in
    rw (double, half, even, high_mask j k n (suc a / two) (omega arith))
      (rest_lem (suc a) (2 ^ j) (2 ^ k) (2 ^ suc j) (pow-succ' 2 j))
