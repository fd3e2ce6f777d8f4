-- ===== src/Bits.antt =====
-- `&`, `|` and `^` as arithmetic, at every width: a mask of low bits is a remainder, `|` of
-- disjoint fields is a sum, and `^` by the same word undoes itself.
mod Step
use Step.{bit_and_step, bit_or_step, bit_xor_step, differ_self_inverse, differ-lt, differ_comm}
use Step.{zero-bit_or, zero-bit_xor}
use Prim.Native.Nat.{differ}
use mathlib.Core.WellFounded
use native.Mathlib.Nat.{pow-suc, one-le-pow, mul-add-mod_self_left, mod-eq_of_lt, mod-lt}
use native.Mathlib.Nat.{div-add-mod, div-div-eq-div-mul}
use zip.Prelude.{
  ℕ, zero, suc, ◌+◌, ◌-◌, ◌*◌, ◌/◌, ◌%◌, ◌^◌, ◌≤◌, ◌<◌, min, max, bit_and, bit_or, bit_xor, ◌≡◌,
  refl, sym, ap, ◌∙◌, arith, lt_wf,
}

-- A number is reached from 0 by doubling and adding a digit, so a property of half of a number
-- need only go on to the number.
by_halves : (P : ℕ → Type 0) → P 0 → ((n : ℕ) → P (suc n / 2) → P (suc n)) → (a : ℕ) → P a
by_halves P at_zero doubled a = WellFounded.induction lt_wf a next
  where
    next : (n : ℕ) → ((m : ℕ) → m < n → P m) → P n
    next zero below = at_zero
    next (suc n) below = doubled n (below (suc n / 2) (omega arith))

bit_or-zero : (a : ℕ) → bit_or a 0 ≡ a
bit_or-zero =
    by_halves (λ n. bit_or n 0 ≡ n) refl (λ n half. omega (arith, half, bit_or_step (suc n) 0))

bit_and-zero : (a : ℕ) → bit_and a 0 ≡ 0
bit_and-zero =
    by_halves (λ n. bit_and n 0 ≡ 0) refl (λ n half. omega (arith, half, bit_and_step (suc n) 0))

double_pow : (q k : ℕ) → q * 2 ^ suc k ≡ 2 * (q * 2 ^ k)
double_pow q k = omega (ap (λ (power : ℕ). q * power) (pow-suc 2 k), arith)

-- `(q << k) | r` is a sum when `r` fits `k` bits.
pub bit_or-shifted : (k q r : ℕ) → r < 2 ^ k → bit_or (q * 2 ^ k) r ≡ q * 2 ^ k + r
bit_or-shifted zero q r fits = ground (arith, bit_or-zero q)
bit_or-shifted (suc k) q r fits =
    let half = bit_or-shifted k q (r / 2) (omega arith) in
    ground (arith, half, double_pow q k, bit_or_step (q * 2 ^ suc k) r)

pub bit_or_comm : (a b : ℕ) → bit_or a b ≡ bit_or b a
bit_or_comm =
    by_halves (λ n. (b : ℕ) → bit_or n b ≡ bit_or b n)
      (λ b. omega (arith, bit_or-zero b, zero-bit_or b))
      (λ n half b. omega (arith, half (b / 2), bit_or_step (suc n) b, bit_or_step b (suc n)))

bit_and_odd : (a m : ℕ) → bit_and a (2 * m + 1) ≡ 2 * bit_and (a / 2) m + a % 2
bit_and_odd a m = rw halves at (bit_and_step a (2 * m + 1)) ∙ omega arith
  where
    halves : (2 * m + 1) / 2 ≡ m
    halves = omega arith

bit_and_even : (a m : ℕ) → bit_and a (2 * m) ≡ 2 * bit_and (a / 2) m
bit_and_even a m = rw halves at (bit_and_step a (2 * m)) ∙ omega arith
  where
    halves : (2 * m) / 2 ≡ m
    halves = omega arith

mod-double : (a p : ℕ) → 0 < p → a % (2 * p) ≡ 2 * (a / 2 % p) + a % 2
mod-double a p pos =
    ap (λ (t : ℕ). t % (2 * p)) split
    ∙ mul-add-mod_self_left (2 * p) (a / 2 / p) (2 * (a / 2 % p) + a % 2)
    ∙ mod-eq_of_lt (omega (arith, mod-lt (a / 2) pos))
  where
    split : a ≡ 2 * p * (a / 2 / p) + (2 * (a / 2 % p) + a % 2)
    split = omega (arith, div-add-mod (a / 2) p)

-- A mask of `k` low bits is the remainder by `2 ^ k`.
pub bit_and-low : (k a : ℕ) → bit_and a (2 ^ k - 1) ≡ a % 2 ^ k
bit_and-low zero a = omega (arith, bit_and-zero a)
bit_and-low (suc k) a =
    ap (bit_and a) mask
    ∙ bit_and_odd a (2 ^ k - 1)
    ∙ ap (λ (t : ℕ). 2 * t + a % 2) (bit_and-low k (a / 2))
    ∙ sym (mod-double a (2 ^ k) (one-le-pow k 2 (omega arith)))
    ∙ ap (λ (t : ℕ). a % t) (omega (arith, pow-suc 2 k))
  where
    mask : 2 ^ suc k - 1 ≡ 2 * (2 ^ k - 1) + 1
    mask = omega (arith, pow-suc 2 k, one-le-pow k 2)

-- A mask `m << k` looks at the bits from `k` on.
pub bit_and-shifted : (k a m : ℕ) → bit_and a (m * 2 ^ k) ≡ bit_and (a / 2 ^ k) m * 2 ^ k
bit_and-shifted zero a m = rw (times_one m, by_one a) (omega arith)
  where
    times_one : (n : ℕ) → n * 2 ^ 0 ≡ n
    times_one n = omega arith

    by_one : (n : ℕ) → n / 2 ^ 0 ≡ n
    by_one n = omega arith
bit_and-shifted (suc k) a m =
    ap (bit_and a) (double_pow m k)
    ∙ bit_and_even a (m * 2 ^ k)
    ∙ ap (λ (t : ℕ). 2 * t) (bit_and-shifted k (a / 2) m)
    ∙ ap (λ (t : ℕ). 2 * (bit_and t m * 2 ^ k)) same_quotient
    ∙ sym (double_pow (bit_and (a / 2 ^ suc k) m) k)
  where
    same_quotient : a / 2 / 2 ^ k ≡ a / 2 ^ suc k
    same_quotient =
        div-div-eq-div-mul a 2 (2 ^ k) ∙ ap (λ (t : ℕ). a / t) (omega (arith, pow-suc 2 k))

bit_xor-zero : (a : ℕ) → bit_xor a 0 ≡ a
bit_xor-zero =
    by_halves (λ n. bit_xor n 0 ≡ n) refl
      (λ n half. omega (
        arith,
        half,
        bit_xor_step (suc n) 0,
        differ_comm (suc n % 2) 0 (omega arith) (omega arith),
        zero_differ (suc n % 2),
      ))
  where
    zero_differ : (x : ℕ) → differ 0 x ≡ x
    zero_differ x = refl

pub bit_xor_comm : (a b : ℕ) → bit_xor a b ≡ bit_xor b a
bit_xor_comm =
    by_halves (λ n. (b : ℕ) → bit_xor n b ≡ bit_xor b n)
      (λ b. omega (arith, bit_xor-zero b, zero-bit_xor b))
      (λ n half b. omega (
        arith,
        half (b / 2),
        bit_xor_step (suc n) b,
        bit_xor_step b (suc n),
        differ_comm (suc n % 2) (b % 2) (omega arith) (omega arith),
      ))

-- `x ^ (x ^ y)` is `y`.
pub bit_xor_self_inverse : (a b : ℕ) → bit_xor a (bit_xor a b) ≡ b
bit_xor_self_inverse =
    by_halves (λ n. (b : ℕ) → bit_xor n (bit_xor n b) ≡ b)
      (λ b. omega (arith, zero-bit_xor (bit_xor 0 b), zero-bit_xor b))
      (λ n half b. digitwise n b (half (b / 2)))
  where
    digitwise :
        (n b : ℕ)
        → bit_xor (suc n / 2) (bit_xor (suc n / 2) (b / 2)) ≡ b / 2
        → bit_xor (suc n) (bit_xor (suc n) b) ≡ b
    digitwise n b half = omega (
      arith,
      half,
      bit_xor_step (suc n) (bit_xor (suc n) b),
      ap (bit_xor (suc n / 2)) halves,
      ap (differ (suc n % 2)) digit,
      differ_self_inverse (suc n % 2) (b % 2) (omega arith) (omega arith),
    )
      where
        low : differ (suc n % 2) (b % 2) < 2
        low = differ-lt (suc n % 2) (b % 2) (omega arith) (omega arith)

        halves : bit_xor (suc n) b / 2 ≡ bit_xor (suc n / 2) (b / 2)
        halves = omega (arith, bit_xor_step (suc n) b, low)

        digit : bit_xor (suc n) b % 2 ≡ differ (suc n % 2) (b % 2)
        digit = omega (arith, bit_xor_step (suc n) b, low)

-- `^` of two words of `k` bits has `k` bits.
pub bit_xor-lt : (k a b : ℕ) → a < 2 ^ k → b < 2 ^ k → bit_xor a b < 2 ^ k
bit_xor-lt zero zero b ha hb = omega (arith, zero-bit_xor b)
bit_xor-lt zero (suc a) b ha hb = absurd (omega arith)
bit_xor-lt (suc k) a b ha hb = ground (
  arith,
  bit_xor_step a b,
  pow-suc 2 k,
  differ-lt (a % 2) (b % 2) (omega arith) (omega arith),
  bit_xor-lt k (a / 2) (b / 2) (omega arith) (omega arith),
)
