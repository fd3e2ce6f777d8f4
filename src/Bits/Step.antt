-- ===== src/Bits/Step.antt =====
-- The lowest digit of `&`, `|` and `^`: the native operations recur on binary digits with fuel,
-- and here the fuel is dropped.
use Prim.Native.Nat.{digits, differ, bitwise, bit_and-bitwise, bit_or-bitwise, bit_xor-bitwise}
use zip.Prelude.{
  ℕ, zero, suc, ◌+◌, ◌*◌, ◌/◌, ◌%◌, ◌≤◌, ◌<◌, min, max, bit_and, bit_or, bit_xor, ◌≡◌, refl, arith,
}

module _ (rest : ℕ → ℕ) (digit : ℕ → ℕ → ℕ) where
  -- Fuel above the first number changes nothing.
  enough_fuel : (a b n m : ℕ) → a ≤ m → a ≤ n → digits rest digit m a b ≡ digits rest digit n a b
  enough_fuel zero b zero zero p q = refl
  enough_fuel zero b zero (suc m) p q = refl
  enough_fuel zero b (suc n) zero p q = refl
  enough_fuel zero b (suc n) (suc m) p q = refl
  enough_fuel (suc a) b zero m p q = absurd (omega arith)
  enough_fuel (suc a) b (suc n) zero p q = absurd (omega arith)
  enough_fuel (suc a) b (suc n) (suc m) p q =
      rw (enough_fuel (suc a / 2) (b / 2) n m (omega arith) (omega arith))

  lowest_digit :
      (a b : ℕ)
      → bitwise rest digit (suc a) b
        ≡ bitwise rest digit (suc a / 2) (b / 2) * 2 + digit (suc a % 2) (b % 2)
  lowest_digit a b =
      omega (enough_fuel (suc a / 2) (b / 2) (suc a / 2) a (omega arith) (omega arith), arith)

pub bit_and_step : (x y : ℕ) → bit_and x y ≡ bit_and (x / 2) (y / 2) * 2 + min (x % 2) (y % 2)
bit_and_step zero y = simp bit_and-bitwise (omega arith)
bit_and_step (suc x) y = simp bit_and-bitwise (lowest_digit (λ r. 0) min x y)

pub bit_xor_step : (x y : ℕ) → bit_xor x y ≡ bit_xor (x / 2) (y / 2) * 2 + differ (x % 2) (y % 2)
bit_xor_step zero y = simp bit_xor-bitwise (omega arith)
bit_xor_step (suc x) y = simp bit_xor-bitwise (lowest_digit (λ r. r) differ x y)

pub bit_or_step : (x y : ℕ) → bit_or x y ≡ bit_or (x / 2) (y / 2) * 2 + max (x % 2) (y % 2)
bit_or_step zero y = simp bit_or-bitwise (omega arith)
bit_or_step (suc x) y = simp bit_or-bitwise (lowest_digit (λ r. r) max x y)

-- `^` on one digit undoes itself and gives a digit.
pub differ_self_inverse : (x y : ℕ) → x < 2 → y < 2 → differ x (differ x y) ≡ y
differ_self_inverse zero y h k = refl
differ_self_inverse (suc zero) zero h k = refl
differ_self_inverse (suc zero) (suc zero) h k = refl
differ_self_inverse (suc zero) (suc (suc y)) h k = absurd (omega arith)
differ_self_inverse (suc (suc x)) y h k = absurd (omega arith)

pub differ_comm : (x y : ℕ) → x < 2 → y < 2 → differ x y ≡ differ y x
differ_comm zero zero h k = refl
differ_comm zero (suc zero) h k = refl
differ_comm zero (suc (suc y)) h k = absurd (omega arith)
differ_comm (suc zero) zero h k = refl
differ_comm (suc zero) (suc zero) h k = refl
differ_comm (suc zero) (suc (suc y)) h k = absurd (omega arith)
differ_comm (suc (suc x)) y h k = absurd (omega arith)

pub differ-lt : (x y : ℕ) → x < 2 → y < 2 → differ x y < 2
differ-lt zero y h k = k
differ-lt (suc zero) zero h k = h
differ-lt (suc zero) (suc y) h k = omega arith
differ-lt (suc (suc x)) y h k = absurd (omega arith)

-- What each operation gives when the first word is 0.
pub zero-bit_or : (b : ℕ) → bit_or 0 b ≡ b
zero-bit_or b = bit_or-bitwise 0 b

pub zero-bit_xor : (b : ℕ) → bit_xor 0 b ≡ b
zero-bit_xor b = bit_xor-bitwise 0 b
