-- ===== src/Base/Bits.antt =====
-- The binary digits of a number, and `|` of two numbers digit by digit.
use Prim.Native.Nat.{
  ℕ, zero, suc, ◌+◌, ◌-◌, ◌*◌, ◌/◌, ◌%◌, ◌^◌, ◌≤◌, ◌<◌, max, bit_or, bit_xor, bitwise,
  bit_xor-bitwise, differ, digits, bit_or-bitwise,
}
use mathlib.Core.Path.{◌≡◌, refl, sym, ◌∙◌, subst}
use mathlib.Core.Bool.{Bool, false, ◌||◌}
use native.Mathlib.Omega.{arith}
use native.Mathlib.Nat.{le_refl, pow-suc, one-le-pow}
use hass_tplink_easy_smart.Base.Tests.{◌==◌}

-- `bool(value & (1 << k))`, for a value of zero or more: the digit that `k` halvings bring down.
unfoldable pub test_bit : ℕ → ℕ → Bool
test_bit value zero = value % 2 == 1
test_bit value (suc k) = test_bit (value / 2) k

-- The digit loop of `bitwise`, on any fuel that covers its first number.
module _ (tail : ℕ → ℕ) (op : ℕ → ℕ → ℕ) where
  digits-zero : (n b : ℕ) → digits tail op n 0 b ≡ tail b
  digits-zero zero b = refl
  digits-zero (suc n) b = refl

  digits-add : (n a b k : ℕ) → a ≤ n → digits tail op (n + k) a b ≡ digits tail op n a b
  digits-add n zero b k h = digits-zero (n + k) b ∙ sym (digits-zero n b)
  digits-add zero (suc a) b k h = absurd (omega arith)
  digits-add (suc n) (suc a) b k h =
      let shifted : suc n + k ≡ suc (n + k) = omega arith in
      rw (shifted, digits-add n (suc a / 2) (b / 2) k (omega arith))

  -- The lowest digit of the result.
  bitwise-digit :
      (a b : ℕ)
      → bitwise tail op (suc a) b ≡ 2 * bitwise tail op (suc a / 2) (b / 2) + op (suc a % 2) (b % 2)
  bitwise-digit a b =
      let spare = a - suc a / 2 in
      let total : suc a / 2 + spare ≡ a = omega arith in
      let same = digits-add (suc a / 2) (suc a / 2) (b / 2) spare (le_refl _) in
      omega (
        arith,
        subst (λ m. digits tail op m (suc a / 2) (b / 2) ≡ bitwise tail op (suc a / 2) (b / 2))
            total same,
      )

lowest_digit : (x y : ℕ) → bit_or x y ≡ 2 * bit_or (x / 2) (y / 2) + max (x % 2) (y % 2)
lowest_digit zero y = simp bit_or-bitwise (omega arith)
lowest_digit (suc x) y = simp bit_or-bitwise (bitwise-digit (λ w. w) max x y)

xor_digit : (x y : ℕ) → bit_xor x y ≡ 2 * bit_xor (x / 2) (y / 2) + differ (x % 2) (y % 2)
xor_digit zero y = simp bit_xor-bitwise (omega arith)
xor_digit (suc x) y = simp bit_xor-bitwise (bitwise-digit (λ w. w) differ x y)

differ_cases : (x y : ℕ) → x < 2 → y < 2 → (differ x y < 2) × (differ (differ x y) y ≡ x)
differ_cases zero zero h k = (omega arith, refl)
differ_cases zero (suc zero) h k = (omega arith, refl)
differ_cases (suc zero) zero h k = (omega arith, refl)
differ_cases (suc zero) (suc zero) h k = (omega arith, refl)
differ_cases zero (suc (suc y)) h k = absurd (omega arith)
differ_cases (suc zero) (suc (suc y)) h k = absurd (omega arith)
differ_cases (suc (suc x)) y h k = absurd (omega arith)

xor_cancel_below : (n a b : ℕ) → a ≤ n → b ≤ n → bit_xor (bit_xor a b) b ≡ a
xor_cancel_below zero a b p q =
    let e : a ≡ 0 = omega arith in let f : b ≡ 0 = omega arith in rw (e, f) (simp bit_xor-bitwise)
xor_cancel_below (suc n) a b p q =
    let digit = differ_cases (a % 2) (b % 2) (omega arith) (omega arith) in
    let low : bit_xor a b % 2 ≡ differ (a % 2) (b % 2) = omega (arith, xor_digit a b) in
    let high : bit_xor a b / 2 ≡ bit_xor (a / 2) (b / 2) = omega (arith, xor_digit a b) in
    let ih : bit_xor (bit_xor (a / 2) (b / 2)) (b / 2) ≡ a / 2 =
      xor_cancel_below n (a / 2) (b / 2) (omega arith) (omega arith) in
    let whole : bit_xor (bit_xor a b) b ≡ 2 * (a / 2) + a % 2 =
      xor_digit (bit_xor a b) b ∙ rw (high, low, ih, digit.1) refl in
    omega arith

-- `^` with the same number twice changes nothing.
pub bit_xor_cancel : (a b : ℕ) → bit_xor (bit_xor a b) b ≡ a
bit_xor_cancel a b = xor_cancel_below (a + b) a b (omega arith) (omega arith)

pub test_bit-bit_or : (a b k : ℕ) → test_bit (bit_or a b) k ≡ (test_bit a k || test_bit b k)
unfolding test_bit
test_bit-bit_or a b zero = ground (arith, lowest_digit a b)
test_bit-bit_or a b (suc k) =
    let half : bit_or a b / 2 ≡ bit_or (a / 2) (b / 2) = omega (arith, lowest_digit a b) in
    rw half (test_bit-bit_or (a / 2) (b / 2) k)

pub test_bit-zero : (k : ℕ) → test_bit 0 k ≡ false
unfolding test_bit
test_bit-zero zero = refl
test_bit-zero (suc k) = test_bit-zero k

pub test_bit-pow : (j k : ℕ) → test_bit (2 ^ j) k ≡ (k == j)
unfolding test_bit
test_bit-pow zero zero = refl
test_bit-pow zero (suc k) = ground (arith, test_bit-zero k)
test_bit-pow (suc j) zero = ground (arith, pow-suc 2 j)
test_bit-pow (suc j) (suc k) =
    let half : 2 ^ suc j / 2 ≡ 2 ^ j = omega (arith, pow-suc 2 j) in
    rw half (ground (arith, test_bit-pow j k))

-- A number of `n` binary digits has none above.
pub test_bit_high : (n value k : ℕ) → value < 2 ^ n → n ≤ k → test_bit value k ≡ false
unfolding test_bit
test_bit_high zero value k h le = rw (let e : value ≡ 0 = omega arith in e) (test_bit-zero k)
test_bit_high (suc n) value zero h le = absurd (omega arith)
test_bit_high (suc n) value (suc k) h le =
    test_bit_high n (value / 2) k (omega (arith, pow-suc 2 n)) (omega arith)

mod_double : (value p : ℕ) → 0 < p → value % (2 * p) ≡ 2 * (value / 2 % p) + value % 2
mod_double value p h = grind arith

-- The low `n` digits are the remainder by `2 ^ n`.
pub test_bit-mod : (n value k : ℕ) → k < n → test_bit (value % 2 ^ n) k ≡ test_bit value k
unfolding test_bit
test_bit-mod zero value k h = absurd (omega arith)
test_bit-mod (suc n) value zero h =
    ground (arith, pow-suc 2 n, one-le-pow n 2, mod_double value (2 ^ n))
test_bit-mod (suc n) value (suc k) h =
    let half : value % 2 ^ suc n / 2 ≡ value / 2 % 2 ^ n =
      ground (arith, pow-suc 2 n, one-le-pow n 2, mod_double value (2 ^ n)) in
    rw half (test_bit-mod n (value / 2) k (omega arith))

test_bit_ext_below : (n a b : ℕ) → a ≤ n → b ≤ n → ((k : ℕ) → test_bit a k ≡ test_bit b k) → a ≡ b
unfolding test_bit
test_bit_ext_below zero a b p q h = omega arith
test_bit_ext_below (suc n) a b p q h =
    let halves : a / 2 ≡ b / 2 =
      test_bit_ext_below n (a / 2) (b / 2) (omega arith) (omega arith) (λ k. h (suc k)) in
    ground (arith, h 0)

-- Numbers with the same digits are equal.
pub test_bit_ext : (a b : ℕ) → ((k : ℕ) → test_bit a k ≡ test_bit b k) → a ≡ b
test_bit_ext a b h = test_bit_ext_below (a + b) a b (omega arith) (omega arith) h
