-- ===== src/Prelude/Bits.antt =====
-- Facts about the native `bit_or` and `bit_and`, from the digits that they stand for.
use Prim.Native.Nat.{
  ℕ, zero, suc, ◌+◌, ◌*◌, ◌/◌, ◌%◌, ◌≤◌, max, min, bit_or, bit_and, digits, bit_or-bitwise,
  bit_and-bitwise,
}
use mathlib.Core.Path.{◌≡◌, refl}
use native.Mathlib.Omega.{arith}

-- More fuel than the first argument changes nothing.
module _ (z : ℕ → ℕ) (f : ℕ → ℕ → ℕ) where
  digits_enough : (n m a b : ℕ) → a ≤ n → a ≤ m → digits z f n a b ≡ digits z f m a b
  digits_enough zero zero a b p q = refl
  digits_enough zero (suc m) zero b p q = refl
  digits_enough zero (suc m) (suc a) b p q = absurd (omega arith)
  digits_enough (suc n) zero zero b p q = refl
  digits_enough (suc n) zero (suc a) b p q = absurd (omega arith)
  digits_enough (suc n) (suc m) zero b p q = refl
  digits_enough (suc n) (suc m) (suc a) b p q =
      omega (arith, digits_enough n m (suc a / 2) (b / 2) (omega arith) (omega arith))

zero-bit_or : (b : ℕ) → bit_or 0 b ≡ b
zero-bit_or b = bit_or-bitwise 0 b

-- The lowest digit, and the rest.
pub bit_or_digit : (a b : ℕ) → bit_or a b ≡ bit_or (a / 2) (b / 2) * 2 + max (a % 2) (b % 2)
bit_or_digit zero b = omega (arith, zero-bit_or b, zero-bit_or (b / 2))
bit_or_digit (suc a) b = omega (
  arith,
  bit_or-bitwise (suc a) b,
  bit_or-bitwise (suc a / 2) (b / 2),
  digits_enough (λ y. y) max a (suc a / 2) (suc a / 2) (b / 2) (omega arith) (omega arith),
)

-- A disjunction is at least each of its arguments.
bit_or_above : (n a b : ℕ) → a ≤ n → (a ≤ bit_or a b) × (b ≤ bit_or a b)
bit_or_above n zero b h = omega (arith, zero-bit_or b)
bit_or_above zero (suc a) b h = absurd (omega arith)
bit_or_above (suc n) (suc a) b h =
    let ih = bit_or_above n (suc a / 2) (b / 2) (omega arith) in
    omega (arith, bit_or_digit (suc a) b)

pub le-bit_or_left : (a b : ℕ) → a ≤ bit_or a b
le-bit_or_left a b = (bit_or_above a a b (omega arith)).0

pub le-bit_or_right : (a b : ℕ) → b ≤ bit_or a b
le-bit_or_right a b = (bit_or_above a a b (omega arith)).1

zero-bit_and : (b : ℕ) → bit_and 0 b ≡ 0
zero-bit_and b = bit_and-bitwise 0 b

bit_and_digit : (a b : ℕ) → bit_and a b ≡ bit_and (a / 2) (b / 2) * 2 + min (a % 2) (b % 2)
bit_and_digit zero b = omega (arith, zero-bit_and b, zero-bit_and (b / 2))
bit_and_digit (suc a) b = omega (
  arith,
  bit_and-bitwise (suc a) b,
  bit_and-bitwise (suc a / 2) (b / 2),
  digits_enough (λ y. 0) min a (suc a / 2) (suc a / 2) (b / 2) (omega arith) (omega arith),
)

bit_and-zero_below : (n a : ℕ) → a ≤ n → bit_and a 0 ≡ 0
bit_and-zero_below n zero h = zero-bit_and 0
bit_and-zero_below zero (suc a) h = absurd (omega arith)
bit_and-zero_below (suc n) (suc a) h =
    omega (arith, bit_and_digit (suc a) 0, bit_and-zero_below n (suc a / 2) (omega arith))

pub bit_and-zero : (a : ℕ) → bit_and a 0 ≡ 0
bit_and-zero a = bit_and-zero_below a a (omega arith)

bit_and-half_byte : (a : ℕ) → bit_and a 15 ≡ a % 16
bit_and-half_byte a = omega (
  arith,
  bit_and_digit a 15,
  bit_and_digit (a / 2) 7,
  bit_and_digit (a / 2 / 2) 3,
  bit_and_digit (a / 2 / 2 / 2) 1,
  bit_and-zero (a / 2 / 2 / 2 / 2),
)

-- The mask 0xff takes the low byte.
pub bit_and-byte : (a : ℕ) → bit_and a 255 ≡ a % 256
bit_and-byte a = omega (
  arith,
  bit_and_digit a 255,
  bit_and_digit (a / 2) 127,
  bit_and_digit (a / 2 / 2) 63,
  bit_and_digit (a / 2 / 2 / 2) 31,
  bit_and-half_byte (a / 2 / 2 / 2 / 2),
)

-- What is in a disjunction stays in it.
bit_or_keeps_below :
    (n a p q : ℕ) → a + p + q ≤ n → bit_or a q ≡ a → bit_or (bit_or a p) q ≡ bit_or a p
bit_or_keeps_below zero a p q h e =
    let a0 : a ≡ 0 = omega arith in
    let p0 : p ≡ 0 = omega arith in let q0 : q ≡ 0 = omega arith in rw (a0, p0, q0) refl
bit_or_keeps_below (suc n) a p q h e =
    let x = bit_or a p in
    let halves : a / 2 + p / 2 + q / 2 ≤ n = omega arith in
    let da = bit_or_digit a q in
    let dx = bit_or_digit a p in
    let same : bit_or (a / 2) (q / 2) ≡ a / 2 = omega (arith, da, e) in
    let half : x / 2 ≡ bit_or (a / 2) (p / 2) = omega (arith, dx) in
    let odd : x % 2 ≡ max (a % 2) (p % 2) = omega (arith, dx) in
    let ih = bit_or_keeps_below n (a / 2) (p / 2) (q / 2) halves same in
    let ih2 : bit_or (x / 2) (q / 2) ≡ x / 2 = rw half ih in
    omega (arith, bit_or_digit x q, ih2, da, e, odd)

pub bit_or_keeps : (a p q : ℕ) → bit_or a q ≡ a → bit_or (bit_or a p) q ≡ bit_or a p
bit_or_keeps a p q e = bit_or_keeps_below (a + p + q) a p q (omega arith) e

bit_or_twice_below : (n a p : ℕ) → a + p ≤ n → bit_or (bit_or a p) p ≡ bit_or a p
bit_or_twice_below zero a p h =
    let a0 : a ≡ 0 = omega arith in let p0 : p ≡ 0 = omega arith in rw (a0, p0) refl
bit_or_twice_below (suc n) a p h =
    let x = bit_or a p in
    let halves : a / 2 + p / 2 ≤ n = omega arith in
    let dx = bit_or_digit a p in
    let half : x / 2 ≡ bit_or (a / 2) (p / 2) = omega (arith, dx) in
    let odd : x % 2 ≡ max (a % 2) (p % 2) = omega (arith, dx) in
    let ih = bit_or_twice_below n (a / 2) (p / 2) halves in
    let ih2 : bit_or (x / 2) (p / 2) ≡ x / 2 = rw half ih in
    omega (arith, bit_or_digit x p, ih2, odd)

pub bit_or_twice : (a p : ℕ) → bit_or (bit_or a p) p ≡ bit_or a p
bit_or_twice a p = bit_or_twice_below (a + p) a p (omega arith)
