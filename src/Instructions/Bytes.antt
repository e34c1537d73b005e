-- ===== src/Instructions/Bytes.antt =====
-- The byte that BYTE takes, as a part of a number.
use zvmone.Prelude.{
  ℕ, ◌∙◌, ap, zero, suc, ◌+◌, ◌-◌, ◌*◌, ◌/◌, ◌%◌, ◌^◌, ◌<◌, ◌≡◌, refl, true, List, ◌∷◌, arith, inl,
  inr, Bool-cases, ltb, if◌then◌else◌,
}
use native.Mathlib.Nat.{div-div-eq-div-mul, pow-suc}
use zvmone.Prelude.Bits.{bit_and-byte, bit_and-zero}
use zvmone.Uint256.{Uint256, IsUint256, of_uint64, value, word}
use zvmone.Platform.{Platform, IsPlatform}
use zvmone.Exec.{Frame, ok, with_stack}
use zvmone.Instructions.Bitwise.{byte, byte_at}

-- The byte `r` of the low word, with any number of words above.
byte_of_word :
    (r w above : ℕ) → r < 8 → w / 2 ^ (r * 8) % 256 ≡ (w + 2 ^ 64 * above) / 2 ^ (r * 8) % 256
byte_of_word zero w above h = omega arith
byte_of_word (suc zero) w above h = omega arith
byte_of_word (suc (suc zero)) w above h = omega arith
byte_of_word (suc (suc (suc zero))) w above h = omega arith
byte_of_word (suc (suc (suc (suc zero)))) w above h = omega arith
byte_of_word (suc (suc (suc (suc (suc zero))))) w above h = omega arith
byte_of_word (suc (suc (suc (suc (suc (suc zero)))))) w above h = omega arith
byte_of_word (suc (suc (suc (suc (suc (suc (suc zero))))))) w above h = omega arith
byte_of_word (suc (suc (suc (suc (suc (suc (suc (suc r)))))))) w above h = absurd (omega arith)

word_value :
    (q r : ℕ) (x : Uint256)
    → IsUint256 x
    → q < 4
    → r < 8
    → word x q / 2 ^ (r * 8) % 256 ≡ value x / 2 ^ (64 * q) / 2 ^ (r * 8) % 256
word_value zero r x v h k =
    let above = x.w1 + 2 ^ 64 * x.w2 + 2 ^ 128 * x.w3 in
    let e : value x / 2 ^ (64 * 0) ≡ x.w0 + 2 ^ 64 * above = omega arith in
    rw e (byte_of_word r x.w0 above k)
word_value (suc zero) r x v h k =
    let above = x.w2 + 2 ^ 64 * x.w3 in
    let e : value x / 2 ^ (64 * 1) ≡ x.w1 + 2 ^ 64 * above = omega arith in
    rw e (byte_of_word r x.w1 above k)
word_value (suc (suc zero)) r x v h k =
    let e : value x / 2 ^ (64 * 2) ≡ x.w2 + 2 ^ 64 * x.w3 = omega arith in
    rw e (byte_of_word r x.w2 x.w3 k)
word_value (suc (suc (suc zero))) r x v h k =
    let e : value x / 2 ^ (64 * 3) ≡ x.w3 + 2 ^ 64 * 0 = omega arith in
    rw e (byte_of_word r x.w3 0 k)
word_value (suc (suc (suc (suc q)))) r x v h k = absurd (omega arith)

-- The byte `m` of a 256-bit number, 0 for the most significant.
abbrev pub byte_number : ℕ → ℕ → ℕ
byte_number x m = if ltb m 32 then x / 2 ^ (8 * (31 - m)) % 256 else 0

pow_sum : (a b : ℕ) → 2 ^ (a + b) ≡ 2 ^ a * 2 ^ b
pow_sum a zero = let e : a + 0 ≡ a = omega arith in rw e (omega arith)
pow_sum a (suc b) =
    let e : a + suc b ≡ suc (a + b) = omega arith in
    rw (e, pow-suc 2 (a + b), pow-suc 2 b, pow_sum a b) (grind arith)

shift_twice : (x q r : ℕ) → x / 2 ^ (64 * q) / 2 ^ (r * 8) ≡ x / 2 ^ (8 * (8 * q + r))
shift_twice x q r =
    let e : 8 * (8 * q + r) ≡ 64 * q + r * 8 = omega arith in
    div-div-eq-div-mul x (2 ^ (64 * q)) (2 ^ (r * 8)) ∙ rw (e, pow_sum (64 * q) (r * 8)) refl

byte_at-inside :
    (m : ℕ) (x : Uint256)
    → IsUint256 x
    → m < 32
    → byte_at true m x ≡ value x / 2 ^ (8 * (31 - m)) % 256
unfolding byte_at
byte_at-inside m x v h =
    let q = (31 - m % 32) / 8 in
    let r = (31 - m % 32) % 8 in
    let e : 8 * q + r ≡ 31 - m = omega arith in
    bit_and-byte (word x q / 2 ^ (r * 8))
    ∙ word_value q r x v (omega arith) (omega arith)
    ∙ rw (shift_twice (value x) q r, e) refl

byte_at_lem :
    (n x : Uint256)
    → IsUint256 x
    → byte_at (ltb (value n) 32) n.w0 x ≡ byte_number (value x) (value n)
unfolding byte_at
byte_at_lem n x v = elim (Bool-cases (ltb (value n) 32)) [
  | inl inside ↦
      let low : n.w0 ≡ value n = ground arith in
      let here = ap (λ m. byte_at true m x) low ∙ byte_at-inside (value n) x v (ground arith) in
      rw inside here
  | inr outside ↦ rw (outside, bit_and-zero) refl
]

module _ {H : Type 0} (p : Platform H) (w : IsPlatform p) where
  -- For a platform that compares as numbers and a word of 64-bit parts, BYTE replaces its two
  -- operands by the byte of the second that the first one counts from the most significant, as a
  -- number, and by 0 from 32 on. It changes nothing else.
  pub byte-byte_number :
      (n x : Uint256) (s : List Uint256) (f : Frame H)
      → IsUint256 x
      → byte p (with_stack (n ∷ x ∷ s) f)
        ≡ ok tt (with_stack (of_uint64 (byte_number (value x) (value n)) ∷ s) f)
  unfolding byte
  byte-byte_number n x s f v = rw (w.ult_value n (of_uint64 32), byte_at_lem n x v) refl
