-- ===== src/Uint256.antt =====
-- The 256-bit word of lib/zvmone/execution_state.hpp (`uint256`): four little-endian 64-bit words.
use zvmone.Prelude.{ℕ, zero, suc, ◌+◌, ◌*◌, ◌/◌, ◌%◌, ◌^◌, ◌<◌, ◌≡◌, arith}

pub record Uint256 : Type 0 where
  pub w0 : ℕ
  pub w1 : ℕ
  pub w2 : ℕ
  pub w3 : ℕ

-- A value of the type: each of its words is a uint64_t.
pub record IsUint256 (x : Uint256) : Type 0 where
  pub fits0 : x.w0 < 2 ^ 64
  pub fits1 : x.w1 < 2 ^ 64
  pub fits2 : x.w2 < 2 ^ 64
  pub fits3 : x.w3 < 2 ^ 64

abbrev pub value : Uint256 → ℕ
value x = x.w0 + 2 ^ 64 * x.w1 + 2 ^ 128 * x.w2 + 2 ^ 192 * x.w3

abbrev pub of_uint64 : ℕ → Uint256
of_uint64 n = record { w0 = n; w1 = 0; w2 = 0; w3 = 0 }

abbrev pub of_value : ℕ → Uint256
of_value n = record {
  w0 = n % 2 ^ 64;
  w1 = n / 2 ^ 64 % 2 ^ 64;
  w2 = n / 2 ^ 128 % 2 ^ 64;
  w3 = n / 2 ^ 192 % 2 ^ 64;
}

pub value-lt : (x : Uint256) → IsUint256 x → value x < 2 ^ 256
value-lt x h = omega arith

pub of_value-IsUint256 : (n : ℕ) → IsUint256 (of_value n)
of_value-IsUint256 n = omega arith

pub value-of_value : (n : ℕ) → n < 2 ^ 256 → value (of_value n) ≡ n
value-of_value n h = omega arith

pub value-of_value_mod : (n : ℕ) → value (of_value n) ≡ n % 2 ^ 256
value-of_value_mod n = omega arith

-- `x[i]`, read and written. An index past the last word is none.
abbrev pub word : Uint256 → ℕ → ℕ
word x zero = x.w0
word x (suc zero) = x.w1
word x (suc (suc zero)) = x.w2
word x (suc (suc (suc zero))) = x.w3
word x _ = 0

abbrev pub set_word : Uint256 → ℕ → ℕ → Uint256
set_word x zero v = record x { w0 = v }
set_word x (suc zero) v = record x { w1 = v }
set_word x (suc (suc zero)) v = record x { w2 = v }
set_word x (suc (suc (suc zero))) v = record x { w3 = v }
set_word x _ v = x
