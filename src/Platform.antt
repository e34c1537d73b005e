-- ===== src/Platform.antt =====
-- What the interpreter is linked with and the repository does not hold: the 256-bit arithmetic of
-- intx, Keccak-256 of ethash, and the host behind the ZVMC host interface.
use zvmone.Prelude.{ℕ, ◌≤◌, ◌<◌, ◌^◌, ◌+◌, ◌*◌, ◌≡◌, Bool, List, [], ◌∷◌, length, ltb, ◌==◌}
use zvmone.Prelude.Int.{ℤ, pos, ◌≤ℤ◌}
use zvmone.Uint256.{Uint256, value}
use zvmone.Zvmc.{AccessStatus, StorageStatus, Address, Bytes32, Message, CallResult, TxContext}

-- The number that bytes spell, the most significant first.
abbrev pub big_endian_from : ℕ → List ℕ → ℕ
big_endian_from acc [] = acc
big_endian_from acc (b ∷ bytes) = big_endian_from (acc * 256 + b) bytes

abbrev pub big_endian : List ℕ → ℕ
big_endian = big_endian_from 0

pub record Intx : Type 0 where
  pub add : Uint256 → Uint256 → Uint256
  pub mul : Uint256 → Uint256 → Uint256
  pub sub : Uint256 → Uint256 → Uint256
  pub udiv : Uint256 → Uint256 → Uint256
  pub umod : Uint256 → Uint256 → Uint256
  -- `sdivrem(x, y).quot` and `.rem`
  pub sdiv : Uint256 → Uint256 → Uint256
  pub srem : Uint256 → Uint256 → Uint256
  pub addmod : Uint256 → Uint256 → Uint256 → Uint256
  pub mulmod : Uint256 → Uint256 → Uint256 → Uint256
  pub exp : Uint256 → Uint256 → Uint256
  pub count_significant_bytes : Uint256 → ℕ
  -- `<`, `slt` and `==`
  pub ult : Uint256 → Uint256 → Bool
  pub slt : Uint256 → Uint256 → Bool
  pub equal : Uint256 → Uint256 → Bool
  pub and_ : Uint256 → Uint256 → Uint256
  pub or_ : Uint256 → Uint256 → Uint256
  pub xor_ : Uint256 → Uint256 → Uint256
  pub not_ : Uint256 → Uint256
  pub shl : Uint256 → Uint256 → Uint256
  pub shr : Uint256 → Uint256 → Uint256
  -- `x << n` and `x >> n` with a 64-bit count
  pub shl_by : Uint256 → ℕ → Uint256
  pub shr_by : Uint256 → ℕ → Uint256
  -- the conversion of an int64_t
  pub of_int64 : ℤ → Uint256
  -- `be::unsafe::load` of a uint16_t, uint32_t or uint64_t
  pub be_load_uint : List ℕ → ℕ
  -- `be::load<uint256>`, `be::store<bytes32>` and `be::trunc<address>`
  pub be_load : List ℕ → Uint256
  pub be_store : Uint256 → Bytes32
  -- `be::store` of a uint64_t to 8 bytes
  pub be_store_uint64 : ℕ → List ℕ
  pub be_trunc : Uint256 → Address

-- The functions of the ZVMC host interface, over the state `H` of the host.
pub record HostInterface (H : Type 0) : Type 0 where
  pub account_exists : H → Address → Bool
  pub get_storage : H → Address → Bytes32 → Bytes32
  pub set_storage : H → Address → Bytes32 → Bytes32 → StorageStatus × H
  pub get_balance : H → Address → Bytes32
  pub get_code_size : H → Address → ℕ
  pub get_code_hash : H → Address → Bytes32
  -- the bytes that `copy_code(addr, offset, buffer, size)` writes
  pub copy_code : H → Address → ℕ → ℕ → List ℕ
  pub call : H → Message → CallResult × H
  pub get_tx_context : H → TxContext
  pub get_block_hash : H → ℤ → Bytes32
  pub emit_log : H → Address → List ℕ → List Bytes32 → H
  pub access_account : H → Address → AccessStatus × H
  pub access_storage : H → Address → Bytes32 → AccessStatus × H

pub record Platform (H : Type 0) : Type 0 where
  pub intx : Intx
  pub keccak256 : List ℕ → Bytes32
  pub host : HostInterface H

-- What the interpreter relies on: the comparison and the conversions are those of numbers, a word
-- has 32 bytes, the host writes no more code than there is room for, a call gives back at most the gas
-- that it was given, and what it returns fits the address space.
pub record IsPlatform {H : Type 0} (p : Platform H) : Type 0 where
  pub ult_value : (x y : Uint256) → p.intx.ult x y ≡ ltb (value x) (value y)
  pub equal_value : (x y : Uint256) → p.intx.equal x y ≡ (value x == value y)
  pub of_int64_value : (n : ℕ) → n < 2 ^ 63 → value (p.intx.of_int64 (pos n)) ≡ n
  pub be_store_length : (x : Uint256) → length (p.intx.be_store x) ≡ 32
  pub be_load_uint_value :
      (bytes : List ℕ) → length bytes ≤ 8 → p.intx.be_load_uint bytes ≡ big_endian bytes
  pub copy_code_length :
      (h : H) (a : Address) (offset n : ℕ) → length (p.host.copy_code h a offset n) ≤ n
  pub call_gas :
      (h : H) (m : Message)
      → pos 0 ≤ℤ m.gas
      → (pos 0 ≤ℤ (p.host.call h m).0.gas_left) × ((p.host.call h m).0.gas_left ≤ℤ m.gas)
  pub call_output : (h : H) (m : Message) → length (p.host.call h m).0.output < 2 ^ 63
