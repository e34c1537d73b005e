-- ===== src/Zvmc.antt =====
-- The types of the ZVMC interface (zvmc/zvmc.h, outside the repository) that the source uses.
use zvmone.Prelude.{ℕ, Bool, true, false, List}
use zvmone.Prelude.Int.{ℤ}

pub data StatusCode : Type 0 where
  success failure revert out_of_gas invalid_instruction undefined_instruction : StatusCode
  stack_overflow stack_underflow bad_jump_destination invalid_memory_access : StatusCode
  static_mode_violation contract_validation_failure precompile_failure internal_error : StatusCode

abbrev pub is_success : StatusCode → Bool
is_success success = true
is_success _ = false

abbrev pub is_revert : StatusCode → Bool
is_revert revert = true
is_revert _ = false

pub data AccessStatus : Type 0 where
  cold warm : AccessStatus

pub data StorageStatus : Type 0 where
  assigned added deleted modified deleted_added modified_deleted : StorageStatus
  deleted_restored added_deleted modified_restored : StorageStatus

pub data CallKind : Type 0 where
  call delegatecall create create2 : CallKind

-- A 20-byte address and a 32-byte word, as their bytes.
abbrev pub Address : Type 0
Address = List ℕ

abbrev pub Bytes32 : Type 0
Bytes32 = List ℕ

-- `is_static` tells whether `flags` has ZVMC_STATIC, the one flag. `input` is `input_data` with `input_size`.
pub record Message : Type 0 where
  pub kind : CallKind
  pub is_static : Bool
  pub depth : ℕ
  pub gas : ℤ
  pub recipient : Address
  pub sender : Address
  pub input : List ℕ
  pub value : Bytes32
  pub create2_salt : Bytes32
  pub code_address : Address

pub record CallResult : Type 0 where
  pub status_code : StatusCode
  pub gas_left : ℤ
  pub gas_refund : ℤ
  pub output : List ℕ
  pub create_address : Address

pub record TxContext : Type 0 where
  pub tx_gas_price : Bytes32
  pub tx_origin : Address
  pub block_coinbase : Address
  pub block_number : ℤ
  pub block_timestamp : ℤ
  pub block_gas_limit : ℤ
  pub block_prev_randao : Bytes32
  pub chain_id : Bytes32
  pub block_base_fee : Bytes32
