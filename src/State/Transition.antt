-- ===== src/State/Transition.antt =====
-- Transactions of test/state/state.hpp and test/state/state.cpp: their validation and the transition
-- that they make. Costs and gas amounts do not overflow an int64_t for data that fits into the memory.
pub mod Validation
pub mod Apply
pub mod Funds
pub mod Preparation
pub mod Receipt
pub mod Encoding
use zvmone.Prelude.{
  ℕ, ◌+◌, ◌-◌, ◌*◌, ◌/◌, ◌%◌, ◌^◌, min, Bool, true, false, ◌&&◌, Option, none, some, List, [], ◌∷◌,
  ◌++◌, map, length, ltb, leb, ◌==◌, if◌then◌else◌, replicate,
}
use zvmone.Prelude.Int.{ℤ, pos, negsuc, ◌+ℤ◌, ◌-ℤ◌, ltb_ℤ, min_ℤ, pos_part, neg_part}
use zvmone.Uint256.{Uint256, of_uint64, value}
use zvmone.Zvmc.{
  StatusCode, is_success, warm, call, create, Address, Bytes32, Message, CallResult, TxContext,
}
use zvmone.Platform.{Intx}
use zvmone.State.Maps.{Map, lookup, update, erase_if}
use zvmone.State.Accounts.{
  Account, Accounts, StorageValue, nonce_max, zero_bytes32, is_empty, touch,
}
use zvmone.State.Bloom.{BloomFilter}
use zvmone.State.Host.{
  HostState, HostEnv, Log, max_code_size, with_accounts, change, slot, ◌>>=◌, access_account,
}
use zvmone.State.Host.Calls.{host_call}

pub record Withdrawal : Type 0 where
  pub withdrawal_recipient : Address
  pub amount_in_gplanck : ℕ

pub record BlockInfo : Type 0 where
  pub number : ℤ
  pub timestamp : ℤ
  pub block_gas_limit : ℤ
  pub coinbase : Address
  pub prev_randao : Bytes32
  pub base_fee : ℕ

abbrev pub AccessList : Type 0
AccessList = List (Address × List Bytes32)

-- `Transaction::Kind`
pub data TxKind : Type 0 where
  eip1559 : TxKind

pub record Transaction : Type 0 where
  pub tx_kind : TxKind
  pub tx_input : List ℕ
  pub gas_limit : ℤ
  pub max_gas_price : Uint256
  pub max_priority_gas_price : Uint256
  pub tx_sender : Address
  pub to : Option Address
  pub tx_value : Uint256
  pub access_list : AccessList
  pub tx_chain_id : ℕ
  pub tx_nonce : ℕ
  pub public_key : List ℕ
  pub signature : List ℕ

pub record TransactionReceipt : Type 0 where
  pub receipt_kind : TxKind
  pub receipt_status : StatusCode
  pub gas_used : ℤ
  pub receipt_logs : List Log
  pub logs_bloom_filter : BloomFilter

pub data ErrorCode : Type 0 where
  tip_gt_fee_cap gas_limit_reached fee_cap_less_then_blocks sender_not_eoa : ErrorCode
  nonce_has_max_value init_code_size_limit_exceeded insufficient_funds : ErrorCode
  intrinsic_gas_too_low : ErrorCode

pub data Validated : Type 0 where
  rejected : ErrorCode → Validated
  accepted : ℤ → Validated

abbrev pub num_words : ℕ → ℕ
num_words size_in_bytes = (size_in_bytes + 31) / 32

abbrev pub compute_tx_data_cost : List ℕ → ℕ
compute_tx_data_cost [] = 0
compute_tx_data_cost (b ∷ bytes) = (if b == 0 then 4 else 16) + compute_tx_data_cost bytes

abbrev pub compute_access_list_cost : AccessList → ℕ
compute_access_list_cost [] = 0
compute_access_list_cost ((a, keys) ∷ access_list) =
    2400 + length keys * 1900 + compute_access_list_cost access_list

abbrev pub is_creation : Option Address → Bool
is_creation none = true
is_creation (some a) = false

unfoldable pub compute_tx_intrinsic_cost : Transaction → ℕ
compute_tx_intrinsic_cost tx =
    let is_create = is_creation tx.to in
    let initcode_cost = if is_create then 2 * num_words (length tx.tx_input) else 0 in
    let tx_cost = if is_create then 53000 else 21000 in
    tx_cost
    + compute_tx_data_cost tx.tx_input
    + compute_access_list_cost tx.access_list
    + initcode_cost

abbrev pub max_initcode_size : ℕ
max_initcode_size = 2 * max_code_size

-- The cost limit is computed with 512 bits, which no product of 256-bit numbers overflows.
unfoldable pub validate_transaction : Intx → Account → BlockInfo → Transaction → Validated
unfolding compute_tx_intrinsic_cost
validate_transaction intx sender_acc block tx =
    let gas_limit_value = value (intx.of_int64 tx.gas_limit) in
    let tx_cost_limit_512 =
      (gas_limit_value * value tx.max_gas_price + value tx.tx_value) % 2 ^ 512 in
    let intrinsic_cost = compute_tx_intrinsic_cost tx in
    if intx.ult tx.max_gas_price tx.max_priority_gas_price
    then rejected tip_gt_fee_cap
    else if ltb_ℤ block.block_gas_limit tx.gas_limit
    then rejected gas_limit_reached
    else if intx.ult tx.max_gas_price (of_uint64 block.base_fee)
    then rejected fee_cap_less_then_blocks
    else if ltb 0 (length sender_acc.code)
    then rejected sender_not_eoa
    else if sender_acc.nonce == nonce_max
    then rejected nonce_has_max_value
    else if is_creation tx.to && ltb max_initcode_size (length tx.tx_input)
    then rejected init_code_size_limit_exceeded
    else if ltb (value sender_acc.balance) tx_cost_limit_512
    then rejected insufficient_funds
    else if ltb_ℤ tx.gas_limit (pos intrinsic_cost)
    then rejected intrinsic_gas_too_low
    else accepted (tx.gas_limit -ℤ pos intrinsic_cost)

abbrev pub recipient_of : Option Address → Address
recipient_of none = replicate 20 0
recipient_of (some a) = a

unfoldable pub build_message : Intx → Transaction → ℤ → Message
build_message intx tx execution_gas_limit =
    let recipient = recipient_of tx.to in
    record {
      kind = if is_creation tx.to then create else call;
      is_static = false;
      depth = 0;
      gas = execution_gas_limit;
      recipient = recipient;
      sender = tx.tx_sender;
      input = tx.tx_input;
      value = intx.be_store tx.tx_value;
      create2_salt = zero_bytes32;
      code_address = recipient;
    }
