-- ===== src/State/Transition/Apply.antt =====
-- The transition of a transaction and the end of a block (test/state/state.cpp).
use zvmone.Prelude.{
  Bool, ◌||◌, ◌+◌, ◌/◌, ◌&&◌, Option, none, some, List, [], ◌∷◌, ◌++◌, if◌then◌else◌, replicate,
}
use zvmone.Prelude.Int.{ℤ, pos, negsuc, ◌-ℤ◌, min_ℤ, ltb_ℤ}
use zvmone.Uint256.{Uint256, of_uint64}
use zvmone.Zvmc.{warm, Address, Bytes32, CallResult, TxContext}
use zvmone.Platform.{Intx}
use zvmone.State.Maps.{Map, lookup, update, erase_if}
use zvmone.State.Accounts.{Account, Accounts, StorageValue, zero_bytes32, is_empty, touch}
use zvmone.State.Bloom.{compute_bloom_filter}
use zvmone.State.Host.{HostState, HostEnv, with_accounts, change, slot, ◌>>=◌, access_account}
use zvmone.State.Host.Calls.{host_call}
use zvmone.State.Transition.{
  rejected, accepted, Withdrawal, BlockInfo, AccessList, Transaction, TransactionReceipt, ErrorCode,
  validate_transaction, build_message,
}

-- `ZVMC_ACCESS_WARM` for the slots of the keys
abbrev pub warm_keys : List Bytes32 → Map StorageValue → Map StorageValue
warm_keys [] storage = storage
warm_keys (key ∷ keys) storage =
    warm_keys keys (update key (record (slot key storage) { access_status = warm }) storage)

abbrev pub warm_storage : List Bytes32 → Account → Account
warm_storage keys acc = record acc { storage = warm_keys keys acc.storage }

unfoldable pub access_all : AccessList → HostState → Option HostState
unfolding access_account
access_all [] h = some h
access_all ((a, keys) ∷ access_list) h = do
  h' ← change a (warm_storage keys) (access_account h a).1
  access_all access_list h'

abbrev pub access_recipient : Option Address → HostState → HostState
access_recipient none h = h
access_recipient (some a) h = (access_account h a).1

-- The division of an int64_t by 5
abbrev pub fifth : ℤ → ℤ
fifth (pos n) = pos (n / 5)
fifth (negsuc n) = pos 0 -ℤ pos ((n + 1) / 5)

-- A transaction that is rejected leaves the state alone.
pub data Transitioned : Type 0 where
  invalid : ErrorCode → Transitioned
  applied : TransactionReceipt → HostState → Transitioned

abbrev pub min_uint256 : Intx → Uint256 → Uint256 → Uint256
min_uint256 intx a b = if intx.ult b a then b else a

-- The gas that the sender pays for, after the refund.
abbrev pub gas_used_by : Transaction → CallResult → ℤ
gas_used_by tx result =
    let gas_used = tx.gas_limit -ℤ result.gas_left in
    gas_used -ℤ min_ℤ result.gas_refund (fifth gas_used)

-- The balances before the execution, and what is warm.
unfoldable pub before_call :
    HostEnv → BlockInfo → Transaction → Uint256 → HostState → Option HostState
unfolding access_account access_all
before_call env block tx tx_max_cost h = do
  h1 ←
      change tx.tx_sender
        (λ acc. record acc {
          balance = env.intx.sub acc.balance tx_max_cost;
          account_access = warm;
        })
        h
  h2 ← access_all tx.access_list (access_recipient tx.to h1)
  some (access_account h2 block.coinbase).1

-- The balances after the execution, without the accounts that were destructed.
unfoldable pub after_call :
    HostEnv
    → BlockInfo
    → Transaction
    → Uint256
    → Uint256
    → Uint256
    → ℤ
    → HostState
    → Option HostState
after_call env block tx tx_max_cost effective priority gas_used h = do
  let gas = env.intx.of_int64 gas_used
  h1 ←
      change tx.tx_sender
        (λ acc. record acc {
          balance =
              env.intx.add acc.balance (env.intx.sub tx_max_cost (env.intx.mul gas effective));
        })
        h
  h2 ←
      change block.coinbase
        (λ acc. record acc { balance = env.intx.add acc.balance (env.intx.mul gas priority) })
        (with_accounts (touch block.coinbase h1.accounts) h1)
  some (with_accounts (erase_if (λ acc. acc.destructed) h2.accounts) h2)

abbrev pub priority_gas_price : Intx → BlockInfo → Transaction → Uint256
priority_gas_price intx block tx =
    min_uint256 intx tx.max_priority_gas_price
      (intx.sub tx.max_gas_price (of_uint64 block.base_fee))

abbrev pub effective_gas_price : Intx → BlockInfo → Transaction → Uint256
effective_gas_price intx block tx =
    intx.add (of_uint64 block.base_fee) (priority_gas_price intx block tx)

abbrev pub max_cost : Intx → BlockInfo → Transaction → Uint256
max_cost intx block tx = intx.mul (intx.of_int64 tx.gas_limit) (effective_gas_price intx block tx)

-- The assertions on the prices.
abbrev pub is_overpriced : Intx → BlockInfo → Transaction → Bool
is_overpriced intx block tx =
    intx.ult tx.max_gas_price (of_uint64 block.base_fee)
    || intx.ult tx.max_gas_price tx.max_priority_gas_price
    || intx.ult tx.max_gas_price (effective_gas_price intx block tx)

-- `none` also for a failed assertion.
unfoldable pub apply_transaction :
    HostEnv → BlockInfo → Transaction → ℤ → HostState → Option Transitioned
unfolding before_call after_call build_message host_call
apply_transaction env block tx execution_gas_limit h =
    if is_overpriced env.intx block tx then none else do
      let intx = env.intx
      let priority = priority_gas_price intx block tx
      let effective = effective_gas_price intx block tx
      let tx_max_cost = max_cost intx block tx
      h1 ← before_call env block tx tx_max_cost (record h { logs = [] })
      (result, h2) ← host_call env (build_message intx tx execution_gas_limit) h1
      let gas_used = gas_used_by tx result
      h3 ←
          if ltb_ℤ (pos 0) gas_used
          then after_call env block tx tx_max_cost effective priority gas_used h2
          else none
      let receipt : TransactionReceipt = record {
        receipt_kind = tx.tx_kind;
        receipt_status = result.status_code;
        gas_used = gas_used;
        receipt_logs = h3.logs;
        logs_bloom_filter = compute_bloom_filter env.keccak256 h3.logs;
      }
      some (applied receipt h3)

unfoldable pub transition : HostEnv → BlockInfo → Transaction → HostState → Option Transitioned
unfolding validate_transaction apply_transaction
transition env block tx h = do
  sender_acc ← lookup tx.tx_sender h.accounts
  elim (validate_transaction env.intx sender_acc block tx) [
    | rejected e ↦ some (invalid e)
    | accepted execution_gas_limit ↦ apply_transaction env block tx execution_gas_limit h
  ]

abbrev pub apply_withdrawals : Intx → List Withdrawal → Accounts → Option Accounts
apply_withdrawals intx [] accounts = some accounts
apply_withdrawals intx (w ∷ withdrawals) accounts = do
  let touched = touch w.withdrawal_recipient accounts
  acc ← lookup w.withdrawal_recipient touched
  let amount = intx.mul (of_uint64 w.amount_in_gplanck) (of_uint64 1000000000)
  apply_withdrawals intx withdrawals
      (update w.withdrawal_recipient (record acc { balance = intx.add acc.balance amount }) touched)

unfoldable pub finalize : Intx → List Withdrawal → Accounts → Option Accounts
finalize intx withdrawals accounts =
    apply_withdrawals intx withdrawals
      (erase_if (λ acc. acc.erasable && is_empty intx acc) accounts)

-- `Host::get_tx_context`, whose assertion is the first one of `transition`, and `Host::get_block_hash`
unfoldable pub get_tx_context : Intx → BlockInfo → Transaction → TxContext
get_tx_context intx block tx =
    let base_fee = of_uint64 block.base_fee in
    let priority_gas_price =
      min_uint256 intx tx.max_priority_gas_price (intx.sub tx.max_gas_price base_fee) in
    record {
      tx_gas_price = intx.be_store (intx.add base_fee priority_gas_price);
      tx_origin = tx.tx_sender;
      block_coinbase = block.coinbase;
      block_number = block.number;
      block_timestamp = block.timestamp;
      block_gas_limit = block.block_gas_limit;
      block_prev_randao = block.prev_randao;
      chain_id = replicate 31 0 ++ (1 ∷ []);
      block_base_fee = intx.be_store base_fee;
    }

abbrev pub get_block_hash : ℤ → Bytes32
get_block_hash block_number = zero_bytes32
