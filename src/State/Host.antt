-- ===== src/State/Host.antt =====
-- class Host of test/state/host.cpp. The VM that it calls is a parameter. An operation is `none` where
-- the source takes a reference to an account that does not exist.
pub mod Storage
pub mod Calls
use zvmone.Prelude.{
  ℕ, ◌+◌, ◌-◌, ◌*◌, ◌^◌, min, Bool, true, false, not, ◌&&◌, ◌||◌, Option, none, some, List, [], ◌∷◌,
  ◌++◌, map, length, take, drop, get_or, replicate, ltb, leb, ◌==◌, if◌then◌else◌,
}
use zvmone.Prelude.Int.{ℤ, pos, ◌-ℤ◌, ltb_ℤ}
use zvmone.Uint256.{Uint256, of_uint64}
use zvmone.Zvmc.{
  success, failure, contract_validation_failure, is_success, AccessStatus, cold, warm,
  StorageStatus, assigned, added, deleted, modified, deleted_added, modified_deleted,
  deleted_restored, added_deleted, modified_restored, CallKind, call, create, create2, delegatecall,
  Address, Bytes32, Message, CallResult, TxContext,
}
use zvmone.Platform.{Intx, big_endian}
use zvmone.State.Bytes.{same_bytes}
use zvmone.State.Maps.{Map, lookup, update}
use zvmone.State.Accounts.{
  zero_bytes32, StorageValue, new_storage_value, nonce_max, Account, new_account, is_empty,
  Accounts, get_or_insert, touch,
}
use zvmone.State.Precompiles.{
  Cache, make, Precompiled, not_precompiled, precompiled, undefined_call, call_precompile,
}
use zvmone.State.Precompiles.Identity.{numbered}
use zvmone.State.Rlp.{encode_bytes, encode_uint64, encode_tuple}

infixl 5 ◌>>=◌
abbrev pub ◌>>=◌ : {A B : Type 0} → Option A → (A → Option B) → Option B
none >>= k = none
some a >>= k = k a

-- A log of test/state/state.hpp.
pub record Log : Type 0 where
  pub addr : Address
  pub log_bytes : List ℕ
  pub topics : List Bytes32

-- The accounts, the logs, and the cache of call_precompile.
pub record HostState : Type 0 where
  pub accounts : Accounts
  pub logs : List Log
  pub cache : Cache

-- What the host calls: intx, Keccak-256, and the VM on a message and a code, which calls the host.
pub record HostEnv : Type 0 where
  pub intx : Intx
  pub keccak256 : List ℕ → Bytes32
  pub vm_execute : HostState → Message → List ℕ → CallResult × HostState

abbrev pub max_code_size : ℕ
max_code_size = 0x6000

abbrev pub with_accounts : Accounts → HostState → HostState
with_accounts accounts h = record h { accounts = accounts }

-- `State::get` and a change of the account.
abbrev pub change : Address → (Account → Account) → HostState → Option HostState
change addr f h = do
  acc ← lookup addr h.accounts
  some (with_accounts (update addr (f acc) h.accounts) h)

unfoldable pub account_exists : HostEnv → HostState → Address → Bool
account_exists env h addr = elim (lookup addr h.accounts) [
  | none ↦ false
  | some acc ↦ not (is_empty env.intx acc)
]

-- The current value of a slot; zero without an entry.
abbrev pub current_of : Option StorageValue → Bytes32
current_of none = zero_bytes32
current_of (some v) = v.current

unfoldable pub get_storage : HostState → Address → Bytes32 → Option Bytes32
get_storage h addr key = do acc ← lookup addr h.accounts; some (current_of (lookup key acc.storage))

-- `storage[key]`, which inserts an entry where there is none.
abbrev pub slot : Bytes32 → Map StorageValue → StorageValue
slot key storage = elim (lookup key storage) [ none ↦ new_storage_value | some v ↦ v ]

abbrev pub is_zero : Bytes32 → Bool
is_zero = same_bytes zero_bytes32

-- The status by the original, the current and the new value.
unfoldable pub storage_status : Bytes32 → Bytes32 → Bytes32 → StorageStatus
storage_status original current value =
    let dirty = not (same_bytes original current) in
    let restored = same_bytes original value in
    let current_is_zero = is_zero current in
    let value_is_zero = is_zero value in
    if not dirty && not restored
    then (if current_is_zero then added else if value_is_zero then deleted else modified)
    else if dirty && not restored
    then (if current_is_zero && not value_is_zero
        then deleted_added
        else if not current_is_zero && value_is_zero
        then modified_deleted
        else assigned)
    else if dirty && restored
    then (if current_is_zero
        then deleted_restored
        else if value_is_zero
        then added_deleted
        else modified_restored)
    else assigned

unfoldable pub set_storage :
    HostState → Address → Bytes32 → Bytes32 → Option (StorageStatus × HostState)
unfolding storage_status
set_storage h addr key value = do
  acc ← lookup addr h.accounts
  let storage_slot = slot key acc.storage
  let storage = update key (record storage_slot { current = value }) acc.storage
  some (
    storage_status storage_slot.original storage_slot.current value,
    with_accounts (update addr (record acc { storage = storage }) h.accounts) h,
  )

unfoldable pub get_balance : HostEnv → HostState → Address → Bytes32
get_balance env h addr = elim (lookup addr h.accounts) [
  | none ↦ zero_bytes32
  | some acc ↦ env.intx.be_store acc.balance
]

abbrev pub code_of : Option Account → List ℕ
code_of none = []
code_of (some acc) = acc.code

unfoldable pub get_code_size : HostState → Address → ℕ
get_code_size h addr = length (code_of (lookup addr h.accounts))

unfoldable pub get_code_hash : HostEnv → HostState → Address → Bytes32
get_code_hash env h addr = elim (lookup addr h.accounts) [
  | none ↦ zero_bytes32
  | some acc ↦ if is_empty env.intx acc then zero_bytes32 else env.keccak256 acc.code
]

-- The bytes that are written to the buffer.
unfoldable pub copy_code : HostState → Address → ℕ → ℕ → List ℕ
copy_code h addr code_offset buffer_size =
    let code = code_of (lookup addr h.accounts) in
    let code_slice = drop (min code_offset (length code)) code in
    take (min buffer_size (length code_slice)) code_slice

unfoldable pub emit_log : HostState → Address → List ℕ → List Bytes32 → HostState
emit_log h addr bytes topics = record h {
  logs = h.logs ++ (record { addr = addr; log_bytes = bytes; topics = topics } ∷ []);
}

-- The precompiled contracts' addresses, read as numbers, are warm.
unfoldable pub access_account : HostState → Address → AccessStatus × HostState
access_account h addr =
    let (acc, accounts) = get_or_insert addr (record new_account { erasable = true }) h.accounts in
    let h' = with_accounts (update addr (record acc { account_access = warm }) accounts) h in
    let status : AccessStatus = elim acc.account_access [
      | warm ↦ warm
      | cold ↦ if leb 1 (big_endian addr) && leb (big_endian addr) 9 then warm else cold
    ] in
    (status, h')

unfoldable pub access_storage : HostState → Address → Bytes32 → Option (AccessStatus × HostState)
access_storage h addr key = do
  acc ← lookup addr h.accounts
  let storage_slot = slot key acc.storage
  let storage = update key (record storage_slot { access_status = warm }) acc.storage
  some (
    storage_slot.access_status,
    with_accounts (update addr (record acc { storage = storage }) h.accounts) h,
  )
