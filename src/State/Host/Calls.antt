-- ===== src/State/Host/Calls.antt =====
-- Host::call of test/state/host.cpp, and what it consists of.
pub mod Balances
pub mod Steps
pub mod Creation
pub mod Execution
pub mod Outcome
use zvmone.Prelude.{
  not, replicate, ℕ, ◌+◌, ◌*◌, Bool, true, false, ◌&&◌, ◌||◌, Option, none, some, List, [], ◌∷◌,
  ◌++◌, map, length, take, drop, get_or, ltb, ◌==◌, if◌then◌else◌,
}
use zvmone.Prelude.Int.{ℤ, pos, ◌-ℤ◌, ltb_ℤ}
use zvmone.Uint256.{Uint256}
use zvmone.Zvmc.{
  failure, contract_validation_failure, is_success, CallKind, call, create, create2, delegatecall,
  Address, Bytes32, Message, CallResult,
}
use zvmone.State.Bytes.{same_bytes}
use zvmone.State.Maps.{Map, lookup, update}
use zvmone.State.Accounts.{
  zero_bytes32, StorageValue, nonce_max, Account, new_account, Accounts, get_or_insert, touch,
}
use zvmone.State.Precompiles.{make, not_precompiled, precompiled, undefined_call, call_precompile}
use zvmone.State.Precompiles.Identity.{numbered}
use zvmone.State.Rlp.{encode_bytes, encode_uint64, encode_tuple}
use zvmone.State.Host.{
  HostState, HostEnv, max_code_size, code_of, with_accounts, change, ◌>>=◌, access_account,
}

abbrev pub is_create : CallKind → Bool
is_create create = true
is_create create2 = true
is_create _ = false

-- The salt is given for CREATE2.
unfoldable pub compute_new_account_address :
    HostEnv → Address → ℕ → Option Bytes32 → List ℕ → Address
compute_new_account_address env sender sender_nonce none init_code =
    let rlp_list = encode_tuple (encode_bytes sender ∷ encode_uint64 env.intx sender_nonce ∷ []) in
    take 20 (drop 12 (env.keccak256 rlp_list))
compute_new_account_address env sender sender_nonce (some salt) init_code =
    let buffer = 0xff ∷ sender ++ salt ++ env.keccak256 init_code in
    take 20 (drop 12 (env.keccak256 buffer))

abbrev salt_of : Message → Option Bytes32
salt_of msg = elim msg.kind [ create2 ↦ some msg.create2_salt | _ ↦ none ]

-- The message with the address of the account to create, which is warm from now on.
abbrev fill_recipient : HostEnv → Message → ℕ → HostState → Message × HostState
fill_recipient env msg sender_nonce h =
    if is_create msg.kind
    then (let recipient =
          compute_new_account_address env msg.sender sender_nonce (salt_of msg) msg.input in
        (record msg { recipient = recipient }, (access_account h recipient).1))
    else (msg, h)

-- `== address{}`
abbrev pub is_zero : Address → Bool
is_zero addr = same_bytes addr (replicate 20 0)

-- The message to execute, `none` for an early exception, and the host with the sender's new nonce.
-- That a message which creates an account names none is asserted.
unfoldable pub prepare_message : HostEnv → Message → HostState → Option (Option Message × HostState)
unfolding compute_new_account_address access_account
prepare_message env msg h = do
  sender_acc ← lookup msg.sender h.accounts
  let bumps = (msg.depth == 0) || is_create msg.kind
  let bumped = update msg.sender (record sender_acc { nonce = sender_acc.nonce + 1 }) h.accounts
  let sender_nonce = sender_acc.nonce
  let named = is_create msg.kind && not (is_zero msg.recipient && is_zero msg.code_address)
  let (msg', h') = fill_recipient env msg sender_nonce (if bumps then with_accounts bumped h else h)
  if bumps && (sender_nonce == nonce_max)
      then some (none, h)
      else if named
      then none
      else some (some msg', h')

-- `v = StorageValue{.access_status = v.access_status}` for each value
abbrev pub clear_storage : Map StorageValue → Map StorageValue
clear_storage [] = []
clear_storage ((key, v) ∷ m) =
    (key, record v { current = zero_bytes32; original = zero_bytes32 }) ∷ clear_storage m

abbrev pub add_balance : HostEnv → Uint256 → Account → Account
add_balance env value acc = record acc { balance = env.intx.add acc.balance value }

abbrev pub sub_balance : HostEnv → Uint256 → Account → Account
sub_balance env value acc = record acc { balance = env.intx.sub acc.balance value }

-- The value goes from the sender to the recipient.
unfoldable pub transfer : HostEnv → Message → HostState → Option HostState
transfer env msg h = do
  let value = env.intx.be_load msg.value
  h' ← change msg.sender (sub_balance env value) h
  change msg.recipient (add_balance env value) h'

-- The assertion before a transfer: `balance >= value`.
abbrev pub can_pay : HostEnv → Message → Option Account → Bool
can_pay env msg none = false
can_pay env msg (some sender_acc) =
    not (env.intx.ult sender_acc.balance (env.intx.be_load msg.value))

unfoldable pub pay : HostEnv → Message → HostState → Option HostState
unfolding transfer
pay env msg h = if can_pay env msg (lookup msg.sender h.accounts) then transfer env msg h else none

-- The deployment of what the initcode returned, whose gas is asserted not to be negative.
unfoldable pub deploy : Message → CallResult → HostState → Option (CallResult × HostState)
deploy msg result h =
    let code = result.output in
    let gas_left = result.gas_left -ℤ pos (length code * 200) in
    if ltb_ℤ result.gas_left (pos 0)
    then none
    else if ltb max_code_size (length code)
    then some (make failure (pos 0) [], h)
    else if ltb_ℤ gas_left (pos 0)
    then some (make failure (pos 0) [], h)
    else if ltb 0 (length code) && (get_or code 0 0 == 0xef)
    then some (make contract_validation_failure (pos 0) [], h)
    else do
      h' ← change msg.recipient (λ acc. record acc { code = code }) h
      some (record result { gas_left = gas_left; output = []; create_address = msg.recipient }, h')

abbrev pub collides : Option Account → Bool
collides none = false
collides (some acc) = if acc.nonce == 0 then ltb 0 (length acc.code) else true

abbrev pub after_initcode : Message → CallResult × HostState → Option (CallResult × HostState)
unfolding deploy
after_initcode msg (result, h) =
    if is_success result.status_code
    then deploy msg result h
    else some (record result { create_address = msg.recipient }, h)

-- The new account's nonce, asserted to be 0, is 0 without a collision.
unfoldable pub create_account : HostEnv → Message → HostState → Option (CallResult × HostState)
unfolding pay
create_account env msg h =
    if collides (lookup msg.recipient h.accounts)
    then some (make failure (pos 0) [], h)
    else (let (new_acc, accounts) = get_or_insert msg.recipient new_account h.accounts in
        let cleared = record new_acc { nonce = 1; storage = clear_storage new_acc.storage } in
        do
          h' ← pay env msg (with_accounts (update msg.recipient cleared accounts) h)
          after_initcode msg (env.vm_execute h' (record msg { input = [] }) msg.input))

-- The account whose code runs, after the transfer of a call's value.
unfoldable pub enter : HostEnv → Message → HostState → Option (List ℕ × HostState)
unfolding pay
enter env msg h = elim msg.kind [
  | call ↦ do
    h' ← pay env msg (with_accounts (touch msg.recipient h.accounts) h)
    acc ← lookup msg.recipient h'.accounts
    some (acc.code, h')
  | _ ↦ some (code_of (lookup msg.code_address h.accounts), h)
]

-- The recipient of a call is asserted to be its code address.
abbrev pub is_addressed : CallKind → Address → Address → Bool
is_addressed call recipient code_address = same_bytes recipient code_address
is_addressed _ recipient code_address = true

unfoldable pub execute_message : HostEnv → Message → HostState → Option (CallResult × HostState)
unfolding create_account enter call_precompile
execute_message env msg h =
    if is_create msg.kind
    then create_account env msg h
    else if not (is_addressed msg.kind msg.recipient msg.code_address)
    then none
    else do
      (code, h') ← enter env msg h
      elim (call_precompile env.intx env.keccak256 msg h'.cache) [
        | undefined_call ↦ none
        | precompiled r cache ↦ some (r, record h' { cache = cache })
        | not_precompiled ↦ some (env.vm_execute h' msg code)
      ]

abbrev pub is_touched : Option Account → Bool
is_touched none = false
is_touched (some acc) = acc.erasable

-- The accounts and the logs are those before the execution, but for the touch of address 3.
unfoldable pub revert_to : HostState → HostState → HostState
revert_to before after =
    let is_03_touched = is_touched (lookup (numbered 3) after.accounts) in
    let accounts = if is_03_touched then touch (numbered 3) before.accounts else before.accounts in
    record after { accounts = accounts; logs = take (length before.logs) after.logs }

unfoldable pub host_call : HostEnv → Message → HostState → Option (CallResult × HostState)
unfolding prepare_message execute_message revert_to
host_call env orig_msg h = do
  (prepared, h1) ← prepare_message env orig_msg h
  elim prepared [
    | none ↦ some (make failure orig_msg.gas [], h1)
    | some msg ↦ do
      (result, h2) ← execute_message env msg h1
      some (result, if is_success result.status_code then h2 else revert_to h1 h2)
  ]
