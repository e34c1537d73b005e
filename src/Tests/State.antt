-- ===== src/Tests/State.antt =====
-- Runs of the state and the host of test/state on concrete input.
use zvmone.Prelude.{
  ℕ, ◌-◌, ◌/◌, ◌≡◌, ◌↔◌, refl, inl, inr, arith, false, true, some, List, [], ◌∷◌, ◌++◌, length,
  replicate,
}
use zvmone.Prelude.Int.{ℤ, negsuc, pos, ◌≤ℤ◌, ◌-ℤ◌}
use zvmone.Uint256.{of_uint64}
use zvmone.Zvmc.{success, is_success, StorageStatus, Bytes32, Message, CallResult}
use zvmone.State.Bytes.{same_bytes}
use zvmone.State.Accounts.{Account, new_account, zero_bytes32}
use zvmone.State.Precompiles.{
  Cache, make, identity_id, cost_per_input_word, precompiled, call_precompile, cache_insert,
}
use zvmone.State.Precompiles.Identity.{numbered, call_precompile-identity}
use zvmone.State.Host.{HostState, HostEnv, Log, slot, set_storage, get_storage}
use zvmone.State.Host.Storage.{Change, set_storage-Change}
use zvmone.Prelude.{◌*◌, ◌+◌, ◌^◌}
use zvmone.Uint256.{IsUint256, of_value-IsUint256, value, value-of_value_mod}
use zvmone.State.Host.Calls.Balances.{total, transfer-total}
use zvmone.State.Host.Calls.{host_call, transfer}
use zvmone.State.Host.Calls.Steps.{Grows-refl, IsHostEnv}
use zvmone.State.Host.Calls.Outcome.{IsCalled, host_call-IsCalled}
use zvmone.State.Host.Calls.Execution.{IsDefined}
use zvmone.State.Rlp.{encode_bytes, wrap_list}
use zvmone.State.Rlp.Decode.{decode_item, decode_item-encode}
use zvmone.State.Bloom.{compute_bloom_filter}
use zvmone.State.Bloom.Member.{Contains, compute_bloom_filter-Contains}
use zvmone.State.Transition.{
  eip1559, BlockInfo, Transaction, TransactionReceipt, accepted, validate_transaction,
  compute_tx_intrinsic_cost, build_message,
}
use zvmone.State.Transition.Apply.{applied, transition}
use zvmone.State.Transition.Validation.{IsValid, validate_transaction-IsValid}
use zvmone.State.Transition.Receipt.{transition-gas_used}
use zvmone.Tests.{platform-IsPlatform, message, intx}

abbrev hash : List ℕ → Bytes32
hash bytes = replicate 31 0 ++ (length bytes ∷ [])

abbrev input_message : Message
input_message = record message { input = 1 ∷ 2 ∷ 3 ∷ [] }

abbrev identity_message : Message
identity_message = record input_message { code_address = numbered 3 }

abbrev no_cache : Cache
no_cache = replicate 10 []

call_precompile-identity_example :
    (let left = input_message.gas -ℤ pos (cost_per_input_word 15 3 (length input_message.input)) in
      let given = make success left input_message.input in
      call_precompile intx hash (record input_message { code_address = numbered 3 }) no_cache
      ≡ precompiled given (cache_insert hash 3 input_message.input given no_cache))
    × ((r : CallResult) × (cache' : Cache) × (call_precompile intx hash
            (record input_message { code_address = numbered identity_id })
            no_cache
          ≡ precompiled r cache')
        × (is_success r.status_code ≡ false))
unfolding ◌-ℤ◌
call_precompile-identity_example =
    call_precompile-identity intx hash input_message no_cache refl refl (omega arith)
      (λ u. (let z = u.within_limit in absurd cc)) (omega arith)

-- A host with the account of the sender, and a VM that gives all gas back.
abbrev rich : Account
rich = record new_account { balance = of_uint64 1000000 }

abbrev two_accounts : HostState
two_accounts = record {
  accounts = (replicate 20 0, rich) ∷ (numbered 3, new_account) ∷ [];
  logs = [];
  cache = no_cache;
}

abbrev env : HostEnv
env = record { intx = intx; keccak256 = hash; vm_execute = λ h m code. (make success m.gas [], h) }

env-IsHostEnv : IsHostEnv env
env-IsHostEnv = record {
  vm_gas = λ h m code p. (p, omega arith);
  vm_grows = λ h m code. Grows-refl h;
}

abbrev one : Bytes32
one = replicate 31 0 ++ (1 ∷ [])

set_storage-Change_example :
    (s : StorageStatus) × (h' : HostState) × (set_storage two_accounts (numbered 3) zero_bytes32 one
      ≡ some (s, h'))
    × Change
        (slot zero_bytes32 new_account.storage).original
        (slot zero_bytes32 new_account.storage).current
        one
        s
    × (get_storage h' (numbered 3) zero_bytes32 ≡ some one)
    × ((other : Bytes32)
        → same_bytes zero_bytes32 other ≡ false
        → get_storage h' (numbered 3) other ≡ get_storage two_accounts (numbered 3) other)
set_storage-Change_example =
    set_storage-Change two_accounts (numbered 3) zero_bytes32 one new_account refl

message-IsDefined : IsDefined env message two_accounts
message-IsDefined = record {
  runnable = record {
    address_length = refl;
    has_function = inl (omega arith);
    fits_buffer = λ e. omega arith;
    expmod_safe = λ e u. absurd (omega arith);
    addressed = refl;
    pays = λ k. (rich, refl, refl);
  };
  unnamed = λ c. absurd cc;
}

host_call-IsCalled_example :
    (r : CallResult) × (h' : HostState) × (host_call env message two_accounts ≡ some (r, h'))
    × IsCalled env message two_accounts r h'
host_call-IsCalled_example =
    host_call-IsCalled env message two_accounts env-IsHostEnv (rich, refl) message-IsDefined
      (omega arith)

decode_item-encode_example :
    (decode_item (encode_bytes (replicate 60 7) ++ (1 ∷ [])) ≡ some (false, replicate 60 7, 1 ∷ []))
    × (decode_item (wrap_list (replicate 60 7) ++ (1 ∷ [])) ≡ some (true, replicate 60 7, 1 ∷ []))
decode_item-encode_example = decode_item-encode (replicate 60 7) (1 ∷ []) (omega arith)

abbrev one_log : Log
one_log = record { addr = replicate 20 1; log_bytes = []; topics = one ∷ [] }

compute_bloom_filter-Contains_example : Contains hash one (compute_bloom_filter hash (one_log ∷ []))
compute_bloom_filter-Contains_example =
    compute_bloom_filter-Contains hash (one_log ∷ []) 0 one_log one refl (inr (0, refl))

abbrev block_info : BlockInfo
block_info = record {
  number = pos 1;
  timestamp = pos 1;
  block_gas_limit = pos 1000000;
  coinbase = replicate 20 9;
  prev_randao = zero_bytes32;
  base_fee = 1;
}

abbrev transaction : Transaction
transaction = record {
  tx_kind = eip1559;
  tx_input = [];
  gas_limit = pos 30000;
  max_gas_price = of_uint64 2;
  max_priority_gas_price = of_uint64 1;
  tx_sender = replicate 20 0;
  to = some (replicate 20 5);
  tx_value = of_uint64 0;
  access_list = [];
  tx_chain_id = 1;
  tx_nonce = 0;
  public_key = [];
  signature = [];
}

of_int64-IsUint256 : (z : ℤ) → IsUint256 (intx.of_int64 z)
of_int64-IsUint256 (pos n) = of_value-IsUint256 n
of_int64-IsUint256 (negsuc n) = of_value-IsUint256 (2 ^ 256 - 1 - n)

validate_transaction-IsValid_example :
    (validate_transaction intx rich block_info transaction ≡ accepted (pos 9000)) ↔ (
      IsValid intx rich block_info transaction
      × (pos 9000 ≡ transaction.gas_limit -ℤ pos (compute_tx_intrinsic_cost transaction)))
validate_transaction-IsValid_example =
    validate_transaction-IsValid intx rich block_info transaction (pos 9000)
      platform-IsPlatform.ult_value

transition-gas_used_example :
    (r : TransactionReceipt) × (h' : HostState) × (transition env block_info transaction
        two_accounts
      ≡ some (applied r h'))
    × (pos (compute_tx_intrinsic_cost transaction - compute_tx_intrinsic_cost transaction / 5)
        ≤ℤ r.gas_used)
    × (pos 1 ≤ℤ r.gas_used)
unfolding validate_transaction build_message compute_tx_intrinsic_cost ◌-ℤ◌
transition-gas_used_example =
    transition-gas_used env block_info transaction two_accounts rich (pos 9000)
      (record {
        ult_value = λ x y. refl;
        add_value = λ x y. value-of_value_mod (value x + value y);
        sub_value = λ x y. value-of_value_mod (value x + 2 ^ 256 - value y);
        mul_value = λ x y. value-of_value_mod (value x * value y);
        of_int64_small = of_int64-IsUint256;
        value_kept = refl;
      })
      (omega arith) (omega arith) (omega arith) env-IsHostEnv refl refl
      (record {
        address_length = refl;
        has_function = inr (omega arith);
        fits_buffer = λ e. omega arith;
        expmod_safe = λ e u. absurd (omega arith);
      })

abbrev payment : Message
payment = record message { recipient = numbered 3; value = one }

transfer-total_example :
    (h' : HostState) × (transfer env payment two_accounts ≡ some h')
    × (total h'.accounts ≡ total two_accounts.accounts)
unfolding total
transfer-total_example =
    transfer-total env payment two_accounts rich (λ x y. value-of_value_mod (value x + value y))
      (λ x y. value-of_value_mod (value x + 2 ^ 256 - value y)) refl (omega arith)
      (new_account, refl) (omega arith)
