-- ===== src/Instructions/Calls.antt =====
-- CALL, DELEGATECALL, STATICCALL, CREATE and CREATE2 (lib/zvmone/instructions_calls.cpp).
use zvmone.Prelude.{
  ℕ, ◌+◌, ◌-◌, ◌*◌, ◌/◌, ◌^◌, Bool, true, false, not, ◌&&◌, List, [], length, replicate, min, take,
  ltb, leb, if◌then◌else◌,
}
use zvmone.Prelude.Int.{ℤ, pos, negsuc, ◌+ℤ◌, ◌-ℤ◌, min_ℤ}
use zvmone.Uint256.{Uint256, of_uint64}
use zvmone.Memory.{num_words}
use zvmone.Zvmc.{
  is_success, out_of_gas, static_mode_violation, call, delegatecall, create, create2, Message,
  CallResult, Address,
}
use zvmone.Platform.{Platform, Intx}
use zvmone.Instructions.Environment.{to_int64}
use zvmone.Exec.{
  Exec, Context, ◌>>=◌, ◌>>◌, pure, return_with, pop_item, push_item, set_item, get_state,
  set_state, get_gas, set_gas, get_host, set_host, spend, require_memory_copy, read_memory,
  write_memory, access_account,
}

pub data CallOp : Type 0 where
  by_call by_delegatecall by_staticcall : CallOp

pub data CreateOp : Type 0 where
  by_create by_create2 : CreateOp

-- `x / 64` of int64_t, which rounds towards 0.
abbrev pub div64 : ℤ → ℤ
div64 (pos n) = pos (n / 64)
div64 (negsuc n) = pos 0 -ℤ pos ((n + 1) / 64)

abbrev pub is_call : CallOp → Bool
is_call by_call = true
is_call _ = false

abbrev pub is_delegatecall : CallOp → Bool
is_delegatecall by_delegatecall = true
is_delegatecall _ = false

abbrev pub is_staticcall : CallOp → Bool
is_staticcall by_staticcall = true
is_staticcall _ = false

abbrev pub is_create2 : CreateOp → Bool
is_create2 by_create2 = true
is_create2 _ = false

-- The gas for a call that asks for `gas` and has `gas_left`: all but one 64th at most.
unfoldable pub call_gas : Intx → Uint256 → ℤ → ℤ
call_gas intx gas gas_left =
    let int64_max : ℤ = pos (2 ^ 63 - 1) in
    let asked = if intx.ult gas (intx.of_int64 int64_max) then to_int64 gas.w0 else int64_max in
    min_ℤ asked (gas_left -ℤ div64 gas_left)

module _ {H : Type 0} (p : Platform H) (ctx : Context) where
  open p use {intx, host}
  open ctx use {msg}

  -- `state.return_data.clear()`
  unfoldable pub clear_return_data : Exec H (Unit {0})
  clear_return_data = do state ← get_state; set_state (record state { return_data = [] })

  -- `state.host.call(m)`, and what CALL and CREATE do alike with the result: the return data, the
  -- gas that was used, the refund.
  unfoldable pub call_host : Message → Exec H CallResult
  call_host m = do
    h ← get_host
    let (result, h') = host.call h m
    set_host h'
    state ← get_state
    set_state (record state {
      return_data = result.output;
      gas_refund = state.gas_refund +ℤ result.gas_refund;
    })
    gas_left ← get_gas
    set_gas (gas_left -ℤ (m.gas -ℤ result.gas_left))
    pure result

  unfoldable pub call_message : CallOp → Address → Uint256 → List ℕ → ℤ → Message
  call_message op dst value input gas = record {
    kind = if is_delegatecall op then delegatecall else call;
    is_static = if is_staticcall op then true else msg.is_static;
    depth = msg.depth + 1;
    gas = gas;
    recipient = if is_delegatecall op then msg.recipient else dst;
    sender = if is_delegatecall op then msg.sender else msg.recipient;
    input = input;
    value = if is_delegatecall op then msg.value else intx.be_store value;
    create2_salt = replicate 32 0;
    code_address = dst;
  }

  -- From the call of the host on.
  unfoldable pub call_execute : Message → Uint256 → Uint256 → Exec H (Unit {0})
  call_execute m output_offset output_size = do
    result ← call_host m
    set_item 0 (of_uint64 (if is_success result.status_code then 1 else 0))
    let copy_size = min output_size.w0 (length result.output)
    write_memory output_offset.w0 (take copy_size result.output)

  -- From the charge for the value on, with all operands known.
  unfoldable pub call_charged :
      CallOp → Uint256 → Address → Uint256 → List ℕ → Uint256 → Uint256 → Exec H (Unit {0})
  call_charged op gas dst value input output_offset output_size = do
    h ← get_host
    let has_value = not (intx.equal value (of_uint64 0))
    let value_cost = if has_value then 9000 else 0
    let new_account = is_call op && has_value && not (host.account_exists h dst)
    spend (pos (value_cost + (if new_account then 25000 else 0)))
    gas_left ← get_gas
    let stipend = if has_value then 2300 else 0
    let m = call_message op dst value input (call_gas intx gas gas_left +ℤ pos stipend)
    set_gas (gas_left +ℤ pos stipend)
    let poor = intx.ult (intx.be_load (host.get_balance h msg.recipient)) value
    if leb 1024 msg.depth
        then pure tt
        else if has_value && poor
        then pure tt
        else call_execute m output_offset output_size

  -- From the push of the result's slot on.
  unfoldable pub call_operands :
      CallOp
      → Uint256
      → Address
      → Uint256
      → Uint256
      → Uint256
      → Uint256
      → Uint256
      → Exec H (Unit {0})
  unfolding clear_return_data
  call_operands op gas dst value input_offset input_size output_offset output_size = do
    push_item (of_uint64 0)
    clear_return_data
    access_account p dst
    require_memory_copy input_offset input_size
    require_memory_copy output_offset output_size
    input ← read_memory input_offset.w0 input_size.w0
    let has_value = not (intx.equal value (of_uint64 0))
    if is_call op && has_value && msg.is_static
        then return_with static_mode_violation
        else call_charged op gas dst value input output_offset output_size

  unfoldable pub call_impl : CallOp → Exec H (Unit {0})
  call_impl op = do
    gas ← pop_item
    d ← pop_item
    value ← (if is_call op then pop_item else pure (of_uint64 0))
    input_offset ← pop_item
    input_size ← pop_item
    output_offset ← pop_item
    output_size ← pop_item
    call_operands op gas (intx.be_trunc d) value input_offset input_size output_offset output_size

  unfoldable pub create_message : CreateOp → Uint256 → Uint256 → List ℕ → ℤ → Message
  create_message op endowment salt input gas = record {
    kind = if is_create2 op then create2 else create;
    is_static = false;
    depth = msg.depth + 1;
    gas = gas;
    recipient = replicate 20 0;
    sender = msg.recipient;
    input = input;
    value = intx.be_store endowment;
    create2_salt = intx.be_store salt;
    code_address = replicate 20 0;
  }

  -- From the charge for the init code on.
  unfoldable pub create_charged : CreateOp → Uint256 → Uint256 → ℕ → ℕ → Exec H (Unit {0})
  create_charged op endowment salt init_code_offset init_code_size = do
    let init_code_word_cost = (if is_create2 op then 6 else 0) + 2
    spend (pos (num_words init_code_size * init_code_word_cost))
    h ← get_host
    gas_left ← get_gas
    let has_endowment = not (intx.equal endowment (of_uint64 0))
    let poor = intx.ult (intx.be_load (host.get_balance h msg.recipient)) endowment
    if leb 1024 msg.depth then pure tt else if has_endowment && poor then pure tt else do
      input ← read_memory init_code_offset init_code_size
      result ← call_host (create_message op endowment salt input (gas_left -ℤ div64 gas_left))
      if is_success result.status_code
          then set_item 0 (intx.be_load result.create_address)
          else pure tt

  -- From the push of the result's slot on.
  unfoldable pub create_operands :
      CreateOp → Uint256 → Uint256 → Uint256 → Uint256 → Exec H (Unit {0})
  unfolding clear_return_data
  create_operands op endowment init_code_offset init_code_size salt = do
    push_item (of_uint64 0)
    clear_return_data
    require_memory_copy init_code_offset init_code_size
    if ltb 0xc000 init_code_size.w0
        then return_with out_of_gas
        else create_charged op endowment salt init_code_offset.w0 init_code_size.w0

  -- From the static mode check on.
  unfoldable pub create_dynamic : CreateOp → Exec H (Unit {0})
  create_dynamic op = do
    endowment ← pop_item
    init_code_offset ← pop_item
    init_code_size ← pop_item
    salt ← (if is_create2 op then pop_item else pure (of_uint64 0))
    create_operands op endowment init_code_offset init_code_size salt

  unfoldable pub create_impl : CreateOp → Exec H (Unit {0})
  create_impl op = if msg.is_static then return_with static_mode_violation else create_dynamic op
