-- ===== src/Baseline.antt =====
-- The Baseline interpreter (lib/zvmone/baseline.cpp) with the switch and without tracers. Traced has the
-- computed-goto loop and the tracers.
pub mod Invariant
pub mod Analysis
pub mod Requirements
pub mod Rounds
pub mod Execution
pub mod Jumps
pub mod Pushes
pub mod Traced
use zvmone.Prelude.{
  ℕ, zero, suc, ◌+◌, ◌-◌, ◌*◌, Bool, true, false, ◌&&◌, ◌||◌, Option, none, some, List, [], length,
  take, drop, get_elem?, replicate, ltb, leb, ◌==◌, if◌then◌else◌,
}
use zvmone.Prelude.Int.{ℤ, pos, negsuc, ◌+ℤ◌, ◌-ℤ◌, ltb_ℤ, pos_part}
use zvmone.Uint256.{Uint256}
use zvmone.Memory.{Memory, new_memory, load}
use zvmone.Zvmc.{
  StatusCode, success, is_success, is_revert, out_of_gas, undefined_instruction, stack_overflow,
  stack_underflow, Message, CallResult, TxContext,
}
use zvmone.Platform.{Platform}
use zvmone.Exec.{Context, ExecutionState, Frame, Outcome, ok, exit, fault, Exec, with_stack}
use zvmone.Opcodes.{Opcode, decode}
use zvmone.Traits.{gas_costs, traits}
use zvmone.Instructions.Impl.{CoreFn, returns, moves, terminates, impl}
use mathlib.Core.Option
use Analysis.{analyze}

-- `StackSpace::limit`
abbrev pub stack_limit : ℕ
stack_limit = 1024

-- The status, and the gas after the charge of the base cost. Every defined opcode has a constant
-- cost, since there is one revision.
pub check_requirements : Opcode → ℤ → ℕ → StatusCode × ℤ
check_requirements op gas_left height =
    let t = traits op in
    let left = gas_left -ℤ pos (gas_costs op) in
    if ltb_ℤ (pos 0) t.stack_height_change && (height == stack_limit)
    then (stack_overflow, gas_left)
    else if ltb 0 t.stack_height_required && leb height (t.stack_height_required - 1)
    then (stack_underflow, gas_left)
    else if ltb_ℤ left (pos 0)
    then (out_of_gas, left)
    else (success, left)

-- What an instruction leads to: the next position, the end of the execution, or a fault.
pub data Next (H : Type 0) : Type 0 where
  running : ℕ → Frame H → Next H
  stopped : Frame H → Next H
  faulted : Next H

module _ {H : Type 0} where
  abbrev pub set_status : StatusCode → Frame H → Frame H
  set_status s f = record f { state = record (f.state) { status = s } }

  -- `pos.stack_top + instr::traits[Op].stack_height_change`; `height` is that of `pos.stack_top`.
  -- Slots above the pointer that the instruction left have no value.
  pub adjust : ℕ → ℕ → Frame H → Next H
  adjust position new_height f =
      if leb new_height (length f.stack)
      then running position (with_stack (drop (length f.stack - new_height) f.stack) f)
      else faulted

  -- The overloads of `invoke` for the signatures of the implementations, with the new stack top.
  pub after_returns : ℕ → ℕ → Outcome H (Unit {0}) → Next H
  after_returns position new_height (ok u f) = adjust (position + 1) new_height f
  after_returns position new_height (exit s f) = stopped (set_status s f)
  after_returns position new_height fault = faulted

  pub after_moves : ℕ → Outcome H (Option ℕ) → Next H
  after_moves new_height (ok (some position) f) = adjust position new_height f
  after_moves new_height (ok none f) = stopped f
  after_moves new_height (exit s f) = stopped (set_status s f)
  after_moves new_height fault = faulted

  pub after_terminates : Outcome H StatusCode → Next H
  after_terminates (ok s f) = stopped (set_status s f)
  after_terminates (exit s f) = stopped (set_status s f)
  after_terminates fault = faulted

  pub call_core : CoreFn H → ℕ → ℕ → Frame H → Next H
  unfolding after_returns after_moves after_terminates adjust
  call_core (returns fn) position new_height f = after_returns position new_height (fn f)
  call_core (moves fn) position new_height f = after_moves new_height (fn position f)
  call_core (terminates fn) position new_height f = after_terminates (fn f)

  -- `invoke<Op>`
  pub invoke : Platform H → Context → Opcode → ℕ → Frame H → Next H
  invoke p ctx op position f =
      let height = length f.stack in
      let (status, left) = check_requirements op f.gas_left height in
      let new_height = pos_part (pos height +ℤ (traits op).stack_height_change) in
      let charged = record f { gas_left = left } in
      if is_success status
      then call_core (impl p ctx op) position new_height charged
      else stopped (set_status status charged)

  -- One round of the loop: the `switch` over the opcode at the position.
  pub step : Platform H → Context → Option ℕ → ℕ → Frame H → Next H
  step p ctx none position f = faulted
  step p ctx (some byte) position f = elim (decode byte) [
    | none ↦ stopped (set_status undefined_instruction f)
    | some op ↦ invoke p ctx op position f
  ]

abbrev pub no_tx : TxContext
no_tx = record {
  tx_gas_price = replicate 32 0;
  tx_origin = replicate 20 0;
  block_coinbase = replicate 20 0;
  block_number = pos 0;
  block_timestamp = pos 0;
  block_gas_limit = pos 0;
  block_prev_randao = replicate 32 0;
  chain_id = replicate 32 0;
  block_base_fee = replicate 32 0;
}

-- Each round but the last uses up gas: `msg.gas + 1` rounds suffice.
abbrev pub enough_rounds : Message → ℕ
enough_rounds msg = suc (pos_part msg.gas)

-- `finished` with the last frame; `unfinished` where the rounds given do not suffice.
pub data Run (H : Type 0) : Type 0 where
  finished : Frame H → Run H
  undefined : Run H
  unfinished : Run H

module _ {H : Type 0} where
  -- The loop of `dispatch`.
  pub dispatch : ℕ → Platform H → Context → ℕ → Frame H → Run H
  unfolding step
  dispatch zero p ctx position f = unfinished
  dispatch (suc rounds) p ctx position f =
      elim (step p ctx (get_elem? ctx.padded_code position) position f) [
        | running next f' ↦ dispatch rounds p ctx next f'
        | stopped f' ↦ finished f'
        | faulted ↦ undefined
      ]

  -- The result from the state that the loop leaves; `none` for an output outside of the memory.
  pub make_result : Frame H → Option CallResult
  make_result f =
      let s = f.state in
      let result : List ℕ → Option CallResult = λ output. some (record {
        status_code = s.status;
        gas_left = if is_success s.status || is_revert s.status then f.gas_left else pos 0;
        gas_refund = if is_success s.status then s.gas_refund else pos 0;
        output = output;
        create_address = replicate 20 0;
      }) in
      if s.output_size == 0 then result [] else elim (load s.memory s.output_offset s.output_size) [
        | none ↦ none
        | some output ↦ result output
      ]

  -- The state that `execute` starts with.
  unfoldable pub start : H → Message → Frame H
  start h msg = record {
    stack = [];
    gas_left = msg.gas;
    state = record {
      gas_refund = pos 0;
      memory = new_memory;
      host = h;
      return_data = [];
      status = success;
      output_offset = 0;
      output_size = 0;
      tx = no_tx;
    };
  }

  pub after_dispatch : Run H → Option (CallResult × H)
  after_dispatch (finished f) = Option.map (λ r. (r, f.state.host)) (make_result f)
  after_dispatch undefined = none
  after_dispatch unfinished = none

  -- The ZVMC function `execute`: the result, and the state of the host.
  pub execute : Platform H → H → Message → List ℕ → Option (CallResult × H)
  unfolding dispatch start make_result after_dispatch
  execute p h msg code =
      after_dispatch (dispatch (enough_rounds msg) p (analyze msg code) 0 (start h msg))
