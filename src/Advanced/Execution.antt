-- ===== src/Advanced/Execution.antt =====
-- The instructions and the loop of the Advanced interpreter: lib/zvmone/advanced_instructions.cpp
-- and lib/zvmone/advanced_execution.cpp. The next instruction is an index into `instrs`.
use zvmone.Prelude.{
  ◌%◌, ℕ, zero, suc, ◌+◌, ◌-◌, ◌*◌, ◌%◌, ◌^◌, not, Option, none, some, List, [], length, drop,
  get_elem?, leb, if◌then◌else◌,
}
use zvmone.Prelude.Int.{ℤ, pos, negsuc, ◌+ℤ◌, ◌-ℤ◌, ltb_ℤ, pos_part}
use zvmone.Uint256.{of_uint64}
use zvmone.Zvmc.{
  StatusCode, out_of_gas, undefined_instruction, stack_overflow, stack_underflow,
  bad_jump_destination, Message, CallResult,
}
use zvmone.Platform.{Platform}
use zvmone.Exec.{Context, Frame, Outcome, ok, exit, fault, with_stack, pop_item, push_item, item}
use zvmone.Opcodes.{Opcode, op_sstore}
use zvmone.Traits.{traits}
use zvmone.Instructions.Impl.{CoreFn, returns, moves, terminates, impl}
use zvmone.Baseline.{stack_limit, set_status, make_result, start}
use mathlib.Core.Option
use zvmone.Advanced.Table.{
  InstructionFn, fn_op, fn_sstore, fn_beginblock, fn_jump, fn_jumpi, fn_pc, fn_gas, fn_push_small,
  fn_push_full, fn_undefined, fn_call, fn_create,
}
use zvmone.Advanced.Analysis.{
  number, push_value, small_push_value, block, Instruction, AdvancedCodeAnalysis, analyze,
  find_jumpdest,
}

-- What the Advanced interpreter has besides the state of an instruction.
pub record AdvancedState (H : Type 0) : Type 0 where
  pub frame : Frame H
  pub current_block_cost : ℕ

-- The pointer that an instruction returns, with the state: to an instruction, or null. `undefined`
-- where C++ does not define what happens.
pub data Pointer (H : Type 0) : Type 0 where
  at : ℕ → AdvancedState H → Pointer H
  null : AdvancedState H → Pointer H
  undefined : Pointer H

-- The conversion of an int64_t to uint64_t.
abbrev pub to_uint64 : ℤ → ℕ
to_uint64 (pos n) = n % 2 ^ 64
to_uint64 (negsuc n) = 2 ^ 64 - 1 - n % 2 ^ 64

abbrev pub int_max : ℕ
int_max = 2 ^ 31 - 1

module _ {H : Type 0} where
  abbrev pub with_frame : Frame H → AdvancedState H → AdvancedState H
  with_frame f st = record st { frame = f }

  -- `state.exit(status)`
  abbrev pub exit_with : StatusCode → AdvancedState H → Pointer H
  exit_with s st = null (with_frame (set_status s st.frame) st)

  -- What a step of the monad leaves, followed by `k`.
  abbrev pub after :
      {A : Type 0} → Outcome H A → (A → Frame H → Pointer H) → AdvancedState H → Pointer H
  after o k st = elim o [
    | ok a f ↦ k a f
    | exit s f ↦ exit_with s (with_frame f st)
    | fault ↦ undefined
  ]

  -- `state.stack.top_item += change`, for the stack pointer before the call.
  unfoldable pub adjusted : ℕ → Outcome H (Unit {0}) → Outcome H (Unit {0})
  adjusted new_height (ok u f) =
      if leb new_height (length f.stack)
      then ok tt (with_stack (drop (length f.stack - new_height) f.stack) f)
      else fault
  adjusted new_height (exit s f) = exit s f
  adjusted new_height fault = fault

  unfoldable pub run_core : CoreFn H → ℕ → Frame H → Outcome H (Unit {0})
  unfolding adjusted
  run_core (returns fn) new_height f = adjusted new_height (fn f)
  run_core (moves fn) new_height f = fault
  run_core (terminates fn) new_height f = fault

  -- The overloads of `impl` for the implementations that return nothing or a Result.
  unfoldable pub run_impl : Platform H → Context → Opcode → Frame H → Outcome H (Unit {0})
  run_impl p ctx op f =
      run_core (impl p ctx op) (pos_part (pos (length f.stack) +ℤ (traits op).stack_height_change))
        f

  -- `op<InstrFn>` for each type of `InstrFn`, with what `InstrFn` leaves where it does not end the
  -- execution. Of those that take the position in the code there is no definition.
  unfoldable pub op_core : CoreFn H → Outcome H (Unit {0}) → ℕ → AdvancedState H → Pointer H
  op_core (returns fn) ran i st = after ran (λ u f. at (i + 1) (with_frame f st)) st
  op_core (moves fn) ran i st = undefined
  op_core (terminates fn) ran i st = after (fn st.frame) (λ s f. exit_with s (with_frame f st)) st

  unfoldable pub op_wrapped : Platform H → Context → Opcode → ℕ → AdvancedState H → Pointer H
  unfolding run_impl op_core
  op_wrapped p ctx op i st = op_core (impl p ctx op) (run_impl p ctx op st.frame) i st

  abbrev pub with_gas : ℤ → Frame H → Frame H
  with_gas g f = record f { gas_left = g }

  -- The body of `op_sstore`, `op_call<Op>` and `op_create<Op>`.
  unfoldable pub op_corrected :
      Platform H → Context → Opcode → Instruction → ℕ → AdvancedState H → Pointer H
  unfolding run_impl
  op_corrected p ctx op instr i st = elim instr.arg [
    | number n ↦
        let correction = pos st.current_block_cost -ℤ n in
        after (run_impl p ctx op (with_gas (st.frame.gas_left +ℤ correction) st.frame))
          (λ u f.
            let left = f.gas_left -ℤ correction in
            if ltb_ℤ left (pos 0)
            then exit_with out_of_gas (with_frame (with_gas left f) st)
            else at (i + 1) (with_frame (with_gas left f) st))
          st
    | _ ↦ undefined
  ]

  unfoldable pub opx_beginblock : Instruction → ℕ → AdvancedState H → Pointer H
  opx_beginblock instr i st = elim instr.arg [
    | block b ↦
        let left = st.frame.gas_left -ℤ pos b.gas_cost in
        let charged = with_frame (with_gas left st.frame) st in
        let size = pos (length st.frame.stack) in
        if ltb_ℤ left (pos 0)
        then exit_with out_of_gas charged
        else if ltb_ℤ size b.stack_req
        then exit_with stack_underflow charged
        else if ltb_ℤ (pos stack_limit) (size +ℤ b.stack_max_growth)
        then exit_with stack_overflow charged
        else at (i + 1) (record charged { current_block_cost = b.gas_cost })
    | _ ↦ undefined
  ]

  abbrev pub jump_to : ℤ → AdvancedState H → Pointer H
  jump_to (pos target) st = at target st
  jump_to (negsuc n) st = exit_with bad_jump_destination st

  unfoldable pub op_jump : Platform H → AdvancedCodeAnalysis → AdvancedState H → Pointer H
  op_jump p a st =
      after (pop_item st.frame)
        (λ dst f.
          if p.intx.ult (of_uint64 int_max) dst
          then exit_with bad_jump_destination (with_frame f st)
          else jump_to (find_jumpdest a (dst.w0 % 2 ^ 32)) (with_frame f st))
        st

  -- `state.stack.pop()` on what a pointer comes with.
  abbrev pub pop_behind : Pointer H → Pointer H
  pop_behind (at i st) = after (pop_item st.frame) (λ x f. at i (with_frame f st)) st
  pop_behind (null st) = after (pop_item st.frame) (λ x f. null (with_frame f st)) st
  pop_behind undefined = undefined

  unfoldable pub op_jumpi :
      Platform H → AdvancedCodeAnalysis → Instruction → ℕ → AdvancedState H → Pointer H
  unfolding opx_beginblock op_jump
  op_jumpi p a instr i st =
      after (item 1 st.frame)
        (λ condition f.
          if not (p.intx.equal condition (of_uint64 0))
          then pop_behind (op_jump p a st)
          else after (pop_item st.frame)
              (λ x f1. after (pop_item f1) (λ y f2. opx_beginblock instr i (with_frame f2 st)) st)
              st)
        st

  unfoldable pub op_pc : Platform H → Instruction → ℕ → AdvancedState H → Pointer H
  op_pc p instr i st = elim instr.arg [
    | number n ↦
        after (push_item (p.intx.of_int64 n) st.frame) (λ u f. at (i + 1) (with_frame f st)) st
    | _ ↦ undefined
  ]

  unfoldable pub op_gas : Instruction → ℕ → AdvancedState H → Pointer H
  op_gas instr i st = elim instr.arg [
    | number n ↦
        let correction = pos st.current_block_cost -ℤ n in
        let gas = to_uint64 (st.frame.gas_left +ℤ correction) in
        after (push_item (of_uint64 gas) st.frame) (λ u f. at (i + 1) (with_frame f st)) st
    | _ ↦ undefined
  ]

  unfoldable pub op_push_small : Instruction → ℕ → AdvancedState H → Pointer H
  op_push_small instr i st = elim instr.arg [
    | small_push_value v ↦
        after (push_item (of_uint64 v) st.frame) (λ u f. at (i + 1) (with_frame f st)) st
    | _ ↦ undefined
  ]

  unfoldable pub op_push_full : AdvancedCodeAnalysis → Instruction → ℕ → AdvancedState H → Pointer H
  op_push_full a instr i st = elim instr.arg [
    | push_value n ↦ elim (get_elem? a.push_values n) [
      | none ↦ undefined
      | some x ↦ after (push_item x st.frame) (λ u f. at (i + 1) (with_frame f st)) st
    ]
    | _ ↦ undefined
  ]

  -- `instr->fn(instr, state)`
  unfoldable pub call_fn :
      Platform H
      → Context
      → AdvancedCodeAnalysis
      → InstructionFn
      → Instruction
      → ℕ
      → AdvancedState H
      → Pointer H
  unfolding op_wrapped op_corrected opx_beginblock op_jump op_jumpi op_pc op_gas op_push_small
      op_push_full
  call_fn p ctx a (fn_op op) instr i st = op_wrapped p ctx op i st
  call_fn p ctx a fn_sstore instr i st = op_corrected p ctx op_sstore instr i st
  call_fn p ctx a fn_beginblock instr i st = opx_beginblock instr i st
  call_fn p ctx a fn_jump instr i st = op_jump p a st
  call_fn p ctx a fn_jumpi instr i st = op_jumpi p a instr i st
  call_fn p ctx a fn_pc instr i st = op_pc p instr i st
  call_fn p ctx a fn_gas instr i st = op_gas instr i st
  call_fn p ctx a fn_push_small instr i st = op_push_small instr i st
  call_fn p ctx a fn_push_full instr i st = op_push_full a instr i st
  call_fn p ctx a fn_undefined instr i st = exit_with undefined_instruction st
  call_fn p ctx a (fn_call op) instr i st = op_corrected p ctx op instr i st
  call_fn p ctx a (fn_create op) instr i st = op_corrected p ctx op instr i st

  -- A round of the loop of `execute`.
  unfoldable pub step :
      Platform H → Context → AdvancedCodeAnalysis → ℕ → AdvancedState H → Pointer H
  unfolding call_fn
  step p ctx a i st = elim (get_elem? a.instrs i) [
    | none ↦ undefined
    | some instr ↦ call_fn p ctx a instr.fn instr i st
  ]

-- What an execution only reads. There is no jump map, and the code has no padding.
abbrev pub advanced_context : Message → List ℕ → Context
advanced_context msg code = record {
  msg = msg;
  original_code = code;
  padded_code = [];
  jumpdest_map = [];
}

-- How the loop ends; `unfinished` where the rounds given do not suffice.
pub data AdvancedRun (H : Type 0) : Type 0 where
  ended : AdvancedState H → AdvancedRun H
  broken unfinished : AdvancedRun H

-- A jump leads to a block that costs gas, and a block ends within the instructions.
abbrev pub enough_rounds : Message → AdvancedCodeAnalysis → ℕ
enough_rounds msg a = suc (pos_part msg.gas) * (length a.instrs + 2)

module _ {H : Type 0} where
  -- The loop `while (instr != nullptr)`.
  unfoldable pub run :
      ℕ → Platform H → Context → AdvancedCodeAnalysis → ℕ → AdvancedState H → AdvancedRun H
  unfolding step
  run zero p ctx a i st = unfinished
  run (suc rounds) p ctx a i st = elim (step p ctx a i st) [
    | at next st' ↦ run rounds p ctx a next st'
    | null st' ↦ ended st'
    | undefined ↦ broken
  ]

  abbrev pub start_advanced : H → Message → AdvancedState H
  start_advanced h msg = record { frame = start h msg; current_block_cost = 0 }

  abbrev pub after_run : AdvancedRun H → Option (CallResult × H)
  after_run (ended st) = Option.map (λ r. (r, st.frame.state.host)) (make_result st.frame)
  after_run broken = none
  after_run unfinished = none

  -- The ZVMC function `execute`.
  unfoldable pub execute : Platform H → H → Message → List ℕ → Option (CallResult × H)
  unfolding run analyze start
  execute p h msg code =
      let a = analyze code in
      after_run (run (enough_rounds msg a) p (advanced_context msg code) a 0 (start_advanced h msg))
