-- ===== src/Tests/Interpreter.antt =====
-- Runs of the instructions and the Baseline interpreter on concrete input.
use zvmone.Prelude.{
  drop, ℕ, ◌+◌, ◌*◌, ◌≤◌, ◌≡◌, ◌⊎◌, ◌↔◌, refl, arith, true, false, none, some, inl, [], ◌∷◌,
  replicate, get_or, get_elem?, ltb, ◌==◌, if◌then◌else◌,
}
use zvmone.Prelude.Int.{pos, ◌≤ℤ◌, ◌-ℤ◌, ◌+ℤ◌, leb_ℤ}
use zvmone.Uint256.{Uint256, of_uint64, value}
use zvmone.Zvmc
use zvmone.Zvmc.{StatusCode, success, Message, CallResult}
use zvmone.Memory.{max_buffer_size, check_memory, check_memory_copy, grow_memory, grown_capacity}
use zvmone.Memory.Grow.{max_memory, grown_capacity-bounds}
use zvmone.Memory.Gas.{extended, extension_fee, grow_memory_lem}
use zvmone.Memory.Check.{charge, check_memory-charge, check_memory_copy-charge}
use zvmone.Exec.{Frame, ok, with_stack}
use zvmone.Exec.Rules.{Safe}
use zvmone.Opcodes.{op_mulmod, op_dup, decode, opcode_byte}
use zvmone.Opcodes.Ranges.{in_range}
use zvmone.Opcodes.Bytes.{decode_iff}
use zvmone.Baseline.Pushes.{push-number_at}
use zvmone.Baseline.Pushes.Numbers.{number_at}
use zvmone.Traits.{traits, gas_costs}
use zvmone.Instructions.Impl.{impl}
use zvmone.Instructions.Bitwise.{byte}
use zvmone.Instructions.Bytes.{byte_number, byte-byte_number}
use zvmone.Instructions.Flow.{jump_impl, push}
use zvmone.Instructions.Buffers.{return_impl}
use zvmone.Instructions.Storage.{sstore}
use zvmone.Instructions.Calls.{by_call, call_gas, call_charged}
use zvmone.Instructions.Safety.Done.{IsDone, Finishes}
use zvmone.Instructions.Safety.Storage.{sstore-Safe}
use zvmone.Instructions.Safety.Calls.{call_gas-bounds, call_charged-Safe}
use zvmone.Instructions.Safety.Flow.{IsEnd, return-Safe}
use zvmone.Instructions.Safety.Table.{impl-Conforms}
use zvmone.Instructions.Safety.Conforming.{IsContext, Conforms}
use zvmone.Baseline.{
  start, step, dispatch, finished, execute, check_requirements, stack_limit, set_status,
}
use zvmone.Baseline.Analysis.{analyze, pad_code, analyze_jumpdests}
use zvmone.Baseline.Analysis.Padding.{analyze-IsContext}
use zvmone.Baseline.Analysis.Boundary.{Reaches, byte_at, analyze_jumpdests-Reaches}
use zvmone.Baseline.Requirements.{check_requirements-success}
use zvmone.Baseline.Rounds.{step-IsNext}
use zvmone.Baseline.Invariant.{IsNext, IsFinal}
use zvmone.Baseline.Execution.{IsResult, execute-IsResult, dispatch-finished}
use zvmone.Baseline.Jumps.{IsJumpdest, jump_impl-IsJumpdest}
use zvmone.Tests.{
  intx, platform, platform-IsPlatform, message, jump_code, two_words, two_words-IsMemory,
  host_state, first, frame, context, context-IsContext, start-IsRound_here, frame-IsFrame,
}

execute-IsResult_example :
    (r : CallResult) × (h : ℕ) × (execute platform host_state message jump_code ≡ some (r, h))
    × IsResult message.gas r
execute-IsResult_example =
    execute-IsResult platform platform-IsPlatform host_state message jump_code (omega arith)
      (omega arith) (omega arith)

step-IsNext_example :
    IsNext context first.gas_left (step platform context (get_elem? context.padded_code 0) 0 first)
step-IsNext_example =
    step-IsNext platform platform-IsPlatform context context-IsContext 0 first start-IsRound_here

dispatch-finished_example :
    (f : Frame ℕ) × (dispatch 101 platform context 0 first ≡ finished f) × IsFinal first.gas_left f
unfolding start
dispatch-finished_example =
    dispatch-finished platform platform-IsPlatform context 101 0 first context-IsContext
      start-IsRound_here (omega arith)

impl-Conforms_example : Conforms context (op_dup 16) (impl platform context (op_dup 16))
impl-Conforms_example =
    impl-Conforms platform platform-IsPlatform context context-IsContext (op_dup 16) refl

analyze_jumpdests-Reaches_example :
    (get_or (analyze_jumpdests jump_code) 4 false ≡ true)
    ↔ (Reaches jump_code 0 4 × (byte_at jump_code 4 ≡ 0x5b))
analyze_jumpdests-Reaches_example = analyze_jumpdests-Reaches jump_code 4 (omega arith)

jump_impl-IsJumpdest_example :
    (IsJumpdest jump_code (value (of_uint64 4))
      × (jump_impl platform (analyze message jump_code) (of_uint64 4) frame
          ≡ ok (some (value (of_uint64 4))) frame))
    ⊎ (¬ IsJumpdest jump_code (value (of_uint64 4))
        × (jump_impl platform (analyze message jump_code) (of_uint64 4) frame
            ≡ ok none (set_status Zvmc.bad_jump_destination frame)))
jump_impl-IsJumpdest_example =
    jump_impl-IsJumpdest platform platform-IsPlatform message jump_code (of_uint64 4) frame
      (omega arith) (omega arith)

check_requirements-success_example : ((check_requirements op_mulmod (pos 8) 3).0 ≡ success) ↔ (
    ((traits op_mulmod).stack_height_required ≤ 3)
    × (pos 3 +ℤ (traits op_mulmod).stack_height_change ≤ℤ pos stack_limit)
    × (pos (gas_costs op_mulmod) ≤ℤ pos 8))
check_requirements-success_example = check_requirements-success op_mulmod (pos 8) 3 (omega arith)

check_memory-charge_example :
    check_memory (pos 100) two_words (of_uint64 70) 32
    ≡ some (
        if ltb max_buffer_size (value (of_uint64 70))
        then (false, pos 100, two_words)
        else charge (pos 100) two_words (value (of_uint64 70) + 32))
check_memory-charge_example =
    check_memory-charge (pos 100) two_words (of_uint64 70) 32 two_words-IsMemory (omega arith)
      (omega arith)

check_memory_copy-charge_example :
    check_memory_copy (pos 100) two_words (of_uint64 70) (of_uint64 3)
    ≡ some (
        if value (of_uint64 3) == 0
        then (true, pos 100, two_words)
        else if ltb max_buffer_size (value (of_uint64 3))
        then (false, pos 100, two_words)
        else if ltb max_buffer_size (value (of_uint64 70))
        then (false, pos 100, two_words)
        else charge (pos 100) two_words (value (of_uint64 70) + value (of_uint64 3)))
check_memory_copy-charge_example =
    check_memory_copy-charge (pos 100) two_words (of_uint64 70) (of_uint64 3) two_words-IsMemory
      (omega arith)

grow_memory_lem_example : grow_memory (pos 100) two_words 65 ≡ (
    let left = pos 100 -ℤ pos (extension_fee two_words 65) in
    if leb_ℤ (pos 0) left then some (left, extended two_words 65) else some (left, two_words))
grow_memory_lem_example =
    grow_memory_lem (pos 100) two_words 65 two_words-IsMemory (omega arith) (omega arith)

sstore-Safe_example :
    Safe
      (λ u f'. IsDone 1 (frame.gas_left -ℤ pos 100) f' × (f'.stack ≡ drop 2 frame.stack))
      (sstore platform context frame)
sstore-Safe_example = sstore-Safe platform context 1 frame frame-IsFrame (omega arith)

call_charged-Safe_example : Finishes 3 frame (
    call_charged platform context by_call
      (of_uint64 500)
      (replicate 20 0)
      (of_uint64 1)
      []
      (of_uint64 0)
      (of_uint64 0)
      (with_stack (of_uint64 0 ∷ of_uint64 2 ∷ of_uint64 3 ∷ []) frame))
call_charged-Safe_example =
    call_charged-Safe platform platform-IsPlatform context by_call (of_uint64 500) (replicate 20 0)
      (of_uint64 1) [] (of_uint64 0) (of_uint64 0) 2 (of_uint64 0) (of_uint64 2 ∷ of_uint64 3 ∷ [])
      frame frame-IsFrame (omega arith) (inl refl)

call_gas-bounds_example :
    (pos 0 ≤ℤ call_gas intx (of_uint64 500) (pos 640))
    × (call_gas intx (of_uint64 500) (pos 640) ≤ℤ pos 640)
call_gas-bounds_example =
    call_gas-bounds platform platform-IsPlatform context (of_uint64 500) (pos 640) (omega arith)

decode_iff_example :
    (decode 0x8f ≡ some (op_dup 16))
    ↔ ((in_range (op_dup 16) ≡ true) × (opcode_byte (op_dup 16) ≡ 0x8f))
decode_iff_example = decode_iff 0x8f (op_dup 16)

-- PUSH2 at the end of the code, with one byte of data missing.
push-number_at_example :
    (x : Uint256) × (push platform (analyze message (0x61 ∷ 7 ∷ [])) 2 0 frame
      ≡ ok (some (0 + (2 + 1))) (with_stack (x ∷ frame.stack) frame))
    × (value x ≡ number_at (analyze message (0x61 ∷ 7 ∷ [])).padded_code 1 2)
unfolding analyze pad_code
push-number_at_example =
    push-number_at platform platform-IsPlatform (analyze message (0x61 ∷ 7 ∷ [])) 2 0 frame
      (omega arith) (omega arith) (omega arith)

analyze-IsContext_example : IsContext (analyze message jump_code)
analyze-IsContext_example = analyze-IsContext message jump_code (omega arith) (omega arith)

grown_capacity-bounds_example :
    (9000 ≤ grown_capacity 4096 9000)
    × (4096 ≤ grown_capacity 4096 9000)
    × (grown_capacity 4096 9000 ≤ 4 * max_memory)
grown_capacity-bounds_example =
    grown_capacity-bounds 4096 9000 (omega arith) (omega arith) (omega arith)

return-Safe_example : Safe (IsEnd frame.gas_left) (return_impl platform context success frame)
return-Safe_example = return-Safe platform context success frame frame-IsFrame refl (omega arith)

byte-byte_number_example :
    byte platform (with_stack (of_uint64 30 ∷ of_uint64 0x1234 ∷ []) frame)
    ≡ ok tt (
        with_stack
          (of_uint64 (byte_number (value (of_uint64 0x1234)) (value (of_uint64 30))) ∷ [])
          frame)
byte-byte_number_example =
    byte-byte_number platform platform-IsPlatform (of_uint64 30) (of_uint64 0x1234) [] frame
      (record {
        fits0 = omega arith;
        fits1 = omega arith;
        fits2 = omega arith;
        fits3 = omega arith;
      })
