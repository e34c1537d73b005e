-- ===== src/Baseline/Traced.antt =====
-- `execute` of lib/zvmone/baseline.cpp on a VM: the computed-goto loop, the loop with tracing, and the
-- choice between them.
pub mod Cgoto
pub mod Notified
pub mod Transparent
use zvmone.Prelude.{
  ℕ, zero, suc, ◌%◌, ◌^◌, Bool, ◌&&◌, Option, none, some, List, [], ◌∷◌, map, length, get_elem?,
  ltb, if◌then◌else◌,
}
use zvmone.Zvmc.{undefined_instruction, Message, CallResult}
use zvmone.Platform.{Platform}
use zvmone.Exec.{Context, Frame}
use zvmone.Opcodes.{Opcode, decode}
use zvmone.Memory.{size}
use zvmone.Tracing.{
  Stream, Tracer, on_execution_start, on_instruction_start, on_execution_end, notify,
}
use zvmone.Vm.{Vm}
use zvmone.Baseline.{
  Next, running, stopped, faulted, set_status, invoke, step, Run, finished, undefined, unfinished,
  dispatch, enough_rounds, make_result, start,
}
use zvmone.Baseline.Analysis.{analyze}

abbrev pub bytes_from : ℕ → ℕ → List ℕ
bytes_from zero b = []
bytes_from (suc n) b = b ∷ bytes_from n (suc b)

-- The label of each byte: that of an opcode, or TARGET_OP_UNDEFINED.
unfoldable pub cgoto_table : List (Option Opcode)
cgoto_table = map decode (bytes_from 256 0)

module _ {H : Type 0} where
  -- The code at a label.
  unfoldable pub target : Platform H → Context → Option Opcode → ℕ → Frame H → Next H
  target p ctx none position f = stopped (set_status undefined_instruction f)
  target p ctx (some op) position f = invoke p ctx op position f

  -- `goto* cgoto_table[*position.code_it]`
  unfoldable pub jump_to_target : Platform H → Context → Option ℕ → ℕ → Frame H → Next H
  unfolding target cgoto_table
  jump_to_target p ctx none position f = faulted
  jump_to_target p ctx (some byte) position f = elim (get_elem? cgoto_table byte) [
    | none ↦ faulted
    | some label ↦ target p ctx label position f
  ]

  unfoldable pub dispatch_cgoto : ℕ → Platform H → Context → ℕ → Frame H → Run H
  unfolding jump_to_target
  dispatch_cgoto zero p ctx position f = unfinished
  dispatch_cgoto (suc rounds) p ctx position f =
      elim (jump_to_target p ctx (get_elem? ctx.padded_code position) position f) [
        | running next f' ↦ dispatch_cgoto rounds p ctx next f'
        | stopped f' ↦ finished f'
        | faulted ↦ undefined
      ]

  -- `notify_instruction_start`, except for the STOP of the padding. The offset is an uint32_t.
  unfoldable pub trace_round :
      Context → ℕ → Frame H → List Tracer → Stream → Option (List Tracer × Stream)
  unfolding notify on_instruction_start
  trace_round ctx position f ts s =
      let offset = position % 2 ^ 32 in
      if ltb offset (length ctx.original_code)
      then notify (on_instruction_start offset f.stack f.gas_left (size f.state.memory)) ts s
      else some (ts, s)

  -- The loop of `dispatch<true>`, with the tracers and the stream that it leaves.
  unfoldable pub dispatch_traced :
      ℕ → Platform H → Context → ℕ → Frame H → List Tracer → Stream → Run H × List Tracer × Stream
  unfolding step trace_round
  dispatch_traced zero p ctx position f ts s = (unfinished, ts, s)
  dispatch_traced (suc rounds) p ctx position f ts s = elim (trace_round ctx position f ts s) [
    | none ↦ (undefined, ts, s)
    | some (ts', s') ↦ elim (step p ctx (get_elem? ctx.padded_code position) position f) [
      | running next f' ↦ dispatch_traced rounds p ctx next f' ts' s'
      | stopped f' ↦ (finished f', ts', s')
      | faulted ↦ (undefined, ts', s')
    ]
  ]

  -- What `execute` returns and leaves of the tracers and the stream.
  abbrev pub after_result :
      Frame H
      → Option CallResult
      → List Tracer
      → Stream
      → Option (CallResult × H × List Tracer × Stream)
  after_result f none ts s = none
  after_result f (some r) ts s = elim (notify (on_execution_end r) ts s) [
    | none ↦ none
    | some (ts', s') ↦ some (r, f.state.host, ts', s')
  ]

  abbrev pub after_traced :
      Run H × List Tracer × Stream → Option (CallResult × H × List Tracer × Stream)
  after_traced (finished f, ts, s) = after_result f (make_result f) ts s
  after_traced (undefined, ts, s) = none
  after_traced (unfinished, ts, s) = none

  -- The `execute` that takes a VM, a state and an analysis. ZVMONE_CGOTO_SUPPORTED is the first
  -- argument.
  unfoldable pub execute_state :
      Bool
      → Platform H
      → Context
      → ℕ
      → Vm
      → Frame H
      → Stream
      → Option (CallResult × H × List Tracer × Stream)
  unfolding notify on_execution_start dispatch dispatch_cgoto dispatch_traced
  execute_state supported p ctx rounds vm f s = elim vm.tracers [
    | [] ↦
        let run =
          if supported && vm.cgoto
          then dispatch_cgoto rounds p ctx 0 f
          else dispatch rounds p ctx 0 f in
        after_traced (run, [], s)
    | t ∷ ts ↦
        elim (notify (λ t s. some (on_execution_start ctx.msg ctx.original_code t s)) (t ∷ ts) s) [
          | none ↦ none
          | some (ts', s') ↦ after_traced (dispatch_traced rounds p ctx 0 f ts' s')
        ]
  ]

  -- The ZVMC function `execute` on a VM.
  unfoldable pub execute_vm :
      Bool
      → Platform H
      → H
      → Message
      → List ℕ
      → Vm
      → Stream
      → Option (CallResult × H × List Tracer × Stream)
  unfolding execute_state start analyze
  execute_vm supported p h msg code vm s =
      execute_state supported p (analyze msg code) (enough_rounds msg) vm (start h msg) s
