-- ===== src/Advanced/Safety/Rounds.antt =====
-- A round of the loop of lib/zvmone/advanced_execution.cpp on the analysis of a code.
use zvmone.Prelude.{
  ℕ, zero, suc, ◌+◌, ◌^◌, ◌<◌, ◌≡◌, refl, sym, true, inl, inr, Bool-cases, some, List, [], ◌∷◌,
  arith, length, drop, get_elem?, leb,
}
use mathlib.Core.Path.{subst}
use zvmone.Prelude.Int.{ℤ, pos}
use zvmone.Zvmc.{Message, success, undefined_instruction}
use zvmone.Platform.{Platform, IsPlatform}
use zvmone.Exec.{Context}
use zvmone.Exec.Rules.{IsFrame}
use zvmone.Opcodes.{Opcode, op_stop, op_gas, op_pc, op_push, op_jump, op_jumpi}
use zvmone.Opcodes.Ranges.{in_range}
use zvmone.Traits.{traits}
use zvmone.Instructions.Impl.{impl}
use zvmone.Instructions.Safety.Table.{impl-Conforms}
use zvmone.Instructions.Safety.Conforming.{Conforms}
use zvmone.Instructions.Flow.{stop_impl}
use zvmone.Baseline.Analysis
use zvmone.Baseline.Analysis.Padding.{analyze-IsContext}
use zvmone.Baseline.Invariant.{end-IsFinal, refused-IsFinal}
use zvmone.Advanced.Table.{fn_op, instruction_implementations}
use zvmone.Advanced.Analysis.{BlockInfo, Instruction, AdvancedCodeAnalysis, switch_case, push_value}
use zvmone.Advanced.Blocks.{Chain, last, opens, forks, stuck, inner, HasArgument, is_inner}
use zvmone.Advanced.Views
use zvmone.Advanced.Safety.{InBlock, IsAt, within, Entering, IsNext, ends}
use zvmone.Advanced.Safety.Blocks.{Begun, opx_beginblock-Begun, required-InBlock, drop-get_elem?}
use zvmone.Advanced.Safety.Steps.{IsInner, pushed-IsNext, op_wrapped-IsNext, op_corrected-IsNext}
use zvmone.Advanced.Safety.Jumps.{TargetsOpen, op_jump-IsNext, op_jumpi-IsNext, fallen-IsNext}
use zvmone.Advanced.Execution.{
  AdvancedState, call_fn, step, advanced_context, op_wrapped, op_core, op_push_full,
}

get_elem?-within :
    {A : Type 0} (xs : List A) (k : ℕ) → k < length xs → (x : A) × (get_elem? xs k ≡ some x)
get_elem?-within [] k h = absurd (omega arith)
get_elem?-within (x ∷ xs) zero h = (x, refl)
get_elem?-within (x ∷ xs) (suc k) h = get_elem?-within xs k (omega arith)

pc_change : (traits op_pc).stack_height_change ≡ pos 1
unfolding traits
pc_change = refl

gas_change : (traits op_gas).stack_height_change ≡ pos 1
unfolding traits
gas_change = refl

push_change : (n : ℕ) → (traits (op_push n)).stack_height_change ≡ pos 1
unfolding traits
push_change n = refl

jump_required : (traits op_jump).stack_height_required ≡ 1
unfolding traits
jump_required = refl

jumpi_required : (traits op_jumpi).stack_height_required ≡ 2
unfolding traits
jumpi_required = refl

module _ {H : Type 0} (p : Platform H) (w : IsPlatform p) (msg : Message) (code : List ℕ)
    (small : length code < 2 ^ 63) (input : length msg.input < 2 ^ 63) (a : AdvancedCodeAnalysis)
    (open_targets : TargetsOpen a) where
  abbrev ctx : Context
  ctx = advanced_context msg code

  conforms :
      (op : Opcode)
      → in_range op ≡ true
      → Conforms (Analysis.analyze msg code) op (impl p (Analysis.analyze msg code) op)
  conforms op r =
      impl-Conforms p w (Analysis.analyze msg code) (analyze-IsContext msg code small input) op r

  push_full-IsNext :
      (i n : ℕ) (b : BlockInfo) (c : ℤ) (st : AdvancedState H) (x : Instruction) (k : ℕ)
      → IsInner a i (op_push n) b c st
      → x.arg ≡ push_value k
      → k < length a.push_values
      → IsNext a i st.frame.gas_left (op_push_full a x i st)
  unfolding op_push_full
  push_full-IsNext i n b c st x k v e le =
      let (word, found) = get_elem?-within a.push_values k le in
      rw (e, op_push_full, found) (pushed-IsNext a i (op_push n) b c st v word (push_change n))

  call_fn_inner-IsNext :
      (i : ℕ) (op : Opcode) (b : BlockInfo) (c : ℤ) (st : AdvancedState H) (x : Instruction)
      → in_range op ≡ true
      → is_inner op ≡ true
      → IsInner a i op b c st
      → HasArgument (length a.push_values) b (switch_case (some op)) x.arg
      → Views.View p msg code op
      → IsNext a i st.frame.gas_left (call_fn p ctx a (instruction_implementations op) x i st)
  unfolding call_fn instruction_implementations switch_case
  call_fn_inner-IsNext i op b c st x r h v arg (Views.wraps e same core) =
      subst (λ fn. IsNext a i st.frame.gas_left (call_fn p ctx a fn x i st)) (sym e)
        (op_wrapped-IsNext a i op b c st v p msg code same core (conforms op r))
  call_fn_inner-IsNext i op b c st x r h v arg (Views.corrects e same case ret) =
      let (k, is_number, le) = (rw case at arg) in
      subst (λ q. IsNext a i st.frame.gas_left q) (sym (e a x i st))
        (op_corrected-IsNext a i op b c st v p msg code x k is_number le same ret (conforms op r))
  call_fn_inner-IsNext i op b c st x r h v arg Views.reads_pc =
      let (k, e) = arg in rw e (pushed-IsNext a i op b c st v _ pc_change)
  call_fn_inner-IsNext i op b c st x r h v arg Views.reads_gas =
      let (k, e, le) = arg in rw e (pushed-IsNext a i op b c st v _ gas_change)
  call_fn_inner-IsNext i op b c st x r h v arg Views.jumps =
      let k = required-InBlock b c op st v.in_block v.covered in
      op_jump-IsNext p a i open_targets st v.in_block.frame_ok (omega (arith, jump_required))
        v.in_block.stack_inside
  call_fn_inner-IsNext i op b c st x r h v arg Views.forks = absurd cc
  call_fn_inner-IsNext i op b c st x r h v arg Views.starts = absurd cc
  call_fn_inner-IsNext i op b c st x r h v arg (Views.pushes n) = elim (Bool-cases (leb n 8)) [
    | inl few ↦
        let (value, e) = (rw few at arg) in
        rw (few, e) (pushed-IsNext a i op b c st v _ (push_change n))
    | inr many ↦
        let (k, e, le) = (rw many at arg) in rw many (push_full-IsNext i n b c st x k v e le)
  ]

  stop-IsNext :
      (i : ℕ) (st : AdvancedState H) (x : Instruction)
      → IsFrame st.frame
      → IsNext a i st.frame.gas_left (call_fn p ctx a (fn_op op_stop) x i st)
  unfolding call_fn op_wrapped op_core impl stop_impl
  stop-IsNext i st x v = ends (
      end-IsFinal success st.frame.gas_left st.frame.gas_left st.frame (ground arith) (omega arith))

  call_fn-IsNext :
      (i : ℕ) (b : BlockInfo) (c : ℤ) (st : AdvancedState H) (x : Instruction)
      (xs : List Instruction)
      → drop (i + 1) a.instrs ≡ xs
      → Chain (length a.push_values) b c (x ∷ xs)
      → InBlock b c st
      → IsNext a i st.frame.gas_left (call_fn p ctx a x.fn x i st)
  unfolding call_fn
  call_fn-IsNext i b c st x [] later (last e) v =
      subst (λ fn. IsNext a i st.frame.gas_left (call_fn p ctx a fn x i st)) (sym e)
        (stop-IsNext i st x v.frame_ok)
  call_fn-IsNext i b c st x xs later (opens e arg cost ch) v = rw e (
      fallen-IsNext p a i open_targets _ st.frame.gas_left _
        (opx_beginblock-Begun a i x _ xs st arg later ch v.frame_ok v.stack_inside))
  call_fn-IsNext i b c st x xs later (forks e arg k ch) v =
      let h = required-InBlock b c op_jumpi st v k in
      rw e (
        op_jumpi-IsNext p a i open_targets x _ xs st arg later ch v.frame_ok
          (omega (arith, jumpi_required)) v.stack_inside)
  call_fn-IsNext i b c st x xs later (stuck e ch) v = rw e (
      ends (
        refused-IsFinal undefined_instruction st.frame.gas_left st.frame.gas_left st.frame refl
          v.frame_ok))
  call_fn-IsNext i b c st x xs later (inner op r h e arg k ch) v =
      subst (λ fn. IsNext a i st.frame.gas_left (call_fn p ctx a fn x i st)) (sym e)
        (call_fn_inner-IsNext i op b c st x r h
          (record { in_block = v; covered = k; later = xs; later_found = later; later_chain = ch })
          arg (Views.view p msg code op))

  -- A round from the loop's invariant.
  pub step-IsNext :
      (i : ℕ) (st : AdvancedState H)
      → IsAt a i st
      → IsNext a i st.frame.gas_left (step p ctx a i st)
  unfolding step
  step-IsNext i st (within {xs = []} e ch v) = elim ch [ ]
  step-IsNext i st (within {b = b} {c = c} {xs = x ∷ xs} e ch v) =
      let at = drop-get_elem? a.instrs xs x i e in
      rw (step, at.0) (call_fn-IsNext i b c st x xs at.1 ch v)

  -- A round that begins a block.
  pub step-Begun :
      (i : ℕ) (st : AdvancedState H) (e : Entering a i st)
      → Begun a i e.its_block st.frame.gas_left (step p ctx a i st)
  unfolding step call_fn
  step-Begun i st e =
      let at = drop-get_elem? a.instrs e.others e.first i e.found in
      rw (step, at.0, e.begins)
        (opx_beginblock-Begun a i e.first e.its_block e.others st e.its_arg at.1 e.its_chain
          e.enters_frame e.enters_stack)
