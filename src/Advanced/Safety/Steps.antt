-- ===== src/Advanced/Safety/Steps.antt =====
-- The instructions of lib/zvmone/advanced_instructions.cpp that stay in their block.
use zvmone.Prelude.{
  ℕ, ◌+◌, ◌≤◌, ◌≡◌, refl, sym, inl, inr, Bool-cases, List, ◌∷◌, arith, length, drop,
}
use mathlib.Core.Path.{subst}
use zvmone.Prelude.Int.{ℤ, pos, ◌+ℤ◌, ◌-ℤ◌, ◌≤ℤ◌, ltb_ℤ, int_laws}
use zvmone.Uint256.{Uint256}
use zvmone.Zvmc.{StatusCode, out_of_gas, Message}
use zvmone.Platform.{Platform}
use zvmone.Exec.{Frame, Outcome, ok, exit, fault, with_stack}
use zvmone.Exec.Rules.{IsFrame, Safe, goes, exits}
use zvmone.Opcodes.{Opcode}
use zvmone.Traits.{traits}
use zvmone.Instructions.Impl.{CoreFn, returns, moves, terminates, impl}
use zvmone.Instructions.Safety.Conforming.{Conforms}
use zvmone.Baseline.{set_status}
use zvmone.Baseline.Analysis
use zvmone.Baseline.Invariant.{IsFinal, exit-IsFinal, end-IsFinal, refused-IsFinal}
use zvmone.Advanced.Analysis.{BlockInfo, number, Instruction, AdvancedCodeAnalysis}
use zvmone.Advanced.Blocks.{Chain, Covered}
use zvmone.Advanced.Views.{IsCore, Returns, SameImpl}
use zvmone.Advanced.Safety.{InBlock, within, IsNext, goes_on, ends, IsAdjusted, run_impl-Safe}
use zvmone.Advanced.Safety.Blocks.{required-InBlock, adjusted-InBlock}
use zvmone.Advanced.Execution.{
  AdvancedState, Pointer, at, after, with_frame, with_gas, exit_with, op_core, op_wrapped,
  op_corrected, run_impl, advanced_context,
}

module _ {H : Type 0} where
  pub after-IsNext :
      {A : Type 0} {Q : A → Frame H → Type 0} (a : AdvancedCodeAnalysis) (i : ℕ) (g : ℤ)
      (o : Outcome H A) (k : A → Frame H → Pointer H) (st : AdvancedState H)
      → Safe Q o
      → ((x : A) (f : Frame H) → Q x f → IsNext a i g (k x f))
      → IsNext a i g (after o k st)
  after-IsNext a i g (ok x f) k st (goes q) h = h x f q
  after-IsNext a i g (exit s f) k st (exits e) h = ends (exit-IsFinal s g f e)
  after-IsNext a i g fault k st q h = elim q [ ]

  pub refused-IsNext :
      (a : AdvancedCodeAnalysis) (i : ℕ) (g : ℤ) (s : StatusCode) (f : Frame H)
      (st : AdvancedState H)
      → IsFinal g (set_status s f)
      → IsNext a i g (exit_with s (with_frame f st))
  refused-IsNext a i g s f st v = ends v

-- The instruction `i` of the opcode `op`, and what follows it in its block.
pub record IsInner {H : Type 0} (a : AdvancedCodeAnalysis) (i : ℕ) (op : Opcode) (b : BlockInfo)
    (c : ℤ) (st : AdvancedState H) : Type 0 where
  pub in_block : InBlock b c st
  pub covered : Covered b c op
  pub later : List Instruction
  pub later_found : drop (i + 1) a.instrs ≡ later
  pub later_chain : Chain (length a.push_values) b (c +ℤ (traits op).stack_height_change) later

module _ {H : Type 0} (a : AdvancedCodeAnalysis) (i : ℕ) (op : Opcode) (b : BlockInfo) (c : ℤ)
    (st : AdvancedState H) (v : IsInner a i op b c st) where
  pub inner-IsNext :
      (g : ℤ) (f : Frame H)
      → IsFrame f
      → pos (length f.stack) ≡ pos (length st.frame.stack) +ℤ (traits op).stack_height_change
      → f.gas_left ≤ℤ g
      → IsNext a i g (at (i + 1) (with_frame f st))
  inner-IsNext g f w e h =
      goes_on
        (within v.later_found v.later_chain (adjusted-InBlock b c op st f v.in_block v.covered w e))
        h

  -- An instruction that pushes a word.
  pub pushed-IsNext :
      (x : Uint256)
      → (traits op).stack_height_change ≡ pos 1
      → IsNext a i st.frame.gas_left
          (at (i + 1) (with_frame (with_stack (x ∷ st.frame.stack) st.frame) st))
  unfolding ◌+ℤ◌
  pushed-IsNext x e =
      let w = v.in_block.frame_ok in
      inner-IsNext st.frame.gas_left (with_stack (x ∷ st.frame.stack) st.frame) (ground arith)
        (rw e (ground arith)) (omega arith)

  module _ (p : Platform H) (msg : Message) (code : List ℕ) where
    core-IsNext :
        (fn : CoreFn H)
        → IsCore fn
        → Conforms (Analysis.analyze msg code) op fn
        → (Returns fn
            → Safe
                (λ u f'. IsAdjusted op st.frame f')
                (run_impl p (advanced_context msg code) op st.frame))
        → IsNext a i st.frame.gas_left
            (op_core fn (run_impl p (advanced_context msg code) op st.frame) i st)
    unfolding op_core Conforms
    core-IsNext (returns fn) k conforms safe =
        after-IsNext a i st.frame.gas_left _ _ st (safe tt) (λ u f q.
          inner-IsNext st.frame.gas_left f q.adjusted_frame q.adjusted_height q.adjusted_gas)
    core-IsNext (moves fn) k conforms safe = absurd k
    core-IsNext (terminates fn) k conforms safe =
        let w = v.in_block.frame_ok in
        let r = required-InBlock b c op st v.in_block v.covered in
        after-IsNext a i st.frame.gas_left _ _ st (conforms st.frame w r)
          (λ s f q. ends (end-IsFinal s st.frame.gas_left st.frame.gas_left f q (omega arith)))

    pub op_wrapped-IsNext :
        SameImpl p msg code op
        → IsCore (impl p (Analysis.analyze msg code) op)
        → Conforms (Analysis.analyze msg code) op (impl p (Analysis.analyze msg code) op)
        → IsNext a i st.frame.gas_left (op_wrapped p (advanced_context msg code) op i st)
    unfolding op_wrapped
    op_wrapped-IsNext same k conforms =
        subst
          (λ fn.
            IsNext a i st.frame.gas_left
              (op_core fn (run_impl p (advanced_context msg code) op st.frame) i st))
          (sym same)
          (core-IsNext (impl p (Analysis.analyze msg code) op) k conforms (λ r.
            run_impl-Safe p msg code op st.frame same r conforms v.in_block.frame_ok
              (required-InBlock b c op st v.in_block v.covered)))

    -- The gas of the rest of the block is given back for the instruction, and taken again.
    pub op_corrected-IsNext :
        (x : Instruction) (k : ℕ)
        → x.arg ≡ number (pos k)
        → k ≤ b.gas_cost
        → SameImpl p msg code op
        → Returns (impl p (Analysis.analyze msg code) op)
        → Conforms (Analysis.analyze msg code) op (impl p (Analysis.analyze msg code) op)
        → IsNext a i st.frame.gas_left (op_corrected p (advanced_context msg code) op x i st)
    unfolding op_corrected
    op_corrected-IsNext x k arg le same r conforms =
        let w = v.in_block.frame_ok in
        let kept = v.in_block.cost_kept in
        let correction = pos st.current_block_cost -ℤ pos k in
        let given = with_gas (st.frame.gas_left +ℤ correction) st.frame in
        let more : pos 0 ≤ℤ st.frame.gas_left +ℤ correction = omega int_laws in
        let w' : IsFrame given = ground arith in
        let safe =
          run_impl-Safe p msg code op given same r conforms w'
            (required-InBlock b c op st v.in_block v.covered) in
        rw arg (
          after-IsNext a i st.frame.gas_left _ _ st safe (λ u f q.
            let left = f.gas_left -ℤ correction in
            elim (Bool-cases (ltb_ℤ left (pos 0))) [
              | inl poor ↦
                  rw poor (
                    ends
                      (refused-IsFinal out_of_gas st.frame.gas_left left f refl q.adjusted_frame))
              | inr paid ↦
                  let positive : pos 0 ≤ℤ left = ground arith in
                  let w2 = q.adjusted_frame in
                  let below = q.adjusted_gas in
                  rw paid (
                    inner-IsNext st.frame.gas_left (with_gas left f) (ground arith)
                      q.adjusted_height (omega int_laws))
            ]))
