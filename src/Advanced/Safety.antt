-- ===== src/Advanced/Safety.antt =====
-- One round of the loop of lib/zvmone/advanced_execution.cpp, with the invariant of the loop.
pub mod Blocks
pub mod Steps
pub mod Jumps
pub mod Rounds
pub mod Runs
use zvmone.Prelude.{
  ℕ, suc, ◌+◌, ◌-◌, ◌≤◌, ◌<◌, ◌≡◌, refl, true, false, some, List, ◌∷◌, arith, length, drop,
  length-drop, leb,
}
use zvmone.Prelude.Int.{ℤ, pos, ◌+ℤ◌, ◌-ℤ◌, ◌≤ℤ◌, pos_part, neg_part, int_laws}
use zvmone.Zvmc.{Message}
use zvmone.Platform.{Platform}
use zvmone.Exec.{Context, Frame, Outcome, ok, exit, fault}
use zvmone.Exec.Rules.{IsFrame, IsExit, Safe, goes, exits}
use zvmone.Opcodes.{Opcode, op_log, op_swap, op_dup}
use zvmone.Opcodes.Ranges.{in_range}
use zvmone.Traits.{traits}
use zvmone.Traits.Bounds.{removed-le}
use zvmone.Instructions.Impl.{CoreFn, returns, moves, terminates, impl}
use zvmone.Instructions.Safety.Done.{IsDone}
use zvmone.Instructions.Safety.Conforming.{Conforms}
use zvmone.Baseline.{stack_limit}
use zvmone.Baseline.Analysis
use zvmone.Baseline.Invariant.{IsFinal, height_after}
use zvmone.Advanced.Table.{fn_beginblock}
use zvmone.Advanced.Analysis.{BlockInfo, block, Instruction, AdvancedCodeAnalysis}
use zvmone.Advanced.Blocks.{Chain, Covered}
use zvmone.Advanced.Views.{Returns, SameImpl}
use zvmone.Advanced.Execution.{
  AdvancedState, Pointer, at, null, undefined, adjusted, run_core, run_impl, advanced_context,
}

module _ {H : Type 0} where
  -- The state in a block, after a change `c` of the stack height.
  pub record InBlock (b : BlockInfo) (c : ℤ) (st : AdvancedState H) : Type 0 where
    pub frame_ok : IsFrame st.frame
    pub cost_kept : st.current_block_cost ≡ b.gas_cost
    pub start_height : ℕ
    pub height : pos (length st.frame.stack) ≡ pos start_height +ℤ c
    pub enough : b.stack_req ≤ℤ pos start_height
    pub room : pos start_height +ℤ b.stack_max_growth ≤ℤ pos stack_limit
    pub start_inside : start_height ≤ stack_limit
    pub stack_inside : length st.frame.stack ≤ stack_limit

  -- The next instruction is in a block, or it begins one.
  pub data IsAt (a : AdvancedCodeAnalysis) (i : ℕ) (st : AdvancedState H) : Type 0 where
    within :
        {b : BlockInfo} {c : ℤ} {xs : List Instruction}
        → drop i a.instrs ≡ xs
        → Chain (length a.push_values) b c xs
        → InBlock b c st
        → IsAt a i st

  pub record Entering (a : AdvancedCodeAnalysis) (i : ℕ) (st : AdvancedState H) : Type 0 where
    pub first : Instruction
    pub others : List Instruction
    pub found : drop i a.instrs ≡ first ∷ others
    pub begins : first.fn ≡ fn_beginblock
    pub its_block : BlockInfo
    pub its_arg : first.arg ≡ block its_block
    pub its_chain : Chain (length a.push_values) its_block (pos 0) others
    pub enters_frame : IsFrame st.frame
    pub enters_stack : length st.frame.stack ≤ stack_limit

  -- What a round of the instruction `i` leads to, from the gas `g`.
  pub data IsNext (a : AdvancedCodeAnalysis) (i : ℕ) (g : ℤ) : Pointer H → Type 0 where
    goes_on :
        {st : AdvancedState H}
        → IsAt a (i + 1) st
        → st.frame.gas_left ≤ℤ g
        → IsNext a i g (at (i + 1) st)
    jumps :
        {j : ℕ} {st : AdvancedState H} (e : Entering a j st)
        → 1 ≤ e.its_block.gas_cost
        → st.frame.gas_left ≤ℤ g
        → IsNext a i g (at j st)
    ends : {st : AdvancedState H} → IsFinal g st.frame → IsNext a i g (null st)

-- What a core instruction leaves, with its stack adjusted.
pub record IsAdjusted {H : Type 0} (op : Opcode) (f f' : Frame H) : Type 0 where
  pub adjusted_frame : IsFrame f'
  pub adjusted_height :
      pos (length f'.stack) ≡ pos (length f.stack) +ℤ (traits op).stack_height_change
  pub adjusted_gas : f'.gas_left ≤ℤ f.gas_left

adjusted_lem :
    (height r : ℕ) (c : ℤ)
    → r ≤ height
    → neg_part c ≤ r
    → pos (pos_part (pos height +ℤ c)) ≡ pos height +ℤ c
unfolding ◌+ℤ◌
adjusted_lem height r c h k = ground arith

module _ {H : Type 0} where
  adjusted-Safe :
      (op : Opcode) (j d : ℕ) (f : Frame H) (o : Outcome H (Unit {0}))
      → (traits op).stack_height_required ≤ length f.stack
      → pos (traits op).stack_height_required +ℤ (traits op).stack_height_change ≤ℤ pos j
      → Safe
          (λ u f'.
            IsDone
              (length f.stack - (traits op).stack_height_required + j)
              (f.gas_left -ℤ pos d)
              f')
          o
      → Safe
          (λ u f'. IsAdjusted op f f')
          (adjusted (pos_part (pos (length f.stack) +ℤ (traits op).stack_height_change)) o)
  unfolding adjusted
  adjusted-Safe op j d f (ok u f') h covers (goes q) =
      let t = traits op in
      let n = pos_part (pos (length f.stack) +ℤ t.stack_height_change) in
      let exact =
        adjusted_lem (length f.stack) t.stack_height_required t.stack_height_change h
          (removed-le op) in
      let fits : n ≤ length f'.stack =
        height_after (length f.stack) _ (length f'.stack) j _ h covers q.height in
      let test : leb n (length f'.stack) ≡ true = ground arith in
      let left : length (drop (length f'.stack - n) f'.stack) ≡ n =
        omega (arith, length-drop (length f'.stack - n) f'.stack) in
      rw test (
        goes (record {
          adjusted_frame = (let b = q.frame in ground arith);
          adjusted_height = rw left exact;
          adjusted_gas = (let e = q.paid in omega int_laws);
        }))
  adjusted-Safe op j d f (exit s f') h covers (exits q) = exits q
  adjusted-Safe op j d f fault h covers q = elim q [ ]

  run_core-Safe :
      (ctx : Context) (op : Opcode) (fn : CoreFn H) (f : Frame H)
      → Returns fn
      → Conforms ctx op fn
      → IsFrame f
      → (traits op).stack_height_required ≤ length f.stack
      → Safe
          (λ u f'. IsAdjusted op f f')
          (run_core fn (pos_part (pos (length f.stack) +ℤ (traits op).stack_height_change)) f)
  unfolding run_core Conforms
  run_core-Safe ctx op (returns fn) f r (j, d, safe, covers, cost) v h =
      adjusted-Safe op j d f (fn f) h covers
        (safe (length f.stack - (traits op).stack_height_required) f v (omega arith))
  run_core-Safe ctx op (moves fn) f r conforms v h = absurd r
  run_core-Safe ctx op (terminates fn) f r conforms v h = absurd r

module _ {H : Type 0} (p : Platform H) (msg : Message) (code : List ℕ) where
  pub run_impl-Safe :
      (op : Opcode) (f : Frame H)
      → SameImpl p msg code op
      → Returns (impl p (Analysis.analyze msg code) op)
      → Conforms (Analysis.analyze msg code) op (impl p (Analysis.analyze msg code) op)
      → IsFrame f
      → (traits op).stack_height_required ≤ length f.stack
      → Safe (λ u f'. IsAdjusted op f f') (run_impl p (advanced_context msg code) op f)
  unfolding run_impl
  run_impl-Safe op f same r conforms v h =
      rw same (run_core-Safe (Analysis.analyze msg code) op _ f r conforms v h)
