-- ===== src/Advanced/Safety/Blocks.antt =====
-- BEGINBLOCK and what it grants to the block's instructions
-- (lib/zvmone/advanced_instructions.cpp).
use zvmone.Prelude.{
  ℕ, zero, suc, ◌+◌, ◌≤◌, ◌≡◌, refl, ap, inl, inr, Bool-cases, some, List, [], ◌∷◌, arith, length,
  drop, get_elem?,
}
use zvmone.Prelude.Int.{ℤ, pos, ◌+ℤ◌, ◌-ℤ◌, ◌≤ℤ◌, ltb_ℤ, pos_part, neg_part, int_laws}
use zvmone.Zvmc.{out_of_gas, stack_underflow, stack_overflow}
use zvmone.Exec.{Frame}
use zvmone.Exec.Rules.{IsFrame}
use zvmone.Opcodes.{Opcode}
use zvmone.Traits.{traits}
use zvmone.Baseline.{stack_limit}
use zvmone.Baseline.Invariant.{IsFinal, refused-IsFinal, spent-IsFrame}
use zvmone.Advanced.Analysis.{BlockInfo, block, Instruction, AdvancedCodeAnalysis, clamp_int16}
use zvmone.Advanced.Blocks.{Chain, Covered}
use zvmone.Advanced.Safety.{InBlock, IsAt, within}
use zvmone.Advanced.Execution.{AdvancedState, Pointer, at, null, opx_beginblock, with_frame}

unclamp : (x y : ℤ) (n : ℕ) → clamp_int16 x ≤ℤ y → y ≤ℤ pos n → n ≤ stack_limit → x ≤ℤ y
unclamp x y n h l b = ground arith

pub drop-get_elem? :
    (xs ys : List Instruction) (x : Instruction) (i : ℕ)
    → drop i xs ≡ x ∷ ys
    → (get_elem? xs i ≡ some x) × (drop (i + 1) xs ≡ ys)
drop-get_elem? [] ys x zero e = absurd cc
drop-get_elem? [] ys x (suc i) e = absurd cc
drop-get_elem? (z ∷ zs) ys x zero e = (cc, cc)
drop-get_elem? (z ∷ zs) ys x (suc i) e =
    let ih = drop-get_elem? zs ys x i e in
    let same : suc i + 1 ≡ suc (i + 1) = omega arith in (ih.0, rw same ih.1)

-- The two parts of an integer that is known.
pos_parts : (h : ℕ) (z : ℤ) → pos h ≡ z → (h ≡ pos_part z) × (0 ≡ neg_part z)
pos_parts h z e = (ap pos_part e, ap neg_part e)

required_lem :
    (b : BlockInfo) (c : ℤ) (r h start : ℕ)
    → clamp_int16 (pos r -ℤ c) ≤ℤ b.stack_req
    → b.stack_req ≤ℤ pos start
    → start ≤ stack_limit
    → pos h ≡ pos start +ℤ c
    → r ≤ h
required_lem b c r h start k l m e =
    let u = unclamp (pos r -ℤ c) b.stack_req start k l m in
    let at = pos_parts h _ e in omega int_laws

limit_lem :
    (b : BlockInfo) (c d : ℤ) (h h' start : ℕ)
    → clamp_int16 (c +ℤ d) ≤ℤ b.stack_max_growth
    → pos start +ℤ b.stack_max_growth ≤ℤ pos stack_limit
    → pos h ≡ pos start +ℤ c
    → pos h' ≡ pos h +ℤ d
    → h' ≤ stack_limit
limit_lem b c d h h' start k l e e' =
    let g : b.stack_max_growth ≤ℤ pos stack_limit = omega int_laws in
    let u = unclamp (c +ℤ d) b.stack_max_growth stack_limit k g (omega arith) in
    let at = pos_parts h _ e in let at' = pos_parts h' _ e' in omega int_laws

module _ {H : Type 0} where
  -- In a block the stack holds what the next instruction requires.
  pub required-InBlock :
      (b : BlockInfo) (c : ℤ) (op : Opcode) (st : AdvancedState H)
      → InBlock b c st
      → Covered b c op
      → (traits op).stack_height_required ≤ length st.frame.stack
  required-InBlock b c op st v k =
      required_lem b c _ (length st.frame.stack) v.start_height k.0 v.enough v.start_inside v.height

  -- After it, the state is in the block.
  pub adjusted-InBlock :
      (b : BlockInfo) (c : ℤ) (op : Opcode) (st : AdvancedState H) (f : Frame H)
      → InBlock b c st
      → Covered b c op
      → IsFrame f
      → pos (length f.stack) ≡ pos (length st.frame.stack) +ℤ (traits op).stack_height_change
      → InBlock b (c +ℤ (traits op).stack_height_change) (with_frame f st)
  adjusted-InBlock b c op st f v k w e = record {
    frame_ok = w;
    cost_kept = v.cost_kept;
    start_height = v.start_height;
    height =
        (let at = pos_parts (length st.frame.stack) _ v.height in
          let at' = pos_parts (length f.stack) _ e in omega int_laws);
    enough = v.enough;
    room = v.room;
    start_inside = v.start_inside;
    stack_inside =
        limit_lem b c (traits op).stack_height_change (length st.frame.stack) (length f.stack)
          v.start_height k.1 v.room v.height e;
  }

  -- What BEGINBLOCK leads to: a refusal, or the block with its cost charged.
  pub data Begun (a : AdvancedCodeAnalysis) (i : ℕ) (b : BlockInfo) (g : ℤ)
      : Pointer H → Type 0 where
    refused : {st : AdvancedState H} → IsFinal g st.frame → Begun a i b g (null st)
    begun :
        {st : AdvancedState H}
        → IsAt a (i + 1) st
        → pos 0 ≤ℤ st.frame.gas_left
        → st.frame.gas_left ≡ g -ℤ pos b.gas_cost
        → Begun a i b g (at (i + 1) st)

  pub opx_beginblock-Begun :
      (a : AdvancedCodeAnalysis) (i : ℕ) (x : Instruction) (b : BlockInfo) (xs : List Instruction)
      (st : AdvancedState H)
      → x.arg ≡ block b
      → drop (i + 1) a.instrs ≡ xs
      → Chain (length a.push_values) b (pos 0) xs
      → IsFrame st.frame
      → length st.frame.stack ≤ stack_limit
      → Begun a i b st.frame.gas_left (opx_beginblock x i st)
  unfolding opx_beginblock
  opx_beginblock-Begun a i x b xs st arg e ch v l =
      let g = st.frame.gas_left in
      let left = g -ℤ pos b.gas_cost in
      let size = pos (length st.frame.stack) in
      rw arg (elim (Bool-cases (ltb_ℤ left (pos 0))) [
        | inl poor ↦ rw poor (refused (refused-IsFinal out_of_gas g left st.frame refl v))
        | inr paid ↦ rw paid (elim (Bool-cases (ltb_ℤ size b.stack_req)) [
          | inl short ↦ rw short (refused (refused-IsFinal stack_underflow g left st.frame refl v))
          | inr deep ↦
              rw deep (elim (Bool-cases (ltb_ℤ (pos stack_limit) (size +ℤ b.stack_max_growth))) [
                | inl full ↦
                    rw full (refused (refused-IsFinal stack_overflow g left st.frame refl v))
                | inr roomy ↦
                    let positive : pos 0 ≤ℤ left = ground arith in
                    let cost : pos b.gas_cost ≤ℤ g = omega int_laws in
                    rw roomy (
                      begun
                        (within e ch (record {
                          frame_ok = spent-IsFrame st.frame b.gas_cost v cost;
                          cost_kept = refl;
                          start_height = length st.frame.stack;
                          height = omega int_laws;
                          enough = ground arith;
                          room = ground arith;
                          start_inside = l;
                          stack_inside = l;
                        }))
                        positive refl)
              ])
        ])
      ])
