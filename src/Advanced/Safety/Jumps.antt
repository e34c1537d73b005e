-- ===== src/Advanced/Safety/Jumps.antt =====
-- JUMP and JUMPI of lib/zvmone/advanced_instructions.cpp.
use zvmone.Prelude.{
  ◌%◌, ◌^◌, ℕ, zero, suc, ◌+◌, ◌*◌, ◌^◌, ◌≤◌, ◌<◌, ◌≡◌, refl, sym, ap, ◌∙◌, true, inl, inr,
  Bool-cases, some, List, [], ◌∷◌, arith, length, drop, get_elem?, leb,
}
use mathlib.Core.Path.{subst}
use zvmone.Prelude.Int.{ℤ, pos, negsuc, ◌≤ℤ◌, int_laws}
use zvmone.Uint256.{Uint256, of_uint64}
use zvmone.Zvmc.{bad_jump_destination}
use zvmone.Platform.{Platform}
use zvmone.Exec.{Frame, with_stack}
use zvmone.Exec.Rules.{IsFrame}
use zvmone.Opcodes.{Opcode, op_stop, op_push}
use zvmone.Baseline.{stack_limit}
use zvmone.Baseline.Invariant.{refused-IsFinal}
use zvmone.Advanced.Table.{fn_beginblock, instruction_implementations}
use zvmone.Advanced.Analysis.{
  BlockInfo, block, Instruction, AdvancedCodeAnalysis, find_jumpdest, analyze,
}
use zvmone.Advanced.Analysis.Find.{analyze-AreJumpdests, found-IsListed}
use zvmone.Advanced.Blocks.{Chain, last, opens, forks, stuck, inner, is_inner}
use zvmone.Advanced.Blocks.Chains.{analyze-Chain}
use zvmone.Advanced.Safety.{IsNext, goes_on, jumps, ends}
use zvmone.Advanced.Safety.Blocks.{Begun, refused, begun, opx_beginblock-Begun}
use zvmone.Advanced.Execution.{
  AdvancedState, Pointer, at, null, undefined, with_frame, jump_to, pop_behind, op_jump, op_jumpi,
  int_max,
}

-- What starts at an instruction that begins a block.
pub record Opened (pushes : ℕ) (xs : List Instruction) (k : ℕ) (x : Instruction) : Type 0 where
  pub opened_block : BlockInfo
  pub opened_rest : List Instruction
  pub opened_found : drop k xs ≡ x ∷ opened_rest
  pub opened_arg : x.arg ≡ block opened_block
  pub opened_cost : 1 ≤ opened_block.gas_cost
  pub opened_chain : Chain pushes opened_block (pos 0) opened_rest

not_beginblock :
    (op : Opcode) → is_inner op ≡ true → instruction_implementations op ≡ fn_beginblock → ⊥
unfolding instruction_implementations
not_beginblock (op_push n) h e = elim (Bool-cases (leb n 8)) [
  | inl small ↦ let z = (rw small at e) in cc
  | inr large ↦ let z = (rw large at e) in cc
]
not_beginblock op_stop h e = cc
not_beginblock _ h e = cc

Opened-later :
    (pushes k : ℕ) (xs : List Instruction) (x y : Instruction)
    → Opened pushes xs k x
    → Opened pushes (y ∷ xs) (suc k) x
Opened-later pushes k xs x y o = record {
  opened_block = o.opened_block;
  opened_rest = o.opened_rest;
  opened_found = o.opened_found;
  opened_arg = o.opened_arg;
  opened_cost = o.opened_cost;
  opened_chain = o.opened_chain;
}

first-Opened :
    (pushes : ℕ) (b : BlockInfo) (c : ℤ) (y : Instruction) (ys : List Instruction)
    → Chain pushes b c (y ∷ ys)
    → y.fn ≡ fn_beginblock
    → Opened pushes (y ∷ ys) 0 y
first-Opened pushes b c y [] (last e) f = absurd (let z = sym e ∙ f in cc)
first-Opened pushes b c y ys (opens e arg cost ch) f = record {
  opened_block = _;
  opened_rest = ys;
  opened_found = refl;
  opened_arg = arg;
  opened_cost = cost;
  opened_chain = ch;
}
first-Opened pushes b c y ys (forks e arg k ch) f = absurd (let z = sym e ∙ f in cc)
first-Opened pushes b c y ys (stuck e ch) f = absurd (let z = sym e ∙ f in cc)
first-Opened pushes b c y ys (inner op r h e arg k ch) f = absurd (not_beginblock op h (sym e ∙ f))

Chain-Opened :
    (pushes : ℕ) (xs : List Instruction) (k : ℕ) (x : Instruction) (b : BlockInfo) (c : ℤ)
    → Chain pushes b c xs
    → get_elem? xs k ≡ some x
    → x.fn ≡ fn_beginblock
    → Opened pushes xs k x
Chain-Opened pushes [] k x b c ch e f = absurd cc
Chain-Opened pushes (y ∷ ys) zero x b c ch e f =
    let same : y ≡ x = cc in
    subst (λ z. Opened pushes (y ∷ ys) 0 z) same
      (first-Opened pushes b c y ys ch (ap (λ z. z.fn) same ∙ f))
Chain-Opened pushes (y ∷ []) (suc k) x b c (last h) e f = absurd cc
Chain-Opened pushes (y ∷ ys) (suc k) x b c (opens h arg cost ch) e f =
    Opened-later pushes k ys x y (Chain-Opened pushes ys k x _ (pos 0) ch e f)
Chain-Opened pushes (y ∷ ys) (suc k) x b c (forks h arg v ch) e f =
    Opened-later pushes k ys x y (Chain-Opened pushes ys k x _ (pos 0) ch e f)
Chain-Opened pushes (y ∷ ys) (suc k) x b c (stuck h ch) e f =
    Opened-later pushes k ys x y (Chain-Opened pushes ys k x b _ ch e f)
Chain-Opened pushes (y ∷ ys) (suc k) x b c (inner op r h e' arg v ch) e f =
    Opened-later pushes k ys x y (Chain-Opened pushes ys k x b _ ch e f)

-- What a jump target of an analysis is.
pub TargetsOpen : AdvancedCodeAnalysis → Type 0
TargetsOpen a =
    (j t : ℕ)
    → find_jumpdest a j ≡ pos t
    → (x : Instruction) × (x.fn ≡ fn_beginblock) × Opened (length a.push_values) a.instrs t x

instrs-Opened :
    (pushes t : ℕ) (b : BlockInfo) (xs rest : List Instruction) (first x : Instruction)
    → xs ≡ first ∷ rest
    → Chain pushes b (pos 0) rest
    → 1 ≤ t
    → get_elem? xs t ≡ some x
    → x.fn ≡ fn_beginblock
    → Opened pushes xs t x
instrs-Opened pushes zero b xs rest first x e ch h g f = absurd (omega arith)
instrs-Opened pushes (suc t) b xs rest first x e ch h g f =
    rw e
      (Opened-later pushes t rest x first (Chain-Opened pushes rest t x b (pos 0) ch (rw e at g) f))

pub analyze-TargetsOpen :
    (code : List ℕ) → 32000 * length code < 2 ^ 32 → TargetsOpen (analyze code)
unfolding TargetsOpen
analyze-TargetsOpen code h j t e =
    let v = analyze-AreJumpdests code (omega arith) in
    let (b, rest, shape, ch) = analyze-Chain code h in
    let listed = found-IsListed code j t (omega arith) e in
    let (x, g, f) = v.are_started t listed in
    (x, f, instrs-Opened _ t b (analyze code).instrs rest _ x shape ch (v.are_behind t listed) g f)

module _ {H : Type 0} (a : AdvancedCodeAnalysis) (i : ℕ) (g : ℤ) (open_targets : TargetsOpen a)
    (st : AdvancedState H) where
  jump_to-IsNext :
      (j : ℕ) (z : ℤ) (f : Frame H)
      → find_jumpdest a j ≡ z
      → IsFrame f
      → length f.stack ≤ stack_limit
      → f.gas_left ≤ℤ g
      → IsNext a i g (jump_to z (with_frame f st))
  unfolding TargetsOpen
  jump_to-IsNext j (pos t) f e v l h =
      let (x, b, o) = open_targets j t e in
      jumps
        (record {
          first = x;
          others = o.opened_rest;
          found = o.opened_found;
          begins = b;
          its_block = o.opened_block;
          its_arg = o.opened_arg;
          its_chain = o.opened_chain;
          enters_frame = v;
          enters_stack = l;
        })
        o.opened_cost h
  jump_to-IsNext j (negsuc n) f e v l h =
      ends (refused-IsFinal bad_jump_destination g f.gas_left f refl v)

  -- A jump that takes one more item from the stack.
  popped-IsNext :
      (j : ℕ) (z : ℤ) (c : Uint256) (s : List Uint256) (f : Frame H)
      → find_jumpdest a j ≡ z
      → IsFrame f
      → length s ≤ stack_limit
      → f.gas_left ≤ℤ g
      → IsNext a i g (pop_behind (jump_to z (with_frame (with_stack (c ∷ s) f) st)))
  popped-IsNext j (pos t) c s f e v l h =
      jump_to-IsNext j (pos t) (with_stack s f) e (ground arith) l h
  popped-IsNext j (negsuc n) c s f e v l h =
      ends (refused-IsFinal bad_jump_destination g f.gas_left (with_stack s f) refl (ground arith))

module _ {H : Type 0} (p : Platform H) (a : AdvancedCodeAnalysis) (i : ℕ)
    (open_targets : TargetsOpen a) where
  abbrev state_of : List Uint256 → Frame H → ℕ → AdvancedState H
  state_of s f n = record { frame = with_stack s f; current_block_cost = n }

  op_jump_on :
      (s : List Uint256) (f : Frame H) (n : ℕ)
      → IsFrame f
      → 1 ≤ length s
      → length s ≤ stack_limit
      → IsNext a i f.gas_left (op_jump p a (state_of s f n))
  unfolding op_jump
  op_jump_on [] f n v h l = absurd (omega arith)
  op_jump_on (d ∷ s) f n v h l = elim (Bool-cases (p.intx.ult (of_uint64 int_max) d)) [
    | inl big ↦ rw big (
        ends (
          refused-IsFinal bad_jump_destination f.gas_left f.gas_left (with_stack s f) refl
            (ground arith)))
    | inr small ↦ rw small (
        jump_to-IsNext a i f.gas_left open_targets (state_of s f n) (d.w0 % 2 ^ 32)
          (find_jumpdest a (d.w0 % 2 ^ 32)) (with_stack s f) refl (ground arith) (omega arith)
          (omega arith))
  ]

  pub op_jump-IsNext :
      (st : AdvancedState H)
      → IsFrame st.frame
      → 1 ≤ length st.frame.stack
      → length st.frame.stack ≤ stack_limit
      → IsNext a i st.frame.gas_left (op_jump p a st)
  op_jump-IsNext st = op_jump_on st.frame.stack st.frame st.current_block_cost

  pub fallen-IsNext : (b : BlockInfo) (g : ℤ) (q : Pointer H) → Begun a i b g q → IsNext a i g q
  fallen-IsNext b g (at k st) (begun w positive e) = goes_on w (rw e (omega int_laws))
  fallen-IsNext b g (null st) (refused w) = ends w
  fallen-IsNext b g undefined w = elim w [ ]

  op_jumpi_on :
      (x : Instruction) (b : BlockInfo) (xs : List Instruction) (s : List Uint256) (f : Frame H)
      (n : ℕ)
      → x.arg ≡ block b
      → drop (i + 1) a.instrs ≡ xs
      → Chain (length a.push_values) b (pos 0) xs
      → IsFrame f
      → 2 ≤ length s
      → length s ≤ stack_limit
      → IsNext a i f.gas_left (op_jumpi p a x i (state_of s f n))
  unfolding op_jumpi op_jump
  op_jumpi_on x b xs [] f n arg e ch v h l = absurd (omega arith)
  op_jumpi_on x b xs (d ∷ []) f n arg e ch v h l = absurd (omega arith)
  op_jumpi_on x b xs (d ∷ c ∷ s) f n arg e ch v h l =
      elim (Bool-cases (p.intx.equal c (of_uint64 0))) [
        | inl zero_condition ↦ rw zero_condition (
            fallen-IsNext b f.gas_left _ (
              opx_beginblock-Begun a i x b xs (state_of s f n) arg e ch (ground arith)
                (omega arith)))
        | inr taken ↦ rw taken (elim (Bool-cases (p.intx.ult (of_uint64 int_max) d)) [
          | inl big ↦ rw big (
              ends (
                refused-IsFinal bad_jump_destination f.gas_left f.gas_left (with_stack s f) refl
                  (ground arith)))
          | inr small ↦ rw small (
              popped-IsNext a i f.gas_left open_targets (state_of (d ∷ c ∷ s) f n) (d.w0 % 2 ^ 32)
                (find_jumpdest a (d.w0 % 2 ^ 32)) c s f refl v (omega arith) (omega arith))
        ])
      ]

  pub op_jumpi-IsNext :
      (x : Instruction) (b : BlockInfo) (xs : List Instruction) (st : AdvancedState H)
      → x.arg ≡ block b
      → drop (i + 1) a.instrs ≡ xs
      → Chain (length a.push_values) b (pos 0) xs
      → IsFrame st.frame
      → 2 ≤ length st.frame.stack
      → length st.frame.stack ≤ stack_limit
      → IsNext a i st.frame.gas_left (op_jumpi p a x i st)
  op_jumpi-IsNext x b xs st = op_jumpi_on x b xs st.frame.stack st.frame st.current_block_cost
