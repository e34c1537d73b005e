-- ===== src/Advanced/Blocks.antt =====
-- The blocks of the code that `analyze` of lib/zvmone/advanced_analysis.cpp gives: what the
-- information of a block says of the block's instructions.
pub mod Counts
pub mod Chains
pub mod Checks
use zvmone.Prelude.{ℕ, ◌≤◌, ◌<◌, ◌≡◌, true, Bool, not, ◌||◌, some, List, [], ◌∷◌, false}
use zvmone.Prelude.Int.{ℤ, pos, ◌+ℤ◌, ◌-ℤ◌, ◌≤ℤ◌}
use zvmone.Opcodes.{Opcode, op_stop, op_jumpi, op_jumpdest}
use zvmone.Opcodes.Ranges.{in_range}
use zvmone.Traits.{traits}
use zvmone.Advanced.Table.{
  fn_op, fn_beginblock, fn_jumpi, fn_undefined, instruction_implementations,
}
use zvmone.Advanced.Analysis.{
  BlockInfo, InstructionArgument, number, push_value, small_push_value, block, Instruction,
  clamp_int16, Case, default, ends, branches, keeps_gas, keeps_pc, small_push, large_push,
  switch_case,
}

-- The argument that the instructions of a case have, with `pushes` large push values in all.
abbrev pub HasArgument : ℕ → BlockInfo → Case → InstructionArgument → Type 0
HasArgument pushes b keeps_gas arg = (k : ℕ) × (arg ≡ number (pos k)) × (k ≤ b.gas_cost)
HasArgument pushes b keeps_pc arg = (k : ℕ) × (arg ≡ number (pos k))
HasArgument pushes b (small_push n) arg = (v : ℕ) × (arg ≡ small_push_value v)
HasArgument pushes b (large_push n) arg = (k : ℕ) × (arg ≡ push_value k) × (k < pushes)
HasArgument pushes b _ arg = Unit {0}

-- The instruction's stack requirements are within those of the block, `c` being the change of the
-- stack height since the block's start.
abbrev pub Covered : BlockInfo → ℤ → Opcode → Type 0
Covered b c op =
    (clamp_int16 (pos (traits op).stack_height_required -ℤ c) ≤ℤ b.stack_req)
    × (clamp_int16 (c +ℤ (traits op).stack_height_change) ≤ℤ b.stack_max_growth)

-- An opcode that neither starts nor ends a block within the code.
abbrev pub is_inner : Opcode → Bool
is_inner op_jumpi = false
is_inner op_jumpdest = false
is_inner _ = true

-- The instructions in the block `b` after a change `c` of the stack height, and those of the blocks
-- after it.
pub data Chain (pushes : ℕ) : BlockInfo → ℤ → List Instruction → Type 0 where
  last :
      {b : BlockInfo} {c : ℤ} {x : Instruction} → x.fn ≡ fn_op op_stop → Chain pushes b c (x ∷ [])
  opens :
      {b b' : BlockInfo} {c : ℤ} {x : Instruction} {rest : List Instruction}
      → x.fn ≡ fn_beginblock
      → x.arg ≡ block b'
      → 1 ≤ b'.gas_cost
      → Chain pushes b' (pos 0) rest
      → Chain pushes b c (x ∷ rest)
  forks :
      {b b' : BlockInfo} {c : ℤ} {x : Instruction} {rest : List Instruction}
      → x.fn ≡ fn_jumpi
      → x.arg ≡ block b'
      → Covered b c op_jumpi
      → Chain pushes b' (pos 0) rest
      → Chain pushes b c (x ∷ rest)
  stuck :
      {b : BlockInfo} {c c' : ℤ} {x : Instruction} {rest : List Instruction}
      → x.fn ≡ fn_undefined
      → Chain pushes b c' rest
      → Chain pushes b c (x ∷ rest)
  inner :
      {b : BlockInfo} {c : ℤ} {x : Instruction} {rest : List Instruction} (op : Opcode)
      → in_range op ≡ true
      → is_inner op ≡ true
      → x.fn ≡ instruction_implementations op
      → HasArgument pushes b (switch_case (some op)) x.arg
      → Covered b c op
      → Chain pushes b (c +ℤ (traits op).stack_height_change) rest
      → Chain pushes b c (x ∷ rest)
