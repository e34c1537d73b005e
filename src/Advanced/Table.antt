-- ===== src/Advanced/Table.antt =====
-- The instruction functions and the opcode table of the Advanced interpreter
-- (lib/zvmone/advanced_instructions.cpp).
use zvmone.Prelude.{ℕ, leb, Option, none, some, if◌then◌else◌}
use zvmone.Prelude.Int.{ℤ, pos}
use zvmone.Opcodes.{
  Opcode, op_sstore, op_jump, op_jumpi, op_pc, op_gas, op_jumpdest, op_create, op_call,
  op_delegatecall, op_create2, op_staticcall, op_push, decode,
}
use zvmone.Traits.{gas_costs, traits}

-- The functions that an `instruction_exec_fn` points to: `op<instr::impl<Op>>`, and the ones of the
-- Advanced interpreter.
pub data InstructionFn : Type 0 where
  fn_op : Opcode → InstructionFn
  fn_sstore fn_beginblock fn_jump fn_jumpi fn_pc fn_gas : InstructionFn
  fn_push_small fn_push_full fn_undefined : InstructionFn
  fn_call fn_create : Opcode → InstructionFn

-- `instruction_implementations`
unfoldable pub instruction_implementations : Opcode → InstructionFn
instruction_implementations op_sstore = fn_sstore
instruction_implementations op_jump = fn_jump
instruction_implementations op_jumpi = fn_jumpi
instruction_implementations op_pc = fn_pc
instruction_implementations op_gas = fn_gas
instruction_implementations op_jumpdest = fn_beginblock
instruction_implementations (op_push n) = if leb n 8 then fn_push_small else fn_push_full
instruction_implementations op_create = fn_create op_create
instruction_implementations op_call = fn_call op_call
instruction_implementations op_delegatecall = fn_call op_delegatecall
instruction_implementations op_create2 = fn_create op_create2
instruction_implementations op_staticcall = fn_call op_staticcall
instruction_implementations op = fn_op op

pub record OpTableEntry : Type 0 where
  pub fn : InstructionFn
  pub entry_gas_cost : ℕ
  pub entry_stack_req : ℕ
  pub entry_stack_change : ℤ

abbrev pub table_entry : Option Opcode → OpTableEntry
table_entry none = record {
  fn = fn_undefined;
  entry_gas_cost = 0;
  entry_stack_req = 0;
  entry_stack_change = pos 0;
}
table_entry (some op) = record {
  fn = instruction_implementations op;
  entry_gas_cost = gas_costs op;
  entry_stack_req = (traits op).stack_height_required;
  entry_stack_change = (traits op).stack_height_change;
}

-- The entry of `get_op_table(rev)`, for the one revision, at a byte.
abbrev pub get_op_table : ℕ → OpTableEntry
get_op_table byte = table_entry (decode byte)
