-- ===== src/Advanced/Analysis.antt =====
-- The code analysis of the Advanced interpreter: lib/zvmone/advanced_analysis.hpp and
-- lib/zvmone/advanced_analysis.cpp. A pointer into the code is an index, a pointer into
-- `push_values` too.
pub mod Compile
pub mod Rounds
pub mod Refine
pub mod Jumpdests
pub mod Targets
pub mod Find
use zvmone.Prelude.{
  ◌%◌, ℕ, zero, suc, ◌+◌, ◌-◌, ◌*◌, ◌/◌, ◌^◌, bit_or, min, Bool, true, false, ◌&&◌, Option, none,
  some, List, [], ◌∷◌, ◌++◌, length, replicate, set, get_elem?, get_or, take, drop, ltb, leb, ◌==◌,
  if◌then◌else◌,
}
use zvmone.Prelude.Int.{ℤ, pos, negsuc, ◌+ℤ◌, ◌-ℤ◌, leb_ℤ}
use zvmone.Uint256.{Uint256}
use zvmone.Opcodes.{
  Opcode, op_stop, op_return, op_revert, op_sstore, op_jump, op_jumpi, op_pc, op_gas, op_create,
  op_call, op_delegatecall, op_create2, op_staticcall, op_push, is_between, decode,
}
use zvmone.Advanced.Table.{InstructionFn, fn_op, fn_beginblock, OpTableEntry, get_op_table}

pub record BlockInfo : Type 0 where
  pub gas_cost : ℕ
  pub stack_req : ℤ
  pub stack_max_growth : ℤ

-- The union, with the member that was written last.
pub data InstructionArgument : Type 0 where
  number : ℤ → InstructionArgument
  push_value : ℕ → InstructionArgument
  small_push_value : ℕ → InstructionArgument
  block : BlockInfo → InstructionArgument

pub record Instruction : Type 0 where
  pub fn : InstructionFn
  pub arg : InstructionArgument

-- An int32_t of the two lists is its 32 bits, as a number below 2^32.
pub record AdvancedCodeAnalysis : Type 0 where
  pub instrs : List Instruction
  pub push_values : List Uint256
  pub jumpdest_offsets : List ℕ
  pub jumpdest_targets : List ℕ

abbrev pub no_block : BlockInfo
no_block = record { gas_cost = 0; stack_req = pos 0; stack_max_growth = pos 0 }

-- `Instruction(f)`
abbrev pub new_instruction : InstructionFn → Instruction
new_instruction f = record { fn = f; arg = block no_block }

-- `clamp<uint32_t>` and `clamp<int16_t>`
abbrev pub clamp_uint32 : ℕ → ℕ
clamp_uint32 x = if leb x (2 ^ 32 - 1) then x else 2 ^ 32 - 1

abbrev pub clamp_int16 : ℤ → ℤ
clamp_int16 x = if leb_ℤ x (pos (2 ^ 15 - 1)) then x else pos (2 ^ 15 - 1)

abbrev pub max_ℤ : ℤ → ℤ → ℤ
max_ℤ a b = if leb_ℤ a b then b else a

pub record BlockAnalysis : Type 0 where
  pub total_cost : ℕ
  pub required : ℤ
  pub max_growth : ℤ
  pub stack_change : ℤ
  pub begin_block_index : ℕ

abbrev pub new_block : ℕ → BlockAnalysis
new_block index = record {
  total_cost = 0;
  required = pos 0;
  max_growth = pos 0;
  stack_change = pos 0;
  begin_block_index = index;
}

abbrev pub close : BlockAnalysis → BlockInfo
close b = record {
  gas_cost = clamp_uint32 b.total_cost;
  stack_req = clamp_int16 b.required;
  stack_max_growth = clamp_int16 b.max_growth;
}

-- What an instruction adds to its block.
abbrev pub count : OpTableEntry → BlockAnalysis → BlockAnalysis
count e b =
    let change = b.stack_change +ℤ e.entry_stack_change in
    record {
      total_cost = b.total_cost + e.entry_gas_cost;
      required = max_ℤ b.required (pos e.entry_stack_req -ℤ b.stack_change);
      max_growth = max_ℤ b.max_growth change;
      stack_change = change;
      begin_block_index = b.begin_block_index;
    }

-- `instrs[i].arg = arg`
abbrev pub set_arg : List Instruction → ℕ → InstructionArgument → List Instruction
set_arg [] i arg = []
set_arg (x ∷ xs) zero arg = record { fn = x.fn; arg = arg } ∷ xs
set_arg (x ∷ xs) (suc i) arg = x ∷ set_arg xs i arg

-- The cases of the `switch` on the opcode.
pub data Case : Type 0 where
  default ends branches keeps_gas keeps_pc : Case
  small_push large_push : ℕ → Case

unfoldable pub switch_case : Option Opcode → Case
switch_case (some op_jump) = ends
switch_case (some op_stop) = ends
switch_case (some op_return) = ends
switch_case (some op_revert) = ends
switch_case (some op_jumpi) = branches
switch_case (some (op_push n)) = if leb n 8 then small_push n else large_push n
switch_case (some op_gas) = keeps_gas
switch_case (some op_call) = keeps_gas
switch_case (some op_delegatecall) = keeps_gas
switch_case (some op_staticcall) = keeps_gas
switch_case (some op_create) = keeps_gas
switch_case (some op_create2) = keeps_gas
switch_case (some op_sstore) = keeps_gas
switch_case (some op_pc) = keeps_pc
switch_case _ = default

-- The loop that skips dead instructions, on the number of rounds that may be left.
pub skip_dead : ℕ → List ℕ → ℕ → ℕ
skip_dead zero code i = i
skip_dead (suc rounds) code i = elim (get_elem? code i) [
  | none ↦ i
  | some b ↦
      let next =
        if is_between 0x60 0x7f b then min (i + (b - 0x60 + 1) + 1) (length code) else i + 1 in
      let rest = skip_dead rounds code next in if b == 0x5b then i else rest
]

-- The loop over the data of a small push, with `n` bytes to insert: `insert_bit_pos` is 8 * (n - 1).
pub read_small : List ℕ → ℕ → ℕ → ℕ → ℕ
read_small code i zero value = value
read_small code i (suc n) value = elim (get_elem? code i) [
  | none ↦ value
  | some b ↦ read_small code (i + 1) n (bit_or value (b * 2 ^ (8 * n)))
]

-- The loop over the data of a large push: `insert_pos` points to the byte `n - 1` of the word.
pub read_large : List ℕ → ℕ → ℕ → List ℕ → List ℕ
read_large code i zero bytes = bytes
read_large code i (suc n) bytes = elim (get_elem? code i) [
  | none ↦ bytes
  | some b ↦ read_large code (i + 1) n (set bytes n b)
]

abbrev pub little_endian : List ℕ → ℕ
little_endian [] = 0
little_endian (b ∷ bytes) = b + 256 * little_endian bytes

-- The word whose bytes are `intx::as_bytes`, on a little-endian machine.
abbrev pub from_bytes : List ℕ → Uint256
from_bytes bytes = record {
  w0 = little_endian (take 8 bytes);
  w1 = little_endian (take 8 (drop 8 bytes));
  w2 = little_endian (take 8 (drop 16 bytes));
  w3 = little_endian (take 8 (drop 24 bytes));
}

-- The locals of the loop. `code_pos` is the index of the next byte.
pub record Progress : Type 0 where
  pub analysis : AdvancedCodeAnalysis
  pub current : BlockAnalysis
  pub code_pos : ℕ

-- The body of `if (opcode == OP_JUMPDEST)`.
abbrev pub start_jumpdest : Progress → Progress
start_jumpdest s =
    let a = s.analysis in
    let index = length a.instrs in
    record {
      analysis = record {
        instrs = set_arg a.instrs s.current.begin_block_index (block (close s.current));
        push_values = a.push_values;
        jumpdest_offsets = a.jumpdest_offsets ++ ((s.code_pos - 1) % 2 ^ 32 ∷ []);
        jumpdest_targets = a.jumpdest_targets ++ (index % 2 ^ 32 ∷ []);
      };
      current = new_block index;
      code_pos = s.code_pos;
    }

-- `emplace_back`, and the counts of the block.
abbrev pub add_instruction : OpTableEntry → Progress → Progress
add_instruction e s = record s {
  analysis = record (s.analysis) { instrs = s.analysis.instrs ++ (new_instruction e.fn ∷ []) };
  current = count e s.current;
}

-- `instr.arg = arg` on the last instruction.
abbrev pub with_arg : InstructionArgument → Progress → Progress
with_arg arg s =
    let xs = s.analysis.instrs in
    record s { analysis = record (s.analysis) { instrs = set_arg xs (length xs - 1) arg } }

-- The `switch`.
unfoldable pub switch : List ℕ → Case → Progress → Progress
unfolding skip_dead read_small read_large
switch code default s = s
switch code ends s = record s { code_pos = skip_dead (length code) code s.code_pos }
switch code branches s =
    let xs = s.analysis.instrs in
    record s {
      analysis = record (s.analysis) {
        instrs = set_arg xs s.current.begin_block_index (block (close s.current));
      };
      current = new_block (length xs - 1);
    }
switch code (small_push n) s =
    record (with_arg (small_push_value (read_small code s.code_pos n 0)) s) {
      code_pos = min (s.code_pos + n) (length code);
    }
switch code (large_push n) s =
    let x = from_bytes (read_large code s.code_pos n (replicate 32 0)) in
    let s' = with_arg (push_value (length s.analysis.push_values)) s in
    record s {
      analysis = record (s'.analysis) { push_values = s.analysis.push_values ++ (x ∷ []) };
      code_pos = min (s.code_pos + n) (length code);
    }
switch code keeps_gas s = with_arg (number (pos s.current.total_cost)) s
switch code keeps_pc s = with_arg (number (pos (s.code_pos - 1))) s

-- A round of the loop for an opcode, with `code_pos` behind it.
unfoldable pub round : List ℕ → ℕ → Progress → Progress
unfolding switch switch_case
round code opcode s =
    let started = if opcode == 0x5b then start_jumpdest s else s in
    switch code (switch_case (decode opcode)) (add_instruction (get_op_table opcode) started)

-- The loop, on the number of rounds that may be left: each takes a byte or more.
pub analyze_from : ℕ → List ℕ → Progress → Progress
unfolding round
analyze_from zero code s = s
analyze_from (suc rounds) code s = elim (get_elem? code s.code_pos) [
  | none ↦ s
  | some opcode ↦
      analyze_from rounds code (round code opcode (record s { code_pos = s.code_pos + 1 }))
]

abbrev pub first_block : Progress
first_block = record {
  analysis = record {
    instrs = new_instruction fn_beginblock ∷ [];
    push_values = [];
    jumpdest_offsets = [];
    jumpdest_targets = [];
  };
  current = new_block 0;
  code_pos = 0;
}

-- What is done after the loop.
abbrev pub last_block : Progress → AdvancedCodeAnalysis
last_block s =
    let xs = set_arg s.analysis.instrs s.current.begin_block_index (block (close s.current)) in
    record (s.analysis) { instrs = xs ++ (new_instruction (fn_op op_stop) ∷ []) }

unfoldable pub analyze : List ℕ → AdvancedCodeAnalysis
unfolding analyze_from
analyze code = last_block (analyze_from (length code) code first_block)

-- The order of int32_t, and the int, of 32 bits.
abbrev pub int32_less : ℕ → ℕ → Bool
int32_less x y = ltb ((x + 2 ^ 31) % 2 ^ 32) ((y + 2 ^ 31) % 2 ^ 32)

abbrev pub int_of : ℕ → ℤ
int_of x = if ltb x (2 ^ 31) then pos x else negsuc (2 ^ 32 - 1 - x)

-- `std::lower_bound` of a sorted range: the index of the first element that is not less.
abbrev pub lower_bound : List ℕ → ℕ → ℕ
lower_bound [] v = 0
lower_bound (x ∷ xs) v = if int32_less x v then suc (lower_bound xs v) else 0

-- The offset and the result are an int, the offset as its 32 bits.
abbrev pub find_jumpdest : AdvancedCodeAnalysis → ℕ → ℤ
find_jumpdest a offset =
    let it = lower_bound a.jumpdest_offsets offset in
    elim (get_elem? a.jumpdest_offsets it) [
      | none ↦ negsuc 0
      | some found ↦ if found == offset then int_of (get_or a.jumpdest_targets it 0) else negsuc 0
    ]
