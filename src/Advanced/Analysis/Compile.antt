-- ===== src/Advanced/Analysis/Compile.antt =====
-- `analyze` of lib/zvmone/advanced_analysis.cpp against a definition without back-patching: each
-- block's information is computed from the instructions that follow.
use zvmone.Prelude.{
  ◌^◌, ◌%◌, ℕ, zero, suc, ◌+◌, ◌-◌, min, none, some, List, [], ◌∷◌, ◌++◌, length, replicate,
  get_elem?, ◌==◌, if◌then◌else◌,
}
use zvmone.Prelude.Int.{pos}
use zvmone.Uint256.{Uint256}
use zvmone.Opcodes.{op_stop, decode}
use zvmone.Advanced.Table.{fn_op, OpTableEntry, get_op_table}
use zvmone.Advanced.Analysis.{
  BlockInfo, InstructionArgument, number, push_value, small_push_value, block, Instruction,
  no_block, new_instruction, BlockAnalysis, new_block, close, count, Case, default, ends, branches,
  keeps_gas, keeps_pc, small_push, large_push, switch_case, skip_dead, read_small, read_large,
  from_bytes,
}

-- What a position and all after it give: how the block that is open closes, the instructions, the
-- large push values, and the jump destinations with their instructions.
pub record Rest : Type 0 where
  pub info : BlockInfo
  pub following : List Instruction
  pub pushed : List Uint256
  pub offsets : List ℕ
  pub targets : List ℕ

abbrev pub large_values : List ℕ → Case → ℕ → List Uint256
large_values code (large_push n) i = from_bytes (read_large code i n (replicate 32 0)) ∷ []
large_values code _ i = []

abbrev pub next_pos : List ℕ → Case → ℕ → ℕ
next_pos code ends i = skip_dead (length code) code i
next_pos code (small_push n) i = min (i + n) (length code)
next_pos code (large_push n) i = min (i + n) (length code)
next_pos code _ i = i

-- The argument of an instruction, from its block with it counted, and the block after it.
abbrev pub argument : List ℕ → Case → ℕ → BlockAnalysis → ℕ → BlockInfo → InstructionArgument
argument code default i b pushes info = block no_block
argument code ends i b pushes info = block no_block
argument code branches i b pushes info = block info
argument code (small_push n) i b pushes info = small_push_value (read_small code i n 0)
argument code (large_push n) i b pushes info = push_value pushes
argument code keeps_gas i b pushes info = number (pos b.total_cost)
argument code keeps_pc i b pushes info = number (pos (i - 1))

abbrev pub block_after : Case → ℕ → BlockAnalysis → BlockAnalysis
block_after branches index b = new_block index
block_after _ index b = b

abbrev pub info_before : Case → BlockAnalysis → BlockInfo → BlockInfo
info_before branches b info = close b
info_before _ b info = info

-- A JUMPDEST, before what follows.
abbrev pub link_jumpdest : OpTableEntry → ℕ → ℕ → BlockAnalysis → Rest → Rest
link_jumpdest e i index b r = record {
  info = close b;
  following = record { fn = e.fn; arg = block r.info } ∷ r.following;
  pushed = r.pushed;
  offsets = i % 2 ^ 32 ∷ r.offsets;
  targets = index % 2 ^ 32 ∷ r.targets;
}

-- Another instruction, whose byte is before `i`.
abbrev pub link : List ℕ → OpTableEntry → Case → ℕ → ℕ → BlockAnalysis → Rest → Rest
link code e c i pushes b r = record {
  info = info_before c b r.info;
  following = record { fn = e.fn; arg = argument code c i b pushes r.info } ∷ r.following;
  pushed = large_values code c i ++ r.pushed;
  offsets = r.offsets;
  targets = r.targets;
}

abbrev pub end_of_code : BlockAnalysis → Rest
end_of_code b = record {
  info = close b;
  following = new_instruction (fn_op op_stop) ∷ [];
  pushed = [];
  offsets = [];
  targets = [];
}

-- From the position `i` on, with the block that is open, and the numbers of the instructions and of
-- the large push values before. On the number of rounds that may be left.
unfoldable pub compile : ℕ → List ℕ → ℕ → BlockAnalysis → ℕ → ℕ → Rest
compile zero code i b index pushes = end_of_code b
compile (suc rounds) code i b index pushes = elim (get_elem? code i) [
  | none ↦ end_of_code b
  | some opcode ↦
      let e = get_op_table opcode in
      let c = switch_case (decode opcode) in
      let dest = compile rounds code (i + 1) (count e (new_block index)) (index + 1) pushes in
      let plain =
        compile rounds code (next_pos code c (i + 1)) (block_after c index (count e b)) (index + 1)
          (pushes + length (large_values code c (i + 1))) in
      if opcode == 0x5b
      then link_jumpdest e i index b dest
      else link code e c (i + 1) pushes (count e b) plain
]
