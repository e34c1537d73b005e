-- ===== src/Tests/Advanced.antt =====
-- Runs of the Advanced interpreter (lib/zvmone/advanced_analysis.cpp and advanced_execution.cpp) on
-- concrete input.
use zvmone.Prelude.{ℕ, refl, ◌≡◌, ◌↔◌, arith, false, some, List, [], ◌∷◌, length, get_or, get_elem?}
use zvmone.Prelude.Int.{pos, leb_ℤ}
use zvmone.Zvmc.{CallResult}
use zvmone.Baseline.Analysis.{analyze_jumpdests}
use zvmone.Baseline.Execution.{IsResult}
use zvmone.Advanced.Table.{fn_beginblock}
use zvmone.Advanced.Analysis.{BlockInfo, block, Instruction, new_block, find_jumpdest, analyze}
use zvmone.Advanced.Analysis.Compile.{compile}
use zvmone.Advanced.Analysis.Refine.{analyze-compile}
use zvmone.Advanced.Analysis.Jumpdests.{IsDest}
use zvmone.Advanced.Analysis.Find.{find_jumpdest-IsDest, find_jumpdest-analyze_jumpdests}
use zvmone.Advanced.Blocks.{Chain}
use zvmone.Advanced.Blocks.Chains.{analyze-Chain}
use zvmone.Advanced.Safety.Runs.{advanced-IsResult}
use zvmone.Opcodes.{Opcode, op_caller, op_address, op_add}
use zvmone.Traits.{gas_costs}
use zvmone.Baseline.{start}
use zvmone.Advanced.Analysis.{close}
use zvmone.Advanced.Blocks.Checks.{is_entered, count_all, check_all, opx_beginblock-check_all}
use zvmone.Advanced.Execution.{execute, AdvancedState, opx_beginblock}
use zvmone.Tests.{platform, platform-IsPlatform, message, jump_code}

-- PUSH1 5, JUMPI, JUMPDEST, PUSH9 with two bytes of data.
abbrev branch_code : List ℕ
branch_code = 0x60 ∷ 5 ∷ 0x57 ∷ 0x5b ∷ 0x68 ∷ 1 ∷ 2 ∷ []

advanced-IsResult_example :
    (r : CallResult) × (h' : ℕ) × (execute platform 0 message jump_code ≡ some (r, h'))
    × IsResult message.gas r
advanced-IsResult_example =
    advanced-IsResult platform platform-IsPlatform 0 message jump_code (omega arith) (omega arith)
      (omega arith)

analyze-compile_example : analyze branch_code ≡ (
    let r = compile 7 branch_code 0 (new_block 0) 1 0 in
    record {
      instrs = record { fn = fn_beginblock; arg = block r.info } ∷ r.following;
      push_values = r.pushed;
      jumpdest_offsets = r.offsets;
      jumpdest_targets = r.targets;
    })
analyze-compile_example = analyze-compile branch_code

analyze-Chain_example :
    (b : BlockInfo) × (rest : List Instruction) × ((analyze branch_code).instrs
      ≡ record { fn = fn_beginblock; arg = block b } ∷ rest)
    × Chain (length (analyze branch_code).push_values) b (pos 0) rest
analyze-Chain_example = analyze-Chain branch_code (omega arith)

find_jumpdest-IsDest_example :
    ((t : ℕ) × (find_jumpdest (analyze branch_code) 3 ≡ pos t)
      × ((x : Instruction) × (get_elem? (analyze branch_code).instrs t ≡ some x)
          × (x.fn ≡ fn_beginblock)))
    ↔ IsDest branch_code 0 3
find_jumpdest-IsDest_example = find_jumpdest-IsDest branch_code 3 (omega arith) (omega arith)

find_jumpdest-analyze_jumpdests_example :
    leb_ℤ (pos 0) (find_jumpdest (analyze branch_code) 3)
    ≡ get_or (analyze_jumpdests branch_code) 3 false
find_jumpdest-analyze_jumpdests_example =
    find_jumpdest-analyze_jumpdests branch_code 3 (omega arith) (omega arith) (omega arith)

abbrev sum_ops : List Opcode
sum_ops = op_caller ∷ op_address ∷ op_add ∷ []

abbrev sum_block : Instruction
sum_block = record { fn = fn_beginblock; arg = block (close (count_all sum_ops (new_block 0))) }

abbrev block_start : AdvancedState ℕ
block_start = record { frame = start 0 message; current_block_cost = 0 }

opx_beginblock-check_all_example :
    is_entered (opx_beginblock sum_block 0 block_start)
    ≡ check_all sum_ops block_start.frame.gas_left (length block_start.frame.stack)
unfolding gas_costs start
opx_beginblock-check_all_example =
    opx_beginblock-check_all sum_ops sum_block 0 0 block_start refl (omega arith) (omega arith)
      (omega arith)
