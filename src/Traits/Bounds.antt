-- ===== src/Traits/Bounds.antt =====
-- Bounds on the tables of lib/zvmone/instructions_traits.hpp.
use zvmone.Prelude.{◌≤◌, ◌≡◌, true, arith}
use zvmone.Opcodes.{Opcode, op_log}
use zvmone.Opcodes.Ranges.{in_range}
use zvmone.Prelude.Int.{neg_part}
use zvmone.Traits.{gas_costs, traits}

-- The largest base cost is that of CREATE and CREATE2.
pub gas_costs-le : (op : Opcode) → in_range op ≡ true → gas_costs op ≤ 32000
unfolding gas_costs
gas_costs-le (op_log n) r = ground arith
gas_costs-le _ r = omega arith

-- An instruction removes no more items than it requires.
pub removed-le :
    (op : Opcode) → neg_part (traits op).stack_height_change ≤ (traits op).stack_height_required
unfolding traits
removed-le (op_log n) = omega arith
removed-le _ = omega arith
