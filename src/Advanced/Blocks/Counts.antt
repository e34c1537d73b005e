-- ===== src/Advanced/Blocks/Counts.antt =====
-- How the counts of a block (`BlockAnalysis` of lib/zvmone/advanced_analysis.cpp) grow.
use zvmone.Prelude.{ℕ, ◌≤◌, ◌+◌, arith}
use zvmone.Prelude.Int.{ℤ, pos, ◌+ℤ◌, ◌-ℤ◌, ◌≤ℤ◌}
use zvmone.Advanced.Table.{OpTableEntry}
use zvmone.Advanced.Analysis.{
  BlockInfo, BlockAnalysis, close, count, clamp_int16, clamp_uint32, max_ℤ,
}

-- The information covers what has been counted.
pub record Covers (b : BlockAnalysis) (info : BlockInfo) : Type 0 where
  pub req_covers : clamp_int16 b.required ≤ℤ info.stack_req
  pub growth_covers : clamp_int16 b.max_growth ≤ℤ info.stack_max_growth
  pub cost_covers : clamp_uint32 b.total_cost ≤ info.gas_cost

pub close-Covers : (b : BlockAnalysis) → Covers b (close b)
close-Covers b = record {
  req_covers = omega arith;
  growth_covers = omega arith;
  cost_covers = omega arith;
}

clamp-max : (a b c : ℤ) → clamp_int16 (max_ℤ a b) ≤ℤ c → (clamp_int16 a ≤ℤ c) × (clamp_int16 b ≤ℤ c)
clamp-max a b c h = ground arith

clamp-add : (a b c : ℕ) → clamp_uint32 (a + b) ≤ c → clamp_uint32 a ≤ c
clamp-add a b c h = ground arith

-- What covers the counts with an instruction covers those before, and the instruction.
pub count-Covers :
    (e : OpTableEntry) (b : BlockAnalysis) (info : BlockInfo)
    → Covers (count e b) info
    → Covers b info
      × (clamp_int16 (pos e.entry_stack_req -ℤ b.stack_change) ≤ℤ info.stack_req)
      × (clamp_int16 (b.stack_change +ℤ e.entry_stack_change) ≤ℤ info.stack_max_growth)
count-Covers e b info v =
    let r = clamp-max b.required (pos e.entry_stack_req -ℤ b.stack_change) _ v.req_covers in
    let g = clamp-max b.max_growth (b.stack_change +ℤ e.entry_stack_change) _ v.growth_covers in
    (
      record {
        req_covers = r.0;
        growth_covers = g.0;
        cost_covers = clamp-add b.total_cost e.entry_gas_cost _ v.cost_covers;
      },
      r.1,
      g.1,
    )
