-- ===== src/Baseline/Analysis.antt =====
-- The code analysis of lib/zvmone/baseline.cpp: the map of the jump destinations and the padding.
pub mod Padding
pub mod Boundary
use zvmone.Prelude.{
  ℕ, zero, suc, ◌+◌, ◌-◌, Bool, true, false, Option, none, some, List, ◌++◌, length, replicate, set,
  get_elem?, ltb, ◌==◌, if◌then◌else◌,
}
use zvmone.Prelude.Int.{ℤ, pos, negsuc, leb_ℤ}
use zvmone.Zvmc.{Message}
use zvmone.Exec.{Context}

abbrev pub op_push1 : ℕ
op_push1 = 0x60

abbrev pub op_jumpdest_byte : ℕ
op_jumpdest_byte = 0x5b

-- (int8_t)op
abbrev pub to_int8 : ℕ → ℤ
to_int8 op = if ltb op 128 then pos op else negsuc (255 - op)

abbrev pub is_push : ℕ → Bool
is_push op = leb_ℤ (pos op_push1) (to_int8 op)

-- `i` at the end of a round, before its increment.
abbrev pub skip_data : ℕ → ℕ → ℕ
skip_data op i = if is_push op then i + (op - (op_push1 - 1)) else i

abbrev pub mark : ℕ → ℕ → List Bool → List Bool
mark op i map = if is_push op then map else if op == op_jumpdest_byte then set map i true else map

-- The loop from index `i` on, on the number of rounds that may be left.
pub analyze_from : ℕ → List ℕ → ℕ → List Bool → List Bool
analyze_from zero code i map = map
analyze_from (suc rounds) code i map = elim (get_elem? code i) [
  | none ↦ map
  | some op ↦ analyze_from rounds code (skip_data op i + 1) (mark op i map)
]

pub analyze_jumpdests : List ℕ → List Bool
unfolding analyze_from
analyze_jumpdests code = analyze_from (length code) code 0 (replicate (length code) false)

-- 32 bytes for the data of a PUSH32 at the end, and a STOP.
abbrev pub padding : ℕ
padding = 32 + 1

unfoldable pub pad_code : List ℕ → List ℕ
pad_code code = code ++ replicate padding 0

-- What `execute` fixes for an execution: `analyze`, and the message and code given to the state.
unfoldable pub analyze : Message → List ℕ → Context
unfolding analyze_jumpdests pad_code
analyze msg code = record {
  msg = msg;
  original_code = code;
  padded_code = pad_code code;
  jumpdest_map = analyze_jumpdests code;
}
