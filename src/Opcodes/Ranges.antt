-- ===== src/Opcodes/Ranges.antt =====
-- The ranges of the families of opcodes in MAP_OPCODES (lib/zvmone/instructions_xmacro.hpp).
use zvmone.Prelude.{
  ℕ, ◌≡◌, Option, Bool, true, ◌&&◌, none, some, List, [], ◌∷◌, inl, inr, refl, arith, Bool-cases,
  leb, ◌==◌,
}
use zvmone.Opcodes.{
  Opcode, op_push, op_dup, op_swap, op_log, single_opcodes, find_opcode, is_between, decode,
}

-- PUSH1 to PUSH32, DUP1 to DUP16, SWAP1 to SWAP16 and LOG0 to LOG4.
abbrev pub in_range : Opcode → Bool
in_range (op_push n) = is_between 1 32 n
in_range (op_dup n) = is_between 1 16 n
in_range (op_swap n) = is_between 1 16 n
in_range (op_log n) = leb n 4
in_range _ = true

abbrev all_in_range : List (ℕ × Opcode) → Bool
all_in_range [] = true
all_in_range ((b, op) ∷ rest) = in_range op && all_in_range rest

abbrev if_some : Option Opcode → Bool
if_some none = true
if_some (some op) = in_range op

find_opcode-in_range :
    (byte : ℕ) (table : List (ℕ × Opcode))
    → all_in_range table ≡ true
    → if_some (find_opcode byte table) ≡ true
unfolding find_opcode
find_opcode-in_range byte [] h = refl
find_opcode-in_range byte ((b, op) ∷ rest) h = elim (Bool-cases (b == byte)) [
  | inl found ↦ rw found (ground arith)
  | inr other ↦ rw other (find_opcode-in_range byte rest (ground arith))
]

decode_cases : (byte : ℕ) → if_some (decode byte) ≡ true
unfolding decode
decode_cases byte = elim (Bool-cases (is_between 0x60 0x7f byte)) [
  | inl push ↦ rw push (ground arith)
  | inr e1 ↦ rw e1 (elim (Bool-cases (is_between 0x80 0x8f byte)) [
    | inl dup ↦ rw dup (ground arith)
    | inr e2 ↦ rw e2 (elim (Bool-cases (is_between 0x90 0x9f byte)) [
      | inl swap ↦ rw swap (ground arith)
      | inr e3 ↦ rw e3 (elim (Bool-cases (is_between 0xa0 0xa4 byte)) [
        | inl log ↦ rw log (ground arith)
        | inr e4 ↦ rw e4 (find_opcode-in_range byte single_opcodes refl)
      ])
    ])
  ])
]

-- Each opcode of a family that a byte decodes to is a member of the family: PUSH1 to PUSH32, DUP1
-- to DUP16, SWAP1 to SWAP16, LOG0 to LOG4.
pub decode-in_range : (byte : ℕ) (op : Opcode) → decode byte ≡ some op → in_range op ≡ true
decode-in_range byte op e = (rw e at (decode_cases byte))
