-- ===== src/Opcodes/Bytes.antt =====
-- The byte map against the enumeration of the opcodes.
use zvmone.Prelude.{
  ℕ, ◌≡◌, ◌↔◌, refl, sym, Bool, true, ◌&&◌, Option, none, some, List, [], ◌∷◌, inl, inr, arith,
  Bool-cases, ◌==◌,
}
use zvmone.Opcodes.{
  Opcode, op_stop, op_add, op_mul, op_sub, op_div, op_sdiv, op_mod, op_smod, op_addmod, op_mulmod,
  op_exp, op_signextend, op_lt, op_gt, op_slt, op_sgt, op_eq, op_iszero, op_and, op_or, op_xor,
  op_not, op_byte, op_shl, op_shr, op_sar, op_keccak256, op_address, op_balance, op_origin,
  op_caller, op_callvalue, op_calldataload, op_calldatasize, op_calldatacopy, op_codesize,
  op_codecopy, op_gasprice, op_extcodesize, op_extcodecopy, op_returndatasize, op_returndatacopy,
  op_extcodehash, op_blockhash, op_coinbase, op_timestamp, op_number, op_prevrandao, op_gaslimit,
  op_chainid, op_selfbalance, op_basefee, op_pop, op_mload, op_mstore, op_mstore8, op_sload,
  op_sstore, op_jump, op_jumpi, op_pc, op_msize, op_gas, op_jumpdest, op_push0, op_create, op_call,
  op_return, op_delegatecall, op_create2, op_staticcall, op_revert, op_invalid, op_push, op_dup,
  op_swap, op_log, opcode_byte, single_opcodes, find_opcode, is_between, decode,
}
use zvmone.Opcodes.Ranges.{in_range, decode-in_range}

abbrev is_at : ℕ → Option Opcode → Bool
is_at byte none = true
is_at byte (some op) = opcode_byte op == byte

abbrev all_at : List (ℕ × Opcode) → Bool
all_at [] = true
all_at ((b, op) ∷ rest) = (opcode_byte op == b) && all_at rest

find_opcode_at :
    (byte : ℕ) (table : List (ℕ × Opcode))
    → all_at table ≡ true
    → is_at byte (find_opcode byte table) ≡ true
unfolding find_opcode
find_opcode_at byte [] h = refl
find_opcode_at byte ((b, op) ∷ rest) h = elim (Bool-cases (b == byte)) [
  | inl found ↦ rw found (ground arith)
  | inr other ↦ rw other (find_opcode_at byte rest (ground arith))
]

single_opcodes_at : all_at single_opcodes ≡ true
unfolding opcode_byte
single_opcodes_at = refl

decode_at : (byte : ℕ) → is_at byte (decode byte) ≡ true
unfolding decode opcode_byte
decode_at byte = elim (Bool-cases (is_between 0x60 0x7f byte)) [
  | inl push ↦ rw push (ground arith)
  | inr e1 ↦ rw e1 (elim (Bool-cases (is_between 0x80 0x8f byte)) [
    | inl dup ↦ rw dup (ground arith)
    | inr e2 ↦ rw e2 (elim (Bool-cases (is_between 0x90 0x9f byte)) [
      | inl swap ↦ rw swap (ground arith)
      | inr e3 ↦ rw e3 (elim (Bool-cases (is_between 0xa0 0xa4 byte)) [
        | inl log ↦ rw log (ground arith)
        | inr e4 ↦ rw e4 (find_opcode_at byte single_opcodes single_opcodes_at)
      ])
    ])
  ])
]

decode-opcode_byte : (op : Opcode) → in_range op ≡ true → decode (opcode_byte op) ≡ some op
unfolding decode opcode_byte find_opcode
decode-opcode_byte op_stop r = refl
decode-opcode_byte op_add r = refl
decode-opcode_byte op_mul r = refl
decode-opcode_byte op_sub r = refl
decode-opcode_byte op_div r = refl
decode-opcode_byte op_sdiv r = refl
decode-opcode_byte op_mod r = refl
decode-opcode_byte op_smod r = refl
decode-opcode_byte op_addmod r = refl
decode-opcode_byte op_mulmod r = refl
decode-opcode_byte op_exp r = refl
decode-opcode_byte op_signextend r = refl
decode-opcode_byte op_lt r = refl
decode-opcode_byte op_gt r = refl
decode-opcode_byte op_slt r = refl
decode-opcode_byte op_sgt r = refl
decode-opcode_byte op_eq r = refl
decode-opcode_byte op_iszero r = refl
decode-opcode_byte op_and r = refl
decode-opcode_byte op_or r = refl
decode-opcode_byte op_xor r = refl
decode-opcode_byte op_not r = refl
decode-opcode_byte op_byte r = refl
decode-opcode_byte op_shl r = refl
decode-opcode_byte op_shr r = refl
decode-opcode_byte op_sar r = refl
decode-opcode_byte op_keccak256 r = refl
decode-opcode_byte op_address r = refl
decode-opcode_byte op_balance r = refl
decode-opcode_byte op_origin r = refl
decode-opcode_byte op_caller r = refl
decode-opcode_byte op_callvalue r = refl
decode-opcode_byte op_calldataload r = refl
decode-opcode_byte op_calldatasize r = refl
decode-opcode_byte op_calldatacopy r = refl
decode-opcode_byte op_codesize r = refl
decode-opcode_byte op_codecopy r = refl
decode-opcode_byte op_gasprice r = refl
decode-opcode_byte op_extcodesize r = refl
decode-opcode_byte op_extcodecopy r = refl
decode-opcode_byte op_returndatasize r = refl
decode-opcode_byte op_returndatacopy r = refl
decode-opcode_byte op_extcodehash r = refl
decode-opcode_byte op_blockhash r = refl
decode-opcode_byte op_coinbase r = refl
decode-opcode_byte op_timestamp r = refl
decode-opcode_byte op_number r = refl
decode-opcode_byte op_prevrandao r = refl
decode-opcode_byte op_gaslimit r = refl
decode-opcode_byte op_chainid r = refl
decode-opcode_byte op_selfbalance r = refl
decode-opcode_byte op_basefee r = refl
decode-opcode_byte op_pop r = refl
decode-opcode_byte op_mload r = refl
decode-opcode_byte op_mstore r = refl
decode-opcode_byte op_mstore8 r = refl
decode-opcode_byte op_sload r = refl
decode-opcode_byte op_sstore r = refl
decode-opcode_byte op_jump r = refl
decode-opcode_byte op_jumpi r = refl
decode-opcode_byte op_pc r = refl
decode-opcode_byte op_msize r = refl
decode-opcode_byte op_gas r = refl
decode-opcode_byte op_jumpdest r = refl
decode-opcode_byte op_push0 r = refl
decode-opcode_byte op_create r = refl
decode-opcode_byte op_call r = refl
decode-opcode_byte op_return r = refl
decode-opcode_byte op_delegatecall r = refl
decode-opcode_byte op_create2 r = refl
decode-opcode_byte op_staticcall r = refl
decode-opcode_byte op_revert r = refl
decode-opcode_byte op_invalid r = refl
decode-opcode_byte (op_push n) r = ground arith
decode-opcode_byte (op_dup n) r = ground arith
decode-opcode_byte (op_swap n) r = ground arith
decode-opcode_byte (op_log n) r = ground arith

-- A byte decodes to an opcode exactly if the opcode is in range and has that byte in the
-- enumeration. In range are PUSH1 to PUSH32, DUP1 to DUP16, SWAP1 to SWAP16, LOG0 to LOG4 and all
-- single opcodes.
pub decode_iff :
    (byte : ℕ) (op : Opcode)
    → (decode byte ≡ some op) ↔ ((in_range op ≡ true) × (opcode_byte op ≡ byte))
decode_iff byte op = (
  (λ e. (
    decode-in_range byte op e,
    (let t : is_at byte (some op) ≡ true = (rw e at (decode_at byte)) in ground arith),
  )),
  (λ h. rw (sym h.1) (decode-opcode_byte op h.0)),
)
