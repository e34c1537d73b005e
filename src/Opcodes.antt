-- ===== src/Opcodes.antt =====
-- The opcodes of lib/zvmone/instructions_opcodes.hpp and the bytes that MAP_OPCODES of
-- lib/zvmone/instructions_xmacro.hpp maps to them. PUSH1 to PUSH32, DUP, SWAP and LOG are families.
pub mod Ranges
pub mod Bytes
use zvmone.Prelude.{
  ℕ, ◌+◌, ◌-◌, Bool, true, false, ◌&&◌, Option, none, some, List, [], ◌∷◌, leb, ◌==◌, if◌then◌else◌,
}

pub data Opcode : Type 0 where
  op_stop op_add op_mul op_sub op_div op_sdiv op_mod op_smod op_addmod op_mulmod : Opcode
  op_exp op_signextend op_lt op_gt op_slt op_sgt op_eq op_iszero op_and op_or op_xor : Opcode
  op_not op_byte op_shl op_shr op_sar op_keccak256 op_address op_balance op_origin : Opcode
  op_caller op_callvalue op_calldataload op_calldatasize op_calldatacopy op_codesize : Opcode
  op_codecopy op_gasprice op_extcodesize op_extcodecopy op_returndatasize : Opcode
  op_returndatacopy op_extcodehash op_blockhash op_coinbase op_timestamp op_number : Opcode
  op_prevrandao op_gaslimit op_chainid op_selfbalance op_basefee op_pop op_mload : Opcode
  op_mstore op_mstore8 op_sload op_sstore op_jump op_jumpi op_pc op_msize op_gas : Opcode
  op_jumpdest op_push0 op_create op_call op_return op_delegatecall op_create2 : Opcode
  op_staticcall op_revert op_invalid : Opcode
  op_push op_dup op_swap op_log : ℕ → Opcode

-- The values of the enumeration.
unfoldable pub opcode_byte : Opcode → ℕ
opcode_byte op_stop = 0x00
opcode_byte op_add = 0x01
opcode_byte op_mul = 0x02
opcode_byte op_sub = 0x03
opcode_byte op_div = 0x04
opcode_byte op_sdiv = 0x05
opcode_byte op_mod = 0x06
opcode_byte op_smod = 0x07
opcode_byte op_addmod = 0x08
opcode_byte op_mulmod = 0x09
opcode_byte op_exp = 0x0a
opcode_byte op_signextend = 0x0b
opcode_byte op_lt = 0x10
opcode_byte op_gt = 0x11
opcode_byte op_slt = 0x12
opcode_byte op_sgt = 0x13
opcode_byte op_eq = 0x14
opcode_byte op_iszero = 0x15
opcode_byte op_and = 0x16
opcode_byte op_or = 0x17
opcode_byte op_xor = 0x18
opcode_byte op_not = 0x19
opcode_byte op_byte = 0x1a
opcode_byte op_shl = 0x1b
opcode_byte op_shr = 0x1c
opcode_byte op_sar = 0x1d
opcode_byte op_keccak256 = 0x20
opcode_byte op_address = 0x30
opcode_byte op_balance = 0x31
opcode_byte op_origin = 0x32
opcode_byte op_caller = 0x33
opcode_byte op_callvalue = 0x34
opcode_byte op_calldataload = 0x35
opcode_byte op_calldatasize = 0x36
opcode_byte op_calldatacopy = 0x37
opcode_byte op_codesize = 0x38
opcode_byte op_codecopy = 0x39
opcode_byte op_gasprice = 0x3a
opcode_byte op_extcodesize = 0x3b
opcode_byte op_extcodecopy = 0x3c
opcode_byte op_returndatasize = 0x3d
opcode_byte op_returndatacopy = 0x3e
opcode_byte op_extcodehash = 0x3f
opcode_byte op_blockhash = 0x40
opcode_byte op_coinbase = 0x41
opcode_byte op_timestamp = 0x42
opcode_byte op_number = 0x43
opcode_byte op_prevrandao = 0x44
opcode_byte op_gaslimit = 0x45
opcode_byte op_chainid = 0x46
opcode_byte op_selfbalance = 0x47
opcode_byte op_basefee = 0x48
opcode_byte op_pop = 0x50
opcode_byte op_mload = 0x51
opcode_byte op_mstore = 0x52
opcode_byte op_mstore8 = 0x53
opcode_byte op_sload = 0x54
opcode_byte op_sstore = 0x55
opcode_byte op_jump = 0x56
opcode_byte op_jumpi = 0x57
opcode_byte op_pc = 0x58
opcode_byte op_msize = 0x59
opcode_byte op_gas = 0x5a
opcode_byte op_jumpdest = 0x5b
opcode_byte op_push0 = 0x5f
opcode_byte op_create = 0xf0
opcode_byte op_call = 0xf1
opcode_byte op_return = 0xf3
opcode_byte op_delegatecall = 0xf4
opcode_byte op_create2 = 0xf5
opcode_byte op_staticcall = 0xfa
opcode_byte op_revert = 0xfd
opcode_byte op_invalid = 0xfe
opcode_byte (op_push n) = 0x60 + (n - 1)
opcode_byte (op_dup n) = 0x80 + (n - 1)
opcode_byte (op_swap n) = 0x90 + (n - 1)
opcode_byte (op_log n) = 0xa0 + n

-- The bytes of the single opcodes.
abbrev pub single_opcodes : List (ℕ × Opcode)
single_opcodes =
    (0x00, op_stop)
    ∷ (0x01, op_add)
    ∷ (0x02, op_mul)
    ∷ (0x03, op_sub)
    ∷ (0x04, op_div)
    ∷ (0x05, op_sdiv)
    ∷ (0x06, op_mod)
    ∷ (0x07, op_smod)
    ∷ (0x08, op_addmod)
    ∷ (0x09, op_mulmod)
    ∷ (0x0a, op_exp)
    ∷ (0x0b, op_signextend)
    ∷ (0x10, op_lt)
    ∷ (0x11, op_gt)
    ∷ (0x12, op_slt)
    ∷ (0x13, op_sgt)
    ∷ (0x14, op_eq)
    ∷ (0x15, op_iszero)
    ∷ (0x16, op_and)
    ∷ (0x17, op_or)
    ∷ (0x18, op_xor)
    ∷ (0x19, op_not)
    ∷ (0x1a, op_byte)
    ∷ (0x1b, op_shl)
    ∷ (0x1c, op_shr)
    ∷ (0x1d, op_sar)
    ∷ (0x20, op_keccak256)
    ∷ (0x30, op_address)
    ∷ (0x31, op_balance)
    ∷ (0x32, op_origin)
    ∷ (0x33, op_caller)
    ∷ (0x34, op_callvalue)
    ∷ (0x35, op_calldataload)
    ∷ (0x36, op_calldatasize)
    ∷ (0x37, op_calldatacopy)
    ∷ (0x38, op_codesize)
    ∷ (0x39, op_codecopy)
    ∷ (0x3a, op_gasprice)
    ∷ (0x3b, op_extcodesize)
    ∷ (0x3c, op_extcodecopy)
    ∷ (0x3d, op_returndatasize)
    ∷ (0x3e, op_returndatacopy)
    ∷ (0x3f, op_extcodehash)
    ∷ (0x40, op_blockhash)
    ∷ (0x41, op_coinbase)
    ∷ (0x42, op_timestamp)
    ∷ (0x43, op_number)
    ∷ (0x44, op_prevrandao)
    ∷ (0x45, op_gaslimit)
    ∷ (0x46, op_chainid)
    ∷ (0x47, op_selfbalance)
    ∷ (0x48, op_basefee)
    ∷ (0x50, op_pop)
    ∷ (0x51, op_mload)
    ∷ (0x52, op_mstore)
    ∷ (0x53, op_mstore8)
    ∷ (0x54, op_sload)
    ∷ (0x55, op_sstore)
    ∷ (0x56, op_jump)
    ∷ (0x57, op_jumpi)
    ∷ (0x58, op_pc)
    ∷ (0x59, op_msize)
    ∷ (0x5a, op_gas)
    ∷ (0x5b, op_jumpdest)
    ∷ (0x5f, op_push0)
    ∷ (0xf0, op_create)
    ∷ (0xf1, op_call)
    ∷ (0xf3, op_return)
    ∷ (0xf4, op_delegatecall)
    ∷ (0xf5, op_create2)
    ∷ (0xfa, op_staticcall)
    ∷ (0xfd, op_revert)
    ∷ (0xfe, op_invalid)
    ∷ []

unfoldable pub find_opcode : ℕ → List (ℕ × Opcode) → Option Opcode
find_opcode byte [] = none
find_opcode byte ((b, op) ∷ rest) = if b == byte then some op else find_opcode byte rest

abbrev pub is_between : ℕ → ℕ → ℕ → Bool
is_between lo hi b = leb lo b && leb b hi

-- `none` for the bytes of ON_OPCODE_UNDEFINED.
unfoldable pub decode : ℕ → Option Opcode
unfolding find_opcode
decode byte =
    if is_between 0x60 0x7f byte
    then some (op_push (byte - 0x60 + 1))
    else if is_between 0x80 0x8f byte
    then some (op_dup (byte - 0x80 + 1))
    else if is_between 0x90 0x9f byte
    then some (op_swap (byte - 0x90 + 1))
    else if is_between 0xa0 0xa4 byte
    then some (op_log (byte - 0xa0))
    else find_opcode byte single_opcodes
