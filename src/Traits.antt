-- ===== src/Traits.antt =====
-- The tables of lib/zvmone/instructions_traits.hpp, for the one revision. The names are left out.
pub mod Bounds
use zvmone.Prelude.{ℕ, ◌+◌, ◌*◌, Bool, true, false}
use zvmone.Prelude.Int.{ℤ, pos, negsuc}
use zvmone.Exec.{warm_storage_read_cost}
use zvmone.Opcodes.{
  Opcode, op_stop, op_add, op_mul, op_sub, op_div, op_sdiv, op_mod, op_smod, op_addmod, op_mulmod,
  op_exp, op_signextend, op_lt, op_gt, op_slt, op_sgt, op_eq, op_iszero, op_and, op_or, op_xor,
  op_not, op_byte, op_shl, op_shr, op_sar, op_keccak256, op_address, op_balance, op_origin,
  op_caller, op_callvalue, op_calldataload, op_calldatasize, op_calldatacopy, op_codesize,
  op_codecopy, op_gasprice, op_extcodesize, op_extcodecopy, op_returndatasize, op_returndatacopy,
  op_extcodehash, op_blockhash, op_coinbase, op_timestamp, op_number, op_prevrandao, op_gaslimit,
  op_chainid, op_selfbalance, op_basefee, op_pop, op_mload, op_mstore, op_mstore8, op_sload,
  op_sstore, op_jump, op_jumpi, op_pc, op_msize, op_gas, op_jumpdest, op_push0, op_create, op_call,
  op_return, op_delegatecall, op_create2, op_staticcall, op_revert, op_invalid, op_push, op_dup,
  op_swap, op_log,
}

-- `gas_costs[ZVMC_SHANGHAI]` of the defined opcodes.
unfoldable pub gas_costs : Opcode → ℕ
gas_costs op_stop = 0
gas_costs op_add = 3
gas_costs op_mul = 5
gas_costs op_sub = 3
gas_costs op_div = 5
gas_costs op_sdiv = 5
gas_costs op_mod = 5
gas_costs op_smod = 5
gas_costs op_addmod = 8
gas_costs op_mulmod = 8
gas_costs op_exp = 10
gas_costs op_signextend = 5
gas_costs op_lt = 3
gas_costs op_gt = 3
gas_costs op_slt = 3
gas_costs op_sgt = 3
gas_costs op_eq = 3
gas_costs op_iszero = 3
gas_costs op_and = 3
gas_costs op_or = 3
gas_costs op_xor = 3
gas_costs op_not = 3
gas_costs op_byte = 3
gas_costs op_shl = 3
gas_costs op_shr = 3
gas_costs op_sar = 3
gas_costs op_keccak256 = 30
gas_costs op_address = 2
gas_costs op_balance = warm_storage_read_cost
gas_costs op_origin = 2
gas_costs op_caller = 2
gas_costs op_callvalue = 2
gas_costs op_calldataload = 3
gas_costs op_calldatasize = 2
gas_costs op_calldatacopy = 3
gas_costs op_codesize = 2
gas_costs op_codecopy = 3
gas_costs op_gasprice = 2
gas_costs op_extcodesize = warm_storage_read_cost
gas_costs op_extcodecopy = warm_storage_read_cost
gas_costs op_returndatasize = 2
gas_costs op_returndatacopy = 3
gas_costs op_extcodehash = warm_storage_read_cost
gas_costs op_blockhash = 20
gas_costs op_coinbase = 2
gas_costs op_timestamp = 2
gas_costs op_number = 2
gas_costs op_prevrandao = 2
gas_costs op_gaslimit = 2
gas_costs op_chainid = 2
gas_costs op_selfbalance = 5
gas_costs op_basefee = 2
gas_costs op_pop = 2
gas_costs op_mload = 3
gas_costs op_mstore = 3
gas_costs op_mstore8 = 3
gas_costs op_sload = warm_storage_read_cost
gas_costs op_sstore = 0
gas_costs op_jump = 8
gas_costs op_jumpi = 10
gas_costs op_pc = 2
gas_costs op_msize = 2
gas_costs op_gas = 2
gas_costs op_jumpdest = 1
gas_costs op_push0 = 2
gas_costs op_create = 32000
gas_costs op_call = warm_storage_read_cost
gas_costs op_return = 0
gas_costs op_delegatecall = warm_storage_read_cost
gas_costs op_create2 = 32000
gas_costs op_staticcall = warm_storage_read_cost
gas_costs op_revert = 0
gas_costs op_invalid = 0
gas_costs (op_push n) = 3
gas_costs (op_dup n) = 3
gas_costs (op_swap n) = 3
gas_costs (op_log n) = (n + 1) * 375

pub record Traits : Type 0 where
  pub immediate_size : ℕ
  pub is_terminating : Bool
  pub stack_height_required : ℕ
  pub stack_height_change : ℤ

abbrev pub entry : ℕ → Bool → ℕ → ℤ → Traits
entry immediate terminating required change = record {
  immediate_size = immediate;
  is_terminating = terminating;
  stack_height_required = required;
  stack_height_change = change;
}

unfoldable pub traits : Opcode → Traits
traits op_stop = entry 0 true 0 (pos 0)
traits op_add = entry 0 false 2 (negsuc 0)
traits op_mul = entry 0 false 2 (negsuc 0)
traits op_sub = entry 0 false 2 (negsuc 0)
traits op_div = entry 0 false 2 (negsuc 0)
traits op_sdiv = entry 0 false 2 (negsuc 0)
traits op_mod = entry 0 false 2 (negsuc 0)
traits op_smod = entry 0 false 2 (negsuc 0)
traits op_addmod = entry 0 false 3 (negsuc 1)
traits op_mulmod = entry 0 false 3 (negsuc 1)
traits op_exp = entry 0 false 2 (negsuc 0)
traits op_signextend = entry 0 false 2 (negsuc 0)
traits op_lt = entry 0 false 2 (negsuc 0)
traits op_gt = entry 0 false 2 (negsuc 0)
traits op_slt = entry 0 false 2 (negsuc 0)
traits op_sgt = entry 0 false 2 (negsuc 0)
traits op_eq = entry 0 false 2 (negsuc 0)
traits op_iszero = entry 0 false 1 (pos 0)
traits op_and = entry 0 false 2 (negsuc 0)
traits op_or = entry 0 false 2 (negsuc 0)
traits op_xor = entry 0 false 2 (negsuc 0)
traits op_not = entry 0 false 1 (pos 0)
traits op_byte = entry 0 false 2 (negsuc 0)
traits op_shl = entry 0 false 2 (negsuc 0)
traits op_shr = entry 0 false 2 (negsuc 0)
traits op_sar = entry 0 false 2 (negsuc 0)
traits op_keccak256 = entry 0 false 2 (negsuc 0)
traits op_address = entry 0 false 0 (pos 1)
traits op_balance = entry 0 false 1 (pos 0)
traits op_origin = entry 0 false 0 (pos 1)
traits op_caller = entry 0 false 0 (pos 1)
traits op_callvalue = entry 0 false 0 (pos 1)
traits op_calldataload = entry 0 false 1 (pos 0)
traits op_calldatasize = entry 0 false 0 (pos 1)
traits op_calldatacopy = entry 0 false 3 (negsuc 2)
traits op_codesize = entry 0 false 0 (pos 1)
traits op_codecopy = entry 0 false 3 (negsuc 2)
traits op_gasprice = entry 0 false 0 (pos 1)
traits op_extcodesize = entry 0 false 1 (pos 0)
traits op_extcodecopy = entry 0 false 4 (negsuc 3)
traits op_returndatasize = entry 0 false 0 (pos 1)
traits op_returndatacopy = entry 0 false 3 (negsuc 2)
traits op_extcodehash = entry 0 false 1 (pos 0)
traits op_blockhash = entry 0 false 1 (pos 0)
traits op_coinbase = entry 0 false 0 (pos 1)
traits op_timestamp = entry 0 false 0 (pos 1)
traits op_number = entry 0 false 0 (pos 1)
traits op_prevrandao = entry 0 false 0 (pos 1)
traits op_gaslimit = entry 0 false 0 (pos 1)
traits op_chainid = entry 0 false 0 (pos 1)
traits op_selfbalance = entry 0 false 0 (pos 1)
traits op_basefee = entry 0 false 0 (pos 1)
traits op_pop = entry 0 false 1 (negsuc 0)
traits op_mload = entry 0 false 1 (pos 0)
traits op_mstore = entry 0 false 2 (negsuc 1)
traits op_mstore8 = entry 0 false 2 (negsuc 1)
traits op_sload = entry 0 false 1 (pos 0)
traits op_sstore = entry 0 false 2 (negsuc 1)
traits op_jump = entry 0 false 1 (negsuc 0)
traits op_jumpi = entry 0 false 2 (negsuc 1)
traits op_pc = entry 0 false 0 (pos 1)
traits op_msize = entry 0 false 0 (pos 1)
traits op_gas = entry 0 false 0 (pos 1)
traits op_jumpdest = entry 0 false 0 (pos 0)
traits op_push0 = entry 0 false 0 (pos 1)
traits op_create = entry 0 false 3 (negsuc 1)
traits op_call = entry 0 false 7 (negsuc 5)
traits op_return = entry 0 true 2 (negsuc 1)
traits op_delegatecall = entry 0 false 6 (negsuc 4)
traits op_create2 = entry 0 false 4 (negsuc 2)
traits op_staticcall = entry 0 false 6 (negsuc 4)
traits op_revert = entry 0 true 2 (negsuc 1)
traits op_invalid = entry 0 true 0 (pos 0)
traits (op_push n) = entry n false 0 (pos 1)
traits (op_dup n) = entry 0 false n (pos 1)
traits (op_swap n) = entry 0 false (n + 1) (pos 0)
traits (op_log n) = entry 0 false (n + 2) (negsuc (n + 1))
