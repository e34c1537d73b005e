-- ===== src/Instructions/Impl.antt =====
-- `instr::core::impl`: the implementation that MAP_OPCODES gives to each opcode.
use zvmone.Prelude.{ℕ, Option}
use zvmone.Zvmc.{StatusCode, success, revert, invalid_instruction}
use zvmone.Platform.{Platform}
use zvmone.Exec.{Exec, Context}
use zvmone.Opcodes.{
  Opcode, op_stop, op_add, op_mul, op_sub, op_div, op_sdiv, op_mod, op_smod, op_addmod, op_mulmod,
  op_exp, op_signextend, op_lt, op_gt, op_slt, op_sgt, op_eq, op_iszero, op_and, op_or, op_xor,
  op_not, op_byte, op_shl, op_shr, op_sar, op_keccak256, op_address, op_balance, op_origin,
  op_caller, op_callvalue, op_calldataload, op_calldatasize, op_calldatacopy, op_codesize,
  op_codecopy, op_gasprice, op_extcodesize, op_extcodecopy, op_returndatasize, op_returndatacopy,
  op_extcodehash, op_blockhash, op_coinbase, op_timestamp, op_number, op_prevrandao, op_gaslimit,
  op_chainid, op_selfbalance, op_basefee, op_pop, op_mload, op_mstore, op_mstore8, op_sload,
  op_sstore, op_jump, op_jumpi, op_pc, op_msize, op_gas, op_jumpdest, op_push0, op_create, op_call,
  op_return, op_delegatecall, op_create2, op_staticcall, op_revert, op_invalid, op_push, op_dup,
  op_swap, op_log,
}
use zvmone.Instructions.Arithmetic
use zvmone.Instructions.Bitwise
use zvmone.Instructions.Environment
use zvmone.Instructions.Buffers
use zvmone.Instructions.Flow
use zvmone.Instructions.Storage
use zvmone.Instructions.Calls
use zvmone.Instructions.Calls.{by_call, by_delegatecall, by_staticcall, by_create, by_create2}

-- The signatures of the implementations: those that return nothing or a Result, those that return
-- the next position, and those that return a TermResult.
pub data CoreFn (H : Type 0) : Type 0 where
  returns : Exec H (Unit {0}) → CoreFn H
  moves : (ℕ → Exec H (Option ℕ)) → CoreFn H
  terminates : Exec H StatusCode → CoreFn H

unfoldable pub impl : {H : Type 0} → Platform H → Context → Opcode → CoreFn H
impl p ctx op_stop = terminates (Flow.stop_impl success)
impl p ctx op_add = returns (Arithmetic.add p)
impl p ctx op_mul = returns (Arithmetic.mul p)
impl p ctx op_sub = returns (Arithmetic.sub p)
impl p ctx op_div = returns (Arithmetic.div p)
impl p ctx op_sdiv = returns (Arithmetic.sdiv p)
impl p ctx op_mod = returns (Arithmetic.mod_ p)
impl p ctx op_smod = returns (Arithmetic.smod p)
impl p ctx op_addmod = returns (Arithmetic.addmod p)
impl p ctx op_mulmod = returns (Arithmetic.mulmod p)
impl p ctx op_exp = returns (Arithmetic.exp p)
impl p ctx op_signextend = returns (Arithmetic.signextend p)
impl p ctx op_lt = returns (Bitwise.lt p)
impl p ctx op_gt = returns (Bitwise.gt p)
impl p ctx op_slt = returns (Bitwise.slt p)
impl p ctx op_sgt = returns (Bitwise.sgt p)
impl p ctx op_eq = returns (Bitwise.eq p)
impl p ctx op_iszero = returns (Bitwise.iszero p)
impl p ctx op_and = returns (Bitwise.and_ p)
impl p ctx op_or = returns (Bitwise.or_ p)
impl p ctx op_xor = returns (Bitwise.xor_ p)
impl p ctx op_not = returns (Bitwise.not_ p)
impl p ctx op_byte = returns (Bitwise.byte p)
impl p ctx op_shl = returns (Bitwise.shl p)
impl p ctx op_shr = returns (Bitwise.shr p)
impl p ctx op_sar = returns (Bitwise.sar p)
impl p ctx op_keccak256 = returns (Buffers.keccak256 p ctx)
impl p ctx op_address = returns (Environment.address p ctx)
impl p ctx op_balance = returns (Environment.balance p ctx)
impl p ctx op_origin = returns (Environment.origin p ctx)
impl p ctx op_caller = returns (Environment.caller p ctx)
impl p ctx op_callvalue = returns (Environment.callvalue p ctx)
impl p ctx op_calldataload = returns (Environment.calldataload p ctx)
impl p ctx op_calldatasize = returns (Environment.calldatasize p ctx)
impl p ctx op_calldatacopy = returns (Buffers.calldatacopy p ctx)
impl p ctx op_codesize = returns (Environment.codesize p ctx)
impl p ctx op_codecopy = returns (Buffers.codecopy p ctx)
impl p ctx op_gasprice = returns (Environment.gasprice p ctx)
impl p ctx op_extcodesize = returns (Environment.extcodesize p ctx)
impl p ctx op_extcodecopy = returns (Buffers.extcodecopy p ctx)
impl p ctx op_returndatasize = returns (Environment.returndatasize p ctx)
impl p ctx op_returndatacopy = returns (Buffers.returndatacopy p ctx)
impl p ctx op_extcodehash = returns (Environment.extcodehash p ctx)
impl p ctx op_blockhash = returns (Environment.blockhash p ctx)
impl p ctx op_coinbase = returns (Environment.coinbase p ctx)
impl p ctx op_timestamp = returns (Environment.timestamp p ctx)
impl p ctx op_number = returns (Environment.number p ctx)
impl p ctx op_prevrandao = returns (Environment.prevrandao p ctx)
impl p ctx op_gaslimit = returns (Environment.gaslimit p ctx)
impl p ctx op_chainid = returns (Environment.chainid p ctx)
impl p ctx op_selfbalance = returns (Environment.selfbalance p ctx)
impl p ctx op_basefee = returns (Environment.basefee p ctx)
impl p ctx op_pop = returns Flow.noop
impl p ctx op_mload = returns (Buffers.mload p ctx)
impl p ctx op_mstore = returns (Buffers.mstore p ctx)
impl p ctx op_mstore8 = returns (Buffers.mstore8 p ctx)
impl p ctx op_sload = returns (Storage.sload p ctx)
impl p ctx op_sstore = returns (Storage.sstore p ctx)
impl p ctx op_jump = moves (Flow.jump p ctx)
impl p ctx op_jumpi = moves (Flow.jumpi p ctx)
impl p ctx op_pc = moves (Flow.pc p ctx)
impl p ctx op_msize = returns (Buffers.msize p ctx)
impl p ctx op_gas = returns (Flow.gas p ctx)
impl p ctx op_jumpdest = returns Flow.noop
impl p ctx op_push0 = returns Flow.push0
impl p ctx op_create = returns (Calls.create_impl p ctx by_create)
impl p ctx op_call = returns (Calls.call_impl p ctx by_call)
impl p ctx op_return = terminates (Buffers.return_impl p ctx success)
impl p ctx op_delegatecall = returns (Calls.call_impl p ctx by_delegatecall)
impl p ctx op_create2 = returns (Calls.create_impl p ctx by_create2)
impl p ctx op_staticcall = returns (Calls.call_impl p ctx by_staticcall)
impl p ctx op_revert = terminates (Buffers.return_impl p ctx revert)
impl p ctx op_invalid = terminates (Flow.stop_impl invalid_instruction)
impl p ctx (op_push n) = moves (Flow.push p ctx n)
impl p ctx (op_dup n) = returns (Flow.dup n)
impl p ctx (op_swap n) = returns (Flow.swap n)
impl p ctx (op_log n) = returns (Buffers.log p ctx n)
