-- ===== src/Instructions/Safety/Table.antt =====
-- All implementations against the tables of lib/zvmone/instructions_traits.hpp: stack requirements,
-- stack height changes and base costs.
use zvmone.Prelude.{◌+◌, ◌≡◌, refl, true, arith}
use zvmone.Prelude.Int.{◌+ℤ◌, int_laws}
use zvmone.Platform.{Platform, IsPlatform}
use zvmone.Exec.{Context}
use zvmone.Exec.Rules.{weaken-Safe}
use zvmone.Opcodes.{
  Opcode, op_stop, op_add, op_mul, op_sub, op_div, op_sdiv, op_mod, op_smod, op_addmod, op_mulmod,
  op_exp, op_signextend, op_lt, op_gt, op_slt, op_sgt, op_eq, op_iszero, op_and, op_or, op_xor,
  op_not, op_byte, op_shl, op_shr, op_sar, op_keccak256, op_address, op_balance, op_origin,
  op_caller, op_callvalue, op_calldataload, op_calldatasize, op_calldatacopy, op_codesize,
  op_codecopy, op_gasprice, op_extcodesize, op_extcodecopy, op_returndatasize, op_returndatacopy,
  op_extcodehash, op_blockhash, op_coinbase, op_timestamp, op_number, op_prevrandao, op_gaslimit,
  op_chainid, op_selfbalance, op_basefee, op_pop, op_mload, op_mstore, op_mstore8, op_sload,
  op_sstore, op_jump, op_jumpi, op_pc, op_msize, op_gas, op_jumpdest, op_push0, op_create, op_call,
  op_return, op_delegatecall, op_create2, op_staticcall, op_revert, op_invalid, op_push, op_dup,
  op_swap, op_log,
}
use zvmone.Opcodes.Ranges.{in_range}
use zvmone.Traits.{gas_costs, traits}
use zvmone.Instructions.Impl.{impl}
use zvmone.Instructions.Safety.Flow.{
  noop-Meets, push0-Meets, dup-Meets, swap-Meets, push-Safe, pc-Safe, gas-Meets, jump-Safe,
  jumpi-Safe, stop-Safe, return-Safe,
}
use zvmone.Instructions.Safety.Words
use zvmone.Instructions.Safety.Environment
use zvmone.Instructions.Safety.Buffers
use zvmone.Instructions.Safety.Storage
use zvmone.Instructions.Safety.Calls
use zvmone.Instructions.Safety.Creations
use zvmone.Instructions.Safety.Conforming.{IsContext, Conforms, meets}

module _ {H : Type 0} (p : Platform H) (w : IsPlatform p) (ctx : Context) (x : IsContext ctx) where
  -- For a platform that keeps its laws and an analysed code, every opcode in range keeps what the
  -- tables say of its implementation: with the required stack height it does not fault, the items
  -- that it leaves cover the change of the height, its moves stay inside of the padded code, and
  -- the gas used is positive unless it ends the execution.
  pub impl-Conforms : (op : Opcode) → in_range op ≡ true → Conforms ctx op (impl p ctx op)
  unfolding Conforms traits gas_costs impl ◌+ℤ◌
  impl-Conforms op_stop r = λ f v h. stop-Safe p _ f v
  impl-Conforms op_add r = meets ctx op_add 1 _ (Words.add-Meets p) (omega arith) (omega arith)
  impl-Conforms op_mul r = meets ctx op_mul 1 _ (Words.mul-Meets p) (omega arith) (omega arith)
  impl-Conforms op_sub r = meets ctx op_sub 2 _ (Words.sub-Meets p) (omega arith) (omega arith)
  impl-Conforms op_div r = meets ctx op_div 2 _ (Words.div-Meets p) (omega arith) (omega arith)
  impl-Conforms op_sdiv r = meets ctx op_sdiv 2 _ (Words.sdiv-Meets p) (omega arith) (omega arith)
  impl-Conforms op_mod r = meets ctx op_mod 2 _ (Words.mod_-Meets p) (omega arith) (omega arith)
  impl-Conforms op_smod r = meets ctx op_smod 2 _ (Words.smod-Meets p) (omega arith) (omega arith)
  impl-Conforms op_addmod r =
      meets ctx op_addmod 1 _ (Words.addmod-Meets p) (omega arith) (omega arith)
  impl-Conforms op_mulmod r =
      meets ctx op_mulmod 3 _ (Words.mulmod-Meets p) (omega arith) (omega arith)
  impl-Conforms op_exp r = meets ctx op_exp 1 _ (Words.exp-Meets p) (omega arith) (omega arith)
  impl-Conforms op_signextend r =
      meets ctx op_signextend 1 _ (Words.signextend-Meets p) (omega arith) (omega arith)
  impl-Conforms op_lt r = meets ctx op_lt 1 _ (Words.lt-Meets p) (omega arith) (omega arith)
  impl-Conforms op_gt r = meets ctx op_gt 1 _ (Words.gt-Meets p) (omega arith) (omega arith)
  impl-Conforms op_slt r = meets ctx op_slt 1 _ (Words.slt-Meets p) (omega arith) (omega arith)
  impl-Conforms op_sgt r = meets ctx op_sgt 1 _ (Words.sgt-Meets p) (omega arith) (omega arith)
  impl-Conforms op_eq r = meets ctx op_eq 2 _ (Words.eq-Meets p) (omega arith) (omega arith)
  impl-Conforms op_iszero r =
      meets ctx op_iszero 1 _ (Words.iszero-Meets p) (omega arith) (omega arith)
  impl-Conforms op_and r = meets ctx op_and 1 _ (Words.and_-Meets p) (omega arith) (omega arith)
  impl-Conforms op_or r = meets ctx op_or 1 _ (Words.or_-Meets p) (omega arith) (omega arith)
  impl-Conforms op_xor r = meets ctx op_xor 1 _ (Words.xor_-Meets p) (omega arith) (omega arith)
  impl-Conforms op_not r = meets ctx op_not 1 _ (Words.not_-Meets p) (omega arith) (omega arith)
  impl-Conforms op_byte r = meets ctx op_byte 1 _ (Words.byte-Meets p) (omega arith) (omega arith)
  impl-Conforms op_shl r = meets ctx op_shl 1 _ (Words.shl-Meets p) (omega arith) (omega arith)
  impl-Conforms op_shr r = meets ctx op_shr 1 _ (Words.shr-Meets p) (omega arith) (omega arith)
  impl-Conforms op_sar r = meets ctx op_sar 1 _ (Words.sar-Meets p) (omega arith) (omega arith)
  impl-Conforms op_keccak256 r =
      meets ctx op_keccak256 1 _ (Buffers.keccak256-Meets p ctx) (omega arith) (omega arith)
  impl-Conforms op_address r =
      meets ctx op_address 1 _ (Environment.address-Meets p ctx) (omega arith) (omega arith)
  impl-Conforms op_balance r =
      meets ctx op_balance 1 _ (Environment.balance-Meets p ctx) (omega arith) (omega arith)
  impl-Conforms op_origin r =
      meets ctx op_origin 1 _ (Environment.origin-Meets p ctx) (omega arith) (omega arith)
  impl-Conforms op_caller r =
      meets ctx op_caller 1 _ (Environment.caller-Meets p ctx) (omega arith) (omega arith)
  impl-Conforms op_callvalue r =
      meets ctx op_callvalue 1 _ (Environment.callvalue-Meets p ctx) (omega arith) (omega arith)
  impl-Conforms op_calldataload r =
      meets ctx op_calldataload 1 _ (Environment.calldataload-Meets p ctx w x.input_small)
        (omega arith) (omega arith)
  impl-Conforms op_calldatasize r =
      meets ctx op_calldatasize 1 _ (Environment.calldatasize-Meets p ctx) (omega arith)
        (omega arith)
  impl-Conforms op_calldatacopy r =
      meets ctx op_calldatacopy 0 _ (Buffers.calldatacopy-Meets p ctx w x.input_small) (omega arith)
        (omega arith)
  impl-Conforms op_codesize r =
      meets ctx op_codesize 1 _ (Environment.codesize-Meets p ctx) (omega arith) (omega arith)
  impl-Conforms op_codecopy r =
      meets ctx op_codecopy 0 _ (Buffers.codecopy-Meets p ctx w x.code_small) (omega arith)
        (omega arith)
  impl-Conforms op_gasprice r =
      meets ctx op_gasprice 1 _ (Environment.gasprice-Meets p ctx) (omega arith) (omega arith)
  impl-Conforms op_extcodesize r =
      meets ctx op_extcodesize 1 _ (Environment.extcodesize-Meets p ctx) (omega arith) (omega arith)
  impl-Conforms op_extcodecopy r =
      meets ctx op_extcodecopy 0 _ (Buffers.extcodecopy-Meets p ctx w) (omega arith) (omega arith)
  impl-Conforms op_returndatasize r =
      meets ctx op_returndatasize 1 _ (Environment.returndatasize-Meets p ctx) (omega arith)
        (omega arith)
  impl-Conforms op_returndatacopy r =
      meets ctx op_returndatacopy 0 _ (Buffers.returndatacopy-Meets p ctx w) (omega arith)
        (omega arith)
  impl-Conforms op_extcodehash r =
      meets ctx op_extcodehash 1 _ (Environment.extcodehash-Meets p ctx) (omega arith) (omega arith)
  impl-Conforms op_blockhash r =
      meets ctx op_blockhash 1 _ (Environment.blockhash-Meets p ctx) (omega arith) (omega arith)
  impl-Conforms op_coinbase r =
      meets ctx op_coinbase 1 _ (Environment.coinbase-Meets p ctx) (omega arith) (omega arith)
  impl-Conforms op_timestamp r =
      meets ctx op_timestamp 1 _ (Environment.timestamp-Meets p ctx) (omega arith) (omega arith)
  impl-Conforms op_number r =
      meets ctx op_number 1 _ (Environment.number-Meets p ctx) (omega arith) (omega arith)
  impl-Conforms op_prevrandao r =
      meets ctx op_prevrandao 1 _ (Environment.prevrandao-Meets p ctx) (omega arith) (omega arith)
  impl-Conforms op_gaslimit r =
      meets ctx op_gaslimit 1 _ (Environment.gaslimit-Meets p ctx) (omega arith) (omega arith)
  impl-Conforms op_chainid r =
      meets ctx op_chainid 1 _ (Environment.chainid-Meets p ctx) (omega arith) (omega arith)
  impl-Conforms op_selfbalance r =
      meets ctx op_selfbalance 1 _ (Environment.selfbalance-Meets p ctx) (omega arith) (omega arith)
  impl-Conforms op_basefee r =
      meets ctx op_basefee 1 _ (Environment.basefee-Meets p ctx) (omega arith) (omega arith)
  impl-Conforms op_pop r = meets ctx op_pop 1 _ (noop-Meets 1) (omega arith) (omega arith)
  impl-Conforms op_mload r =
      meets ctx op_mload 1 _ (Buffers.mload-Meets p ctx) (omega arith) (omega arith)
  impl-Conforms op_mstore r =
      meets ctx op_mstore 0 _ (Buffers.mstore-Meets p ctx w) (omega arith) (omega arith)
  impl-Conforms op_mstore8 r =
      meets ctx op_mstore8 0 _ (Buffers.mstore8-Meets p ctx) (omega arith) (omega arith)
  impl-Conforms op_sload r =
      meets ctx op_sload 1 _ (Storage.sload-Meets p ctx) (omega arith) (omega arith)
  impl-Conforms op_sstore r = (
    0,
    100,
    (λ n f v h. weaken-Safe (Storage.sstore-Safe p ctx n f v h) (λ u f' (d, s). record {
      frame = d.frame;
      height = omega (arith, d.height);
      paid = d.paid;
    })),
    omega arith,
    omega arith,
  )
  impl-Conforms op_jump r = (
    0,
    (λ q n f v b h.
        jump-Safe p ctx q n f w v (omega (arith, x.map_length, x.code_small)) h _
          (omega (arith, x.map_length, x.padded_length))),
    omega arith,
    omega arith,
  )
  impl-Conforms op_jumpi r = (
    0,
    (λ q n f v b h.
        jumpi-Safe p ctx q n f w v (omega (arith, x.map_length, x.code_small)) h _
          (omega (arith, x.map_length, x.padded_length)) (omega (arith, x.padded_length))),
    omega arith,
    omega arith,
  )
  impl-Conforms op_pc r = (
    1,
    (λ q n f v b h. pc-Safe p ctx q n f v (omega arith) _ (omega (arith, x.padded_length))),
    omega arith,
    omega arith,
  )
  impl-Conforms op_msize r =
      meets ctx op_msize 1 _ (Buffers.msize-Meets p ctx) (omega arith) (omega arith)
  impl-Conforms op_gas r = meets ctx op_gas 1 _ (gas-Meets p ctx) (omega arith) (omega arith)
  impl-Conforms op_jumpdest r = meets ctx op_jumpdest 0 _ (noop-Meets 0) (omega arith) (omega arith)
  impl-Conforms op_push0 r = meets ctx op_push0 1 _ push0-Meets (omega arith) (omega arith)
  impl-Conforms op_create r =
      meets ctx op_create 1 _ (Creations.create-Meets p w ctx) (omega arith) (omega arith)
  impl-Conforms op_call r =
      meets ctx op_call 1 _ (Calls.call-Meets p w ctx) (omega arith) (omega arith)
  impl-Conforms op_return r = λ f v h. return-Safe p ctx _ f v refl h
  impl-Conforms op_delegatecall r =
      meets ctx op_delegatecall 1 _ (Calls.delegatecall-Meets p w ctx) (omega arith) (omega arith)
  impl-Conforms op_create2 r =
      meets ctx op_create2 1 _ (Creations.create2-Meets p w ctx) (omega arith) (omega arith)
  impl-Conforms op_staticcall r =
      meets ctx op_staticcall 1 _ (Calls.staticcall-Meets p w ctx) (omega arith) (omega arith)
  impl-Conforms op_revert r = λ f v h. return-Safe p ctx _ f v refl h
  impl-Conforms op_invalid r = λ f v h. stop-Safe p _ f v
  impl-Conforms (op_push n) r = (
    1,
    (λ q k f v b h.
        push-Safe p ctx n q k f v (ground arith) (omega (arith, x.padded_length)) (omega arith) _
          (ground (arith, x.padded_length))),
    omega arith,
    omega arith,
  )
  impl-Conforms (op_dup n) r =
      meets ctx (op_dup n) (n + 1) _ (dup-Meets n (ground arith)) (ground arith) (omega arith)
  impl-Conforms (op_swap n) r =
      meets ctx (op_swap n) (n + 1) _ (swap-Meets n) (ground arith) (omega arith)
  impl-Conforms (op_log n) r = (
    0,
    0,
    (λ k f v h. weaken-Safe (Buffers.log-Safe p ctx n k f v h) (λ u f' d. record {
      frame = d.frame;
      height = omega (arith, d.height);
      paid = (let e = d.paid in omega int_laws);
    })),
    ground arith,
    omega arith,
  )
