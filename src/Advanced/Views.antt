-- ===== src/Advanced/Views.antt =====
-- How the Advanced interpreter runs each opcode: the functions of
-- lib/zvmone/advanced_instructions.cpp and the cases of lib/zvmone/advanced_analysis.cpp.
use zvmone.Prelude.{ℕ, ◌≡◌, refl, some, List}
use zvmone.Zvmc.{Message}
use zvmone.Platform.{Platform}
use zvmone.Opcodes.{
  Opcode, op_sstore, op_jump, op_jumpi, op_pc, op_gas, op_jumpdest, op_create, op_call,
  op_delegatecall, op_create2, op_staticcall, op_push,
}
use zvmone.Instructions.Impl.{CoreFn, returns, moves, terminates, impl}
use zvmone.Instructions.Buffers
use zvmone.Instructions.Calls
use zvmone.Instructions.Environment
use zvmone.Instructions.Storage
use zvmone.Instructions.Flow
use zvmone.Baseline.Analysis
use zvmone.Advanced.Table.{fn_op, instruction_implementations}
use zvmone.Advanced.Analysis.{AdvancedCodeAnalysis, Instruction, keeps_gas, switch_case}
use zvmone.Advanced.Execution.{AdvancedState, op_corrected, call_fn, advanced_context}

abbrev pub IsCore : {H : Type 0} → CoreFn H → Type 0
IsCore (returns fn) = Unit {0}
IsCore (moves fn) = ⊥
IsCore (terminates fn) = Unit {0}

abbrev pub Returns : {H : Type 0} → CoreFn H → Type 0
Returns (returns fn) = Unit {0}
Returns (moves fn) = ⊥
Returns (terminates fn) = ⊥

module _ {H : Type 0} (p : Platform H) (msg : Message) (code : List ℕ) where
  -- The implementation is the same for the jump map and the padded code of the other interpreter.
  abbrev pub SameImpl : Opcode → Type 0
  SameImpl op = impl p (advanced_context msg code) op ≡ impl p (Analysis.analyze msg code) op

  pub data View : Opcode → Type 0 where
    wraps :
        {op : Opcode}
        → instruction_implementations op ≡ fn_op op
        → SameImpl op
        → IsCore (impl p (Analysis.analyze msg code) op)
        → View op
    corrects :
        {op : Opcode}
        → ((a : AdvancedCodeAnalysis) (instr : Instruction) (i : ℕ) (st : AdvancedState H)
            → call_fn p (advanced_context msg code) a (instruction_implementations op) instr i st
              ≡ op_corrected p (advanced_context msg code) op instr i st)
        → SameImpl op
        → switch_case (some op) ≡ keeps_gas
        → Returns (impl p (Analysis.analyze msg code) op)
        → View op
    reads_pc : View op_pc
    reads_gas : View op_gas
    jumps : View op_jump
    forks : View op_jumpi
    starts : View op_jumpdest
    pushes : (n : ℕ) → View (op_push n)

  pub view : (op : Opcode) → View op
  unfolding impl call_fn switch_case instruction_implementations Analysis.analyze Buffers.keccak256
      Buffers.copy_buffer Buffers.calldatacopy Buffers.codecopy Buffers.extcodecopy
      Buffers.returndatacopy Buffers.mload Buffers.mstore Buffers.mstore8 Buffers.msize
      Buffers.pop_topics Buffers.log_dynamic Buffers.log Buffers.return_impl Calls.clear_return_data
      Calls.call_host Calls.call_message Calls.call_execute Calls.call_charged Calls.call_operands
      Calls.call_impl Calls.create_message Calls.create_charged Calls.create_operands
      Calls.create_dynamic Calls.create_impl Environment.address Environment.balance
      Environment.origin Environment.caller Environment.callvalue Environment.calldataload
      Environment.calldatasize Environment.codesize Environment.gasprice Environment.basefee
      Environment.extcodesize Environment.returndatasize Environment.extcodehash
      Environment.blockhash Environment.coinbase Environment.timestamp Environment.number
      Environment.prevrandao Environment.gaslimit Environment.chainid Environment.selfbalance
      Storage.spend_if_cold Storage.sload Storage.sstore Flow.gas
  view op_sstore = corrects (λ a instr i st. refl) refl refl tt
  view op_jump = jumps
  view op_jumpi = forks
  view op_pc = reads_pc
  view op_gas = reads_gas
  view op_jumpdest = starts
  view op_create = corrects (λ a instr i st. refl) refl refl tt
  view op_call = corrects (λ a instr i st. refl) refl refl tt
  view op_delegatecall = corrects (λ a instr i st. refl) refl refl tt
  view op_create2 = corrects (λ a instr i st. refl) refl refl tt
  view op_staticcall = corrects (λ a instr i st. refl) refl refl tt
  view (op_push n) = pushes n
  view _ = wraps refl refl tt
