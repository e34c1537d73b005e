-- ===== src/Lib.antt =====
-- The core of zvmone, an implementation of the Zond Virtual Machine: the instructions, the two
-- interpreters that run them, Baseline and Advanced, and the state that transactions change.
--
-- The parts and their files, with the paths of the source from the repository's root:
--   Prelude      names, lists, integers and bit operations that the other modules share.
--   Uint256      the 256-bit word, as four 64-bit words (lib/zvmone/execution_state.hpp).
--   Memory       class Memory of lib/zvmone/execution_state.hpp, with grow_memory and the two
--                check_memory of lib/zvmone/instructions.hpp, which are check_memory and check_memory_copy.
--   Zvmc         the types of the ZVMC interface, and Platform what the interpreter is linked with: intx,
--                Keccak-256 and the host. They are parameters, with the laws IsPlatform.
--   Exec         ExecutionState, and the monad Exec in which an instruction runs. An instruction goes on,
--                returns early with a status, or faults. A fault stands for what C++ leaves undefined: a
--                read below the stack or outside of a buffer, a write outside of the memory.
--   Instructions the functions of lib/zvmone/instructions.hpp, instructions_calls.cpp and
--                instructions_storage.cpp in Arithmetic, Bitwise, Environment, Buffers, Flow, Storage and
--                Calls, under the names of the source (mod_ for mod). Impl is `instr::core::impl`.
--                Safety holds the proofs about them, Table the statement on all opcodes.
--   Opcodes      lib/zvmone/instructions_opcodes.hpp and the byte map of instructions_xmacro.hpp.
--   Traits       gas_costs and traits of lib/zvmone/instructions_traits.hpp.
--   Baseline     lib/zvmone/baseline.cpp: Analysis is the code analysis, check_requirements, invoke,
--                dispatch and execute are the functions of those names.
--   Advanced     the other interpreter: Table is the opcode table and the instruction functions of
--                lib/zvmone/advanced_instructions.cpp, Analysis the code analysis of
--                advanced_analysis.hpp and .cpp, Execution the instructions and the loop of
--                advanced_execution.cpp. Analysis/Compile defines the analysis without back-patching,
--                Blocks says what a block's information covers, Views how each opcode is run, and Safety
--                holds the proofs about a round and the loop.
--   Tracing      lib/zvmone/tracing.hpp and tracing.cpp: the two tracers and what they write.
--   Vm           lib/zvmone/vm.hpp and vm.cpp: the VM object, its options and its list of tracers.
--   State        the state of test/state that transactions change: Accounts (account.hpp and class State),
--                Host (host.cpp, with Host/Calls for Host::call), Precompiles (precompiles.cpp and
--                precompiles_cache.cpp), Rlp (rlp.hpp), Bloom (bloom_filter.cpp) and Transition
--                (state.cpp). Maps holds the maps that they share.
--   Tests        a small platform, and the theorems at concrete input.
--
-- How they interact: `execute` analyses the code and starts `dispatch`, which decodes the byte at the
-- position and invokes the opcode. `invoke` checks the stack and charges the base cost by the tables of
-- Traits, runs the implementation that Impl gives, and moves the stack pointer by the table's change. The
-- Advanced interpreter runs the same implementations, but checks stack and gas once for a block: its
-- analysis turns the code into instructions with a function and an argument, and BEGINBLOCK, the function
-- of JUMPDEST, charges for the block that its argument describes. `set_option` of Vm selects the
-- interpreter and adds the tracers of Tracing to the list that `notify` goes through.
--
-- State: a frame holds the stack up to the stack pointer, the top first, the gas left and the execution
-- state. What an execution only reads is the Context. Slots above the stack pointer hold no value.
--
-- Bounds and fuel: memory indexes wrap at 64 bits and gas is an integer that the checks keep in range. The
-- dispatch loop runs on fuel, one round more than the message's gas, since each round uses some gas. The
-- analysis runs on the length of the code, since each round moves on. The loop of the Advanced interpreter
-- has a round for each instruction for each unit of gas and some more, since a jump leads to a block that
-- costs gas, and a block ends within the instructions. Its analysis counts a block's gas exactly up to
-- 2^32 - 1, so statements about it ask for a code whose length times 32000 (the highest base cost) is
-- less than 2^32.
--
-- Not modelled: the characters that a tracer writes for a number or a name, the C interface that creates
-- and destroys the VM, failure of allocation, which ends the process, the revisions, of which the source
-- knows one, the files of the precompiles' cache, and the trie of test/state. The VM that the host calls is
-- a parameter of the host, and the host a parameter of the interpreters. In the Advanced interpreter a
-- pointer to an instruction or to a push value is an index, and the asserts on reserved sizes are left out.
-- The refund counter is an unbounded integer: an overflow of the int64_t is not modelled, and no law of the
-- platform bounds the refund of a call. Where the state of test/state asserts a condition that its own steps do not
-- establish, a failed assertion gives `none`, or `undefined_call` in Precompiles.
pub mod Prelude
pub mod Uint256
pub mod Memory
pub mod Zvmc
pub mod Platform
pub mod Exec
pub mod Instructions
pub mod Opcodes
pub mod Traits
pub mod Advanced
pub mod Baseline
pub mod Tracing
pub mod Vm
pub mod State
pub mod Tests
