-- ===== src/Tests.antt =====
-- Runs on concrete input, with a small platform: 256-bit comparison and conversion as of numbers, and
-- a host that knows no account and keeps no state. A theorem's use is named `..._example`.
mod Advanced
mod Vm
mod Interpreter
mod State
use zvmone.Prelude.{
  ◌++◌, ℕ, ◌+◌, ◌-◌, ◌*◌, ◌/◌, ◌%◌, ◌^◌, ◌≤◌, ◌≡◌, ◌⊎◌, ◌↔◌, refl, arith, true, false, none, some,
  inl, List, [], ◌∷◌, replicate, get_or, get_elem?, ltb, ◌==◌, if◌then◌else◌,
}
use zvmone.Prelude.Int.{ℤ, pos, negsuc, ◌≤ℤ◌, ◌-ℤ◌, ◌+ℤ◌, leb_ℤ}
use zvmone.Uint256.{Uint256, of_uint64, of_value, value, value-of_value}
use zvmone.Zvmc
use zvmone.Zvmc.{StatusCode, success, Message, CallResult}
use zvmone.Platform.{Platform, IsPlatform, Intx, HostInterface, big_endian}
use zvmone.Memory.{
  Memory, new_memory, max_buffer_size, check_memory, check_memory_copy, grow_memory, load, store,
  grown_capacity,
}
use zvmone.Memory.Grow.{IsMemory, max_memory, grown_capacity-bounds, new_memory-IsMemory}
use zvmone.Memory.Gas.{extended, extension_fee, grow_memory_lem}
use zvmone.Memory.Check.{charge, check_memory-charge, check_memory_copy-charge}
use zvmone.Exec.{Frame, Context, ok, with_stack}
use zvmone.Exec.Rules.{IsFrame, Safe}
use zvmone.Opcodes.{op_mulmod, op_dup, decode, opcode_byte}
use zvmone.Opcodes.Ranges.{in_range}
use zvmone.Opcodes.Bytes.{decode_iff}
use zvmone.Baseline.Pushes.{push-number_at}
use zvmone.Baseline.Pushes.Numbers.{number_at}
use zvmone.Traits.{traits, gas_costs}
use zvmone.Instructions.Impl.{impl}
use zvmone.Instructions.Bitwise.{byte}
use zvmone.Instructions.Bytes.{byte_number, byte-byte_number}
use zvmone.Instructions.Flow.{jump_impl, push}
use zvmone.Instructions.Buffers.{return_impl}
use zvmone.Instructions.Storage.{sstore}
use zvmone.Instructions.Calls.{by_call, call_gas, call_charged}
use zvmone.Instructions.Safety.Done.{IsDone, Finishes}
use zvmone.Instructions.Safety.Storage.{sstore-Safe}
use zvmone.Instructions.Safety.Calls.{call_gas-bounds, call_charged-Safe}
use zvmone.Instructions.Safety.Flow.{IsEnd, return-Safe}
use zvmone.Instructions.Safety.Table.{impl-Conforms}
use zvmone.Instructions.Safety.Conforming.{IsContext, Conforms}
use zvmone.Baseline.{
  no_tx, start, step, dispatch, finished, execute, check_requirements, stack_limit, set_status,
}
use zvmone.Baseline.Analysis.{analyze, pad_code, analyze_jumpdests}
use zvmone.Baseline.Analysis.Padding.{analyze-IsContext}
use zvmone.Baseline.Analysis.Boundary.{Reaches, byte_at, analyze_jumpdests-Reaches}
use zvmone.Baseline.Requirements.{check_requirements-success}
use zvmone.Baseline.Rounds.{step-IsNext}
use zvmone.Baseline.Invariant.{IsNext, IsRound, IsFinal}
use zvmone.Baseline.Execution.{IsResult, execute-IsResult, dispatch-finished, start-IsRound}
use zvmone.Baseline.Jumps.{IsJumpdest, jump_impl-IsJumpdest}

-- No account exists, and a call uses all of its gas.
abbrev host : HostInterface ℕ
host = record {
  account_exists = λ h a. false;
  get_storage = λ h a k. replicate 32 0;
  set_storage = λ h a k v. (Zvmc.added, h + 1);
  get_balance = λ h a. replicate 32 0;
  get_code_size = λ h a. 0;
  get_code_hash = λ h a. replicate 32 0;
  copy_code = λ h a i n. [];
  call = λ h m. (
    record {
      status_code = success;
      gas_left = pos 0;
      gas_refund = pos 0;
      output = [];
      create_address = replicate 20 0;
    },
    h,
  );
  get_tx_context = λ h. no_tx;
  get_block_hash = λ h n. replicate 32 0;
  emit_log = λ h a d t. h + 1;
  access_account = λ h a. (Zvmc.warm, h);
  access_storage = λ h a k. (Zvmc.cold, h);
}

abbrev of_int64 : ℤ → Uint256
of_int64 (pos n) = of_value n
of_int64 (negsuc n) = of_value (2 ^ 256 - 1 - n)

abbrev intx : Intx
intx = record {
  add = λ x y. of_value (value x + value y);
  mul = λ x y. of_value (value x * value y);
  sub = λ x y. of_value (value x + 2 ^ 256 - value y);
  udiv = λ x y. of_value (value x / value y);
  umod = λ x y. of_value (value x % value y);
  sdiv = λ x y. of_value (value x / value y);
  srem = λ x y. of_value (value x % value y);
  addmod = λ x y m. of_value ((value x + value y) % value m);
  mulmod = λ x y m. of_value (value x * value y % value m);
  exp = λ x y. of_value (value x);
  count_significant_bytes = λ x. if value x == 0 then 0 else 1;
  ult = λ x y. ltb (value x) (value y);
  slt = λ x y. ltb (value x) (value y);
  equal = λ x y. value x == value y;
  and_ = λ x y. x;
  or_ = λ x y. x;
  xor_ = λ x y. x;
  not_ = λ x. of_value (2 ^ 256 - 1 - value x);
  shl = λ x n. of_value (value x * 2 ^ value n);
  shr = λ x n. of_value (value x / 2 ^ value n);
  shl_by = λ x n. of_value (value x * 2 ^ n);
  shr_by = λ x n. of_value (value x / 2 ^ n);
  of_int64 = of_int64;
  be_load_uint = big_endian;
  be_load = λ bytes. of_value (big_endian bytes);
  be_store = λ x. replicate 32 0;
  be_store_uint64 = λ n. replicate 7 0 ++ (n % 256 ∷ []);
  be_trunc = λ x. replicate 20 0;
}

abbrev platform : Platform ℕ
platform = record { intx = intx; keccak256 = λ bytes. replicate 32 0; host = host }

platform-IsPlatform : IsPlatform platform
platform-IsPlatform = record {
  ult_value = λ x y. refl;
  equal_value = λ x y. refl;
  of_int64_value = λ n h. value-of_value n (omega arith);
  be_store_length = λ x. refl;
  be_load_uint_value = λ bytes h. refl;
  copy_code_length = λ h a i n. omega arith;
  call_gas = λ h m g. (omega arith, g);
  call_output = λ h m. omega arith;
}

abbrev message : Message
message = record {
  kind = Zvmc.call;
  is_static = false;
  depth = 0;
  gas = pos 100;
  recipient = replicate 20 0;
  sender = replicate 20 0;
  input = [];
  value = replicate 32 0;
  create2_salt = replicate 32 0;
  code_address = replicate 20 0;
}

-- PUSH1 4, JUMP, JUMPDEST, STOP
abbrev jump_code : List ℕ
jump_code = 0x60 ∷ 4 ∷ 0x56 ∷ 0x5b ∷ 0x5b ∷ 0 ∷ []

abbrev two_words : Memory
two_words = record { cells = replicate 64 7; capacity = 4096 }

two_words-IsMemory : IsMemory two_words
two_words-IsMemory = record {
  aligned = refl;
  allocated = omega arith;
  bounded = omega arith;
  reserved = omega arith;
  small = omega arith;
}

abbrev items : List Uint256
items = of_uint64 1 ∷ of_uint64 2 ∷ of_uint64 3 ∷ []

abbrev host_state : ℕ
host_state = 0

abbrev first : Frame ℕ
first = start host_state message

abbrev frame : Frame ℕ
frame = record first { stack = items; gas_left = pos 30000 }

abbrev context : Context
context = analyze message jump_code

context-IsContext : IsContext context
context-IsContext = analyze-IsContext message jump_code (omega arith) (omega arith)

start-IsRound_here : IsRound context 0 first
start-IsRound_here =
    start-IsRound platform platform-IsPlatform host_state message jump_code context-IsContext
      (omega arith)

frame-IsFrame : IsFrame frame
unfolding start new_memory
frame-IsFrame = record {
  memory_ok = new_memory-IsMemory;
  gas_ok = omega arith;
  running = refl;
  no_output = refl;
  returned = omega arith;
}
