-- ===== src/Exec.antt =====
-- The execution state of lib/zvmone/execution_state.hpp and the calls that every instruction of
-- lib/zvmone/instructions.hpp is made of: stack access, gas and memory checks, host calls.
pub mod HostRules
pub mod Rules
use zvmone.Prelude.{
  ℕ, zero, suc, ◌+◌, ◌-◌, ◌%◌, ◌^◌, Bool, true, false, Option, none, some, List, [], ◌∷◌,
  if◌then◌else◌, ltb, leb, ◌==◌, length, take, drop,
}
use zvmone.Prelude.Int.{ℤ, pos, ◌-ℤ◌, ltb_ℤ, ℤ_eq}
use zvmone.Uint256.{Uint256, of_uint64}
use zvmone.Memory.{Memory, check_memory, check_memory_copy, load, store, new_memory, clear}
use zvmone.Zvmc.{
  StatusCode, out_of_gas, Message, TxContext, AccessStatus, cold, warm, Address, Bytes32,
}
use zvmone.Platform.{Platform}

-- EIP-2929 constants of lib/zvmone/instructions_traits.hpp.
abbrev pub cold_sload_cost : ℕ
cold_sload_cost = 2100

abbrev pub cold_account_access_cost : ℕ
cold_account_access_cost = 2600

abbrev pub warm_storage_read_cost : ℕ
warm_storage_read_cost = 100

abbrev pub additional_cold_account_access_cost : ℕ
additional_cold_account_access_cost = cold_account_access_cost - warm_storage_read_cost

-- What an execution only reads: `msg`, `original_code`, and the code analysis with the padded code.
pub record Context : Type 0 where
  pub msg : Message
  pub original_code : List ℕ
  pub padded_code : List ℕ
  pub jumpdest_map : List Bool

-- What an execution changes. The call stack is unused in the source, and the stack space is a part
-- of `Frame`.
pub record ExecutionState (H : Type 0) : Type 0 where
  pub gas_refund : ℤ
  pub memory : Memory
  pub host : H
  pub return_data : List ℕ
  pub status : StatusCode
  pub output_offset : ℕ
  pub output_size : ℕ
  pub tx : TxContext

-- The state in an instruction: the slots up to the stack pointer, the top first, and the gas left.
pub record Frame (H : Type 0) : Type 0 where
  pub stack : List Uint256
  pub gas_left : ℤ
  pub state : ExecutionState H

-- An instruction goes on, returns early with a status, or does what C++ does not define: a stack
-- slot below the bottom, a byte outside of the memory or of a buffer.
pub data Outcome (H : Type 0) (A : Type 0) : Type 0 where
  ok : A → Frame H → Outcome H A
  exit : StatusCode → Frame H → Outcome H A
  fault : Outcome H A

abbrev pub Exec : Type 0 → Type 0 → Type 0
Exec H A = Frame H → Outcome H A

abbrev pub put_at : List Uint256 → ℕ → Uint256 → Option (List Uint256)
put_at [] i v = none
put_at (x ∷ s) zero v = some (v ∷ s)
put_at (x ∷ s) (suc i) v = elim (put_at s i v) [ none ↦ none | some s' ↦ some (x ∷ s') ]

module _ {H : Type 0} where
  infixl 5 ◌>>=◌ ◌>>◌
  abbrev pub ◌>>=◌ : {A B : Type 0} → Exec H A → (A → Exec H B) → Exec H B
  ◌>>=◌ m k f = elim (m f) [ ok a f' ↦ k a f' | exit s f' ↦ exit s f' | fault ↦ fault ]

  abbrev pub ◌>>◌ : {B : Type 0} → Exec H (Unit {0}) → Exec H B → Exec H B
  m >> k = m >>= λ _. k

  abbrev pub pure : {A : Type 0} → A → Exec H A
  pure a f = ok a f

  -- An early `return {status, gas_left}`.
  abbrev pub return_with : {A : Type 0} → StatusCode → Exec H A
  return_with s f = exit s f

  abbrev pub undefined_behaviour : {A : Type 0} → Exec H A
  undefined_behaviour f = fault

  abbrev pub with_stack : List Uint256 → Frame H → Frame H
  with_stack s f = record f { stack = s }

  abbrev pub pop_from : List Uint256 → Exec H Uint256
  pop_from [] f = fault
  pop_from (x ∷ s) f = ok x (with_stack s f)

  -- `stack.pop()`
  abbrev pub pop_item : Exec H Uint256
  pop_item f = pop_from f.stack f

  -- `stack.push(x)`
  abbrev pub push_item : Uint256 → Exec H (Unit {0})
  push_item x f = ok tt (with_stack (x ∷ f.stack) f)

  abbrev pub nth : List Uint256 → ℕ → Exec H Uint256
  nth [] i f = fault
  nth (x ∷ s) zero f = ok x f
  nth (x ∷ s) (suc i) f = nth s i f

  -- `stack[i]`, read
  abbrev pub item : ℕ → Exec H Uint256
  item i f = nth f.stack i f

  -- `stack[i] = v`
  abbrev pub set_item : ℕ → Uint256 → Exec H (Unit {0})
  set_item i v f = elim (put_at f.stack i v) [ none ↦ fault | some s ↦ ok tt (with_stack s f) ]

  abbrev pub get_state : Exec H (ExecutionState H)
  get_state f = ok f.state f

  abbrev pub set_state : ExecutionState H → Exec H (Unit {0})
  set_state s f = ok tt (record f { state = s })

  abbrev pub get_gas : Exec H ℤ
  get_gas f = ok f.gas_left f

  abbrev pub set_gas : ℤ → Exec H (Unit {0})
  set_gas g f = ok tt (record f { gas_left = g })

  -- `if ((gas_left -= cost) < 0) return {ZVMC_OUT_OF_GAS, gas_left};`
  abbrev pub spend : ℤ → Exec H (Unit {0})
  spend cost f =
      let left = f.gas_left -ℤ cost in
      if ltb_ℤ left (pos 0)
      then exit out_of_gas (record f { gas_left = left })
      else ok tt (record f { gas_left = left })

  abbrev pub after_check : Frame H → Option (Bool × ℤ × Memory) → Outcome H (Unit {0})
  after_check f none = fault
  after_check f (some (true, g, m)) =
      ok tt (record f { gas_left = g; state = record (f.state) { memory = m } })
  after_check f (some (false, g, m)) =
      exit out_of_gas (record f { gas_left = g; state = record (f.state) { memory = m } })

  -- `if (!check_memory(gas_left, state.memory, offset, size)) return {ZVMC_OUT_OF_GAS, gas_left};`
  pub require_memory : Uint256 → ℕ → Exec H (Unit {0})
  require_memory offset n f = after_check f (check_memory f.gas_left f.state.memory offset n)

  pub require_memory_copy : Uint256 → Uint256 → Exec H (Unit {0})
  require_memory_copy offset n f =
      after_check f (check_memory_copy f.gas_left f.state.memory offset n)

  -- The `n` bytes of memory from `i` on. A null pointer for no bytes.
  pub read_memory : ℕ → ℕ → Exec H (List ℕ)
  read_memory i n f =
      if n == 0
      then ok [] f
      else elim (load f.state.memory i n) [ none ↦ fault | some bytes ↦ ok bytes f ]

  -- `if (n > 0) memcpy(&memory[i], bytes, n)`, and such a memset.
  pub write_memory : ℕ → List ℕ → Exec H (Unit {0})
  write_memory i [] f = ok tt f
  write_memory i (b ∷ bytes) f = elim (store f.state.memory i (b ∷ bytes)) [
    | none ↦ fault
    | some m ↦ ok tt (record f { state = record (f.state) { memory = m } })
  ]

  abbrev pub get_host : Exec H H
  get_host f = ok f.state.host f

  abbrev pub set_host : H → Exec H (Unit {0})
  set_host h f = ok tt (record f { state = record (f.state) { host = h } })

  -- `get_tx_context()`, which asks the host until it has seen a timestamp other than 0.
  pub tx_context : Platform H → Exec H TxContext
  tx_context p f =
      let fresh = p.host.get_tx_context f.state.host in
      if ℤ_eq f.state.tx.block_timestamp (pos 0)
      then ok fresh (record f { state = record (f.state) { tx = fresh } })
      else ok f.state.tx f

  -- The `n` bytes from index `i` on of a buffer that is not the memory.
  unfoldable pub read_buffer : List ℕ → ℕ → ℕ → Exec H (List ℕ)
  read_buffer buffer i n f =
      if n == 0
      then ok [] f
      else if leb (i + n) (length buffer)
      then ok (take n (drop i buffer)) f
      else fault

  after_access : ℕ → AccessStatus → Exec H (Unit {0})
  after_access cost cold f = spend (pos cost) f
  after_access cost warm f = ok tt f

  -- `if (host.access_account(addr) == ZVMC_ACCESS_COLD)`, with the additional cost of a cold account.
  pub access_account : Platform H → Address → Exec H (Unit {0})
  unfolding after_access
  access_account p addr f =
      let (status, h) = p.host.access_account f.state.host addr in
      after_access additional_cold_account_access_cost status
        (record f { state = record (f.state) { host = h } })

  -- `access_storage`, with the cost of a cold slot.
  pub access_storage : Platform H → Address → Bytes32 → Exec H AccessStatus
  access_storage p addr key f =
      let (status, h) = p.host.access_storage f.state.host addr key in
      ok status (record f { state = record (f.state) { host = h } })
