-- ===== src/Memory.antt =====
-- The ZVM memory of lib/zvmone/execution_state.hpp, and its growth and bounds checks of
-- lib/zvmone/instructions.hpp.
pub mod Grow
pub mod Access
pub mod Gas
pub mod Check
use zvmone.Prelude.{
  ℕ, ◌+◌, ◌-◌, ◌*◌, ◌/◌, ◌%◌, ◌^◌, Bool, true, false, not, ◌&&◌, ◌||◌, Option, none, some, List, [],
  ◌++◌, length, take, drop, replicate, ltb, leb, ◌==◌, if◌then◌else◌, bit_or,
}
use zvmone.Prelude.Int.{ℤ, pos, ◌-ℤ◌, leb_ℤ}
use zvmone.Uint256.{Uint256}

-- `cells` are the `m_size` bytes in use. The bytes between them and `capacity` hold no value.
pub record Memory : Type 0 where
  pub cells : List ℕ
  pub capacity : ℕ

abbrev pub page_size : ℕ
page_size = 4 * 1024

unfoldable pub new_memory : Memory
new_memory = record { cells = []; capacity = page_size }

abbrev pub size : Memory → ℕ
size m = length m.cells

-- The capacity after a growth to `new_size`. `size_t` wraps.
pub grown_capacity : ℕ → ℕ → ℕ
grown_capacity capacity new_size =
    let doubled = capacity * 2 % 2 ^ 64 in
    let rounded = (new_size + (page_size - 1)) % 2 ^ 64 / page_size * page_size in
    if ltb capacity new_size then (if ltb doubled new_size then rounded else doubled) else capacity

-- `none` where an INTX_REQUIRE of the source fails.
pub grow : Memory → ℕ → Option Memory
grow m new_size =
    if not (new_size % 32 == 0)
    then none
    else if leb new_size (size m)
    then none
    else some (record {
      cells = m.cells ++ replicate (new_size - size m) 0;
      capacity = grown_capacity m.capacity new_size;
    })

pub clear : Memory → Memory
clear m = record m { cells = [] }

-- The `n` bytes from index `i` on; `none` for an access that leaves the memory.
pub load : Memory → ℕ → ℕ → Option (List ℕ)
load m i n = if leb (i + n) (size m) then some (take n (drop i m.cells)) else none

-- The write of bytes through `&memory[i]`, as by the memcpy and the be::unsafe::store of the
-- instructions; `none` for a write that leaves the memory.
pub store : Memory → ℕ → List ℕ → Option Memory
store m i bytes =
    if leb (i + length bytes) (size m)
    then some (record m { cells = take i m.cells ++ (bytes ++ drop (i + length bytes) m.cells) })
    else none

abbrev pub max_buffer_size : ℕ
max_buffer_size = 2 ^ 32 - 1

abbrev pub word_size : ℕ
word_size = 32

-- `size_in_bytes + 31` wraps at 64 bits.
pub num_words : ℕ → ℕ
num_words size_in_bytes = (size_in_bytes + (word_size - 1)) % 2 ^ 64 / word_size

-- The cost of a memory of the given number of words.
abbrev pub memory_cost : ℕ → ℕ
memory_cost words = 3 * words + words * words / 512

abbrev commit : ℤ → Option Memory → Option (ℤ × Memory)
commit gas_left none = none
commit gas_left (some m) = some (gas_left, m)

-- `gas_left` may come back negative; then the memory is as before.
pub grow_memory : ℤ → Memory → ℕ → Option (ℤ × Memory)
grow_memory gas_left m new_size =
    let new_words = num_words new_size in
    let current_words = size m / word_size in
    let left = gas_left -ℤ (pos (memory_cost new_words) -ℤ pos (memory_cost current_words)) in
    if leb_ℤ (pos 0) left then commit left (grow m (new_words * word_size)) else some (left, m)

abbrev pub checked : Option (ℤ × Memory) → Option (Bool × ℤ × Memory)
checked none = none
checked (some (gas_left, m)) = some (leb_ℤ (pos 0) gas_left, gas_left, m)

-- `check_memory` with a size of 64 bits: the verdict, the gas left and the memory.
pub check_memory : ℤ → Memory → Uint256 → ℕ → Option (Bool × ℤ × Memory)
check_memory gas_left m offset n =
    let new_size = (offset.w0 + n) % 2 ^ 64 in
    if not (bit_or (bit_or offset.w3 offset.w2) offset.w1 == 0) || ltb max_buffer_size offset.w0
    then some (false, gas_left, m)
    else checked
        (if ltb (size m) new_size then grow_memory gas_left m new_size else some (gas_left, m))

-- `check_memory` with a size of 256 bits, of the "copy" instructions.
pub check_memory_copy : ℤ → Memory → Uint256 → Uint256 → Option (Bool × ℤ × Memory)
check_memory_copy gas_left m offset n =
    if (n.w0 == 0) && (n.w1 == 0) && (n.w2 == 0) && (n.w3 == 0)
    then some (true, gas_left, m)
    else if not (bit_or (bit_or n.w3 n.w2) n.w1 == 0) || ltb max_buffer_size n.w0
    then some (false, gas_left, m)
    else check_memory gas_left m offset n.w0
