-- ===== src/Memory/Grow.antt =====
-- The invariant of class Memory (lib/zvmone/execution_state.hpp), and its growth.
use zvmone.Prelude.{
  ℕ, ◌-◌, ◌*◌, ◌%◌, ◌^◌, ◌≤◌, ◌<◌, ◌≡◌, some, ◌++◌, arith, replicate, length-append,
  length-replicate,
}
use zvmone.Memory.{Memory, page_size, size, new_memory, grown_capacity, grow, clear}

-- No memory that a check of the source lets pass is longer.
abbrev pub max_memory : ℕ
max_memory = 2 ^ 34

-- The bytes in use are whole words and fit the allocation; `capacity` is far from wrapping.
pub record IsMemory (m : Memory) : Type 0 where
  pub aligned : size m % 32 ≡ 0
  pub allocated : size m ≤ m.capacity
  pub bounded : size m ≤ max_memory
  pub reserved : page_size ≤ m.capacity
  pub small : m.capacity ≤ 4 * max_memory

pub new_memory-IsMemory : IsMemory new_memory
unfolding new_memory
new_memory-IsMemory = omega arith

pub clear-IsMemory : (m : Memory) → IsMemory m → IsMemory (clear m)
unfolding clear
clear-IsMemory m v = omega arith

-- From a capacity between a page and 2^36 bytes, and for a size up to 2^34 bytes, the new capacity
-- holds the new size, is not below the old one and is at most 2^36, so no size wraps.
pub grown_capacity-bounds :
    (capacity new_size : ℕ)
    → page_size ≤ capacity
    → capacity ≤ 4 * max_memory
    → new_size ≤ max_memory
    → (new_size ≤ grown_capacity capacity new_size)
      × (capacity ≤ grown_capacity capacity new_size)
      × (grown_capacity capacity new_size ≤ 4 * max_memory)
unfolding grown_capacity
grown_capacity-bounds capacity new_size p q r = ground arith

abbrev pub grown : Memory → ℕ → Memory
grown m new_size = record {
  cells = m.cells ++ replicate (new_size - size m) 0;
  capacity = grown_capacity m.capacity new_size;
}

pub size-grown : (m : Memory) (n : ℕ) → size m ≤ n → size (grown m n) ≡ n
size-grown m n h = omega (
  arith,
  length-append m.cells (replicate (n - size m) 0),
  length-replicate {A = ℕ} (n - size m) 0,
)

pub grown-IsMemory :
    (m : Memory) (n : ℕ)
    → IsMemory m
    → n % 32 ≡ 0
    → size m ≤ n
    → n ≤ max_memory
    → IsMemory (grown m n)
grown-IsMemory m n v a h b =
    omega (arith, size-grown m n, grown_capacity-bounds m.capacity n v.reserved v.small b)

-- Where the requirements of `grow` hold it appends zeros.
pub grow-eq_some : (m : Memory) (n : ℕ) → n % 32 ≡ 0 → size m < n → grow m n ≡ some (grown m n)
unfolding grow
grow-eq_some m n a h = ground arith
