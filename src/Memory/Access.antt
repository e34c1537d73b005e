-- ===== src/Memory/Access.antt =====
-- Reads and writes of the memory.
use zvmone.Prelude.{
  ℕ, ◌+◌, ◌≤◌, ◌≡◌, List, ◌++◌, some, arith, length, take, drop, length-append, length-take,
  length-drop,
}
use zvmone.Memory.{Memory, size, load, store}
use zvmone.Memory.Grow.{IsMemory}

-- A read inside the memory gives as many bytes as were asked for.
pub load-eq_some :
    (m : Memory) (i n : ℕ) → i + n ≤ size m → load m i n ≡ some (take n (drop i m.cells))
unfolding load
load-eq_some m i n h = ground arith

pub length-loaded : (m : Memory) (i n : ℕ) → i + n ≤ size m → length (take n (drop i m.cells)) ≡ n
length-loaded m i n h = omega (arith, length-take n (drop i m.cells), length-drop i m.cells)

abbrev pub written : Memory → ℕ → List ℕ → Memory
written m i bytes = record m {
  cells = take i m.cells ++ (bytes ++ drop (i + length bytes) m.cells);
}

pub store-eq_some :
    (m : Memory) (i : ℕ) (bytes : List ℕ)
    → i + length bytes ≤ size m
    → store m i bytes ≡ some (written m i bytes)
unfolding store
store-eq_some m i bytes h = ground arith

-- A write inside the memory keeps its size.
pub size-written :
    (m : Memory) (i : ℕ) (bytes : List ℕ)
    → i + length bytes ≤ size m
    → size (written m i bytes) ≡ size m
size-written m i bytes h = omega (
  arith,
  length-append (take i m.cells) (bytes ++ drop (i + length bytes) m.cells),
  length-append bytes (drop (i + length bytes) m.cells),
  length-take i m.cells,
  length-drop (i + length bytes) m.cells,
)

pub written-IsMemory :
    (m : Memory) (i : ℕ) (bytes : List ℕ)
    → i + length bytes ≤ size m
    → IsMemory m
    → IsMemory (written m i bytes)
written-IsMemory m i bytes h v = omega (arith, size-written m i bytes)
