-- ===== src/Memory/Gas.antt =====
-- `grow_memory` of lib/zvmone/instructions.hpp: the fee for an extension, and the extended memory.
use zvmone.Prelude.{
  ℕ, ◌+◌, ◌-◌, ◌*◌, ◌/◌, ◌^◌, ◌≤◌, ◌<◌, ◌≡◌, refl, inl, inr, false, some, arith, leb, if◌then◌else◌,
  Bool-cases,
}
use zvmone.Prelude.Int.{ℤ, pos, ◌-ℤ◌, leb_ℤ, int_laws}
use zvmone.Memory.{Memory, size, num_words, memory_cost, grow_memory}
use zvmone.Memory.Grow.{IsMemory, grown, size-grown, grown-IsMemory, grow-eq_some}

abbrev round_up : ℕ → ℕ
round_up n = (n + 31) / 32 * 32

square_mono : (a b : ℕ) → a ≤ b → a * a ≤ b * b
square_mono a b h = grind arith

pub memory_cost_mono : (a b : ℕ) → a ≤ b → memory_cost a ≤ memory_cost b
memory_cost_mono a b h = omega (arith, square_mono a b h)

-- The memory that an access to the bytes below `n` leaves: as it was, or with zeros up to a whole
-- number of words.
abbrev pub extended : Memory → ℕ → Memory
extended m n = if leb n (size m) then m else grown m (round_up n)

-- The price of that extension.
abbrev pub extension_fee : Memory → ℕ → ℕ
extension_fee m n = memory_cost (size (extended m n) / 32) - memory_cost (size m / 32)

pub extended-bounds :
    (m : Memory) (n : ℕ)
    → IsMemory m
    → n ≤ 2 ^ 33
    → IsMemory (extended m n) × (n ≤ size (extended m n)) × (size m ≤ size (extended m n))
extended-bounds m n v h = elim (Bool-cases (leb n (size m))) [
  | inl e ↦ rw e (v, ground arith, omega arith)
  | inr e ↦ rw e (
    grown-IsMemory m (round_up n) v (omega arith) (ground arith) (omega arith),
    ground (arith, size-grown m (round_up n)),
    ground (arith, size-grown m (round_up n)),
  )
]

sub_sub : (g : ℤ) (a b : ℕ) → b ≤ a → g -ℤ (pos a -ℤ pos b) ≡ g -ℤ pos (a - b)
sub_sub g a b h = omega int_laws

num_words-small : (n : ℕ) → n ≤ 2 ^ 33 → num_words n ≡ (n + 31) / 32
unfolding num_words
num_words-small n b = omega arith

extension_fee-grown :
    (m : Memory) (n : ℕ)
    → size m < n
    → extension_fee m n ≡ memory_cost ((n + 31) / 32) - memory_cost (size m / 32)
extension_fee-grown m n h =
    let e : leb n (size m) ≡ false = ground arith in
    let s : size (grown m (round_up n)) / 32 ≡ (n + 31) / 32 =
      omega (arith, size-grown m (round_up n)) in
    rw (e, s)

-- Where a valid memory ends below `n`, and `n` is at most 2^33, `grow_memory` charges the
-- difference of the costs of the two sizes in words, and extends the memory with zeros to whole
-- words if gas is left.
pub grow_memory_lem :
    (g : ℤ) (m : Memory) (n : ℕ)
    → IsMemory m
    → size m < n
    → n ≤ 2 ^ 33
    → grow_memory g m n ≡ (
        let left = g -ℤ pos (extension_fee m n) in
        if leb_ℤ (pos 0) left then some (left, extended m n) else some (left, m))
unfolding grow_memory
grow_memory_lem g m n v h b =
    let e : leb n (size m) ≡ false = ground arith in
    rw
      (
        num_words-small n b,
        extension_fee-grown m n h,
        e,
        sub_sub g (memory_cost ((n + 31) / 32)) (memory_cost (size m / 32))
            (memory_cost_mono (size m / 32) ((n + 31) / 32) (omega arith)),
        grow-eq_some m (round_up n) (omega arith) (omega arith),
      )
      refl
