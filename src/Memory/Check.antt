-- ===== src/Memory/Check.antt =====
-- The two `check_memory` of lib/zvmone/instructions.hpp against a description on numbers.
use zvmone.Prelude.{
  ℕ, ◌+◌, ◌%◌, ◌^◌, ◌≤◌, ◌≡◌, refl, inl, inr, Bool, true, false, some, arith, not, ◌||◌, ltb, leb,
  ◌==◌, if◌then◌else◌, bit_or, ◌&&◌, Bool-cases,
}
use zvmone.Prelude.Int.{ℤ, pos, ◌-ℤ◌, ◌≤ℤ◌, leb_ℤ, int_laws}
use zvmone.Prelude.Bits.{le-bit_or_left, le-bit_or_right}
use zvmone.Uint256.{Uint256, value}
use zvmone.Memory.{
  Memory, size, max_buffer_size, grow_memory, check_memory, check_memory_copy, checked,
}
use zvmone.Memory.Grow.{IsMemory}
use zvmone.Memory.Gas.{extended, extension_fee, grow_memory_lem}

-- The test on the words of a 256-bit number is a test on its value.
pub exceeds_buffer :
    (x : Uint256)
    → (not (bit_or (bit_or x.w3 x.w2) x.w1 == 0) || ltb max_buffer_size x.w0)
      ≡ ltb max_buffer_size (value x)
exceeds_buffer x = elim (Bool-cases (ltb max_buffer_size (value x))) [
  | inl big ↦ rw big (
      ground (
        arith,
        le-bit_or_left (bit_or x.w3 x.w2) x.w1,
        le-bit_or_right (bit_or x.w3 x.w2) x.w1,
        le-bit_or_left x.w3 x.w2,
        le-bit_or_right x.w3 x.w2,
      ))
  | inr small ↦
      let e1 : x.w1 ≡ 0 = ground arith in
      let e2 : x.w2 ≡ 0 = ground arith in
      let e3 : x.w3 ≡ 0 = ground arith in rw (small, e1, e2, e3) (ground arith)
]

-- Pays for the bytes below `n`: the verdict, the gas left, and the memory, extended if it is paid.
abbrev pub charge : ℤ → Memory → ℕ → Bool × ℤ × Memory
charge g m n =
    let left = g -ℤ pos (extension_fee m n) in
    if leb_ℤ (pos 0) left then (true, left, extended m n) else (false, left, m)

sub_zero : (g : ℤ) → g -ℤ pos 0 ≡ g
sub_zero g = omega int_laws

charge_held :
    (g : ℤ) (m : Memory) (n : ℕ) → pos 0 ≤ℤ g → n ≤ size m → charge g m n ≡ (leb_ℤ (pos 0) g, g, m)
charge_held g m n h b =
    let e : leb n (size m) ≡ true = ground arith in
    let fee : extension_fee m n ≡ 0 = rw e (omega arith) in
    let t : leb_ℤ (pos 0) g ≡ true = ground arith in rw (fee, sub_zero g, t, e)

charge-split :
    (g : ℤ) (m : Memory) (n : ℕ)
    → checked (
        let left = g -ℤ pos (extension_fee m n) in
        if leb_ℤ (pos 0) left then some (left, extended m n) else some (left, m))
      ≡ some (charge g m n)
charge-split g m n = elim (Bool-cases (leb_ℤ (pos 0) (g -ℤ pos (extension_fee m n)))) [
  | inl paid ↦ rw paid (rw paid refl)
  | inr short ↦ rw short (rw short refl)
]

checked-charge :
    (g : ℤ) (m : Memory) (n : ℕ)
    → IsMemory m
    → n ≤ 2 ^ 33
    → pos 0 ≤ℤ g
    → checked (if ltb (size m) n then grow_memory g m n else some (g, m)) ≡ some (charge g m n)
checked-charge g m n v b h = elim (Bool-cases (ltb (size m) n)) [
  | inl grows ↦ rw (grows, grow_memory_lem g m n v (ground arith) b) (charge-split g m n)
  | inr held ↦ rw (held, charge_held g m n h (ground arith)) refl
]

-- For a valid memory, a size up to 2^32 - 1 and gas that is not negative, `check_memory` refuses
-- an offset above 2^32 - 1, and otherwise charges for the extension of the memory to the end of
-- the access, and extends it if the gas suffices.
pub check_memory-charge :
    (g : ℤ) (m : Memory) (offset : Uint256) (n : ℕ)
    → IsMemory m
    → n ≤ max_buffer_size
    → pos 0 ≤ℤ g
    → check_memory g m offset n
      ≡ some (
          if ltb max_buffer_size (value offset)
          then (false, g, m)
          else charge g m (value offset + n))
unfolding check_memory
check_memory-charge g m offset n v b h =
    rw (exceeds_buffer offset) (elim (Bool-cases (ltb max_buffer_size (value offset))) [
      | inl big ↦ rw big
      | inr small ↦
          let e : (offset.w0 + n) % 2 ^ 64 ≡ value offset + n = ground arith in
          rw (small, e) (checked-charge g m (value offset + n) v (ground arith) h)
    ])

pub zero_words :
    (x : Uint256) → ((x.w0 == 0) && (x.w1 == 0) && (x.w2 == 0) && (x.w3 == 0)) ≡ (value x == 0)
zero_words x = ground arith

-- For a valid memory and gas that is not negative, the check of the copy instructions accepts an
-- access of no bytes free of charge wherever it points, refuses a size or an offset above 2^32 -
-- 1, and otherwise charges for the extension as `check_memory` does.
pub check_memory_copy-charge :
    (g : ℤ) (m : Memory) (offset n : Uint256)
    → IsMemory m
    → pos 0 ≤ℤ g
    → check_memory_copy g m offset n
      ≡ some (
          if value n == 0
          then (true, g, m)
          else if ltb max_buffer_size (value n)
          then (false, g, m)
          else if ltb max_buffer_size (value offset)
          then (false, g, m)
          else charge g m (value offset + value n))
unfolding check_memory_copy
check_memory_copy-charge g m offset n v h =
    rw (exceeds_buffer n, zero_words n)
      (elim (Bool-cases (value n == 0)) [
        | inl nothing ↦ rw nothing refl
        | inr bytes ↦ rw bytes (elim (Bool-cases (ltb max_buffer_size (value n))) [
          | inl big ↦ rw big refl
          | inr small ↦
              let e : value n ≡ n.w0 = ground arith in
              rw (small, e) (check_memory-charge g m offset n.w0 v (ground arith) h)
        ])
      ])
