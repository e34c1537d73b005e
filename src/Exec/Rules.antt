-- ===== src/Exec/Rules.antt =====
-- Rules for proofs about instructions: what holds when one goes on, and when it returns early.
use zvmone.Prelude.{
  ℕ, ◌+◌, ◌^◌, ◌≤◌, ◌<◌, ◌≡◌, refl, ◌≢◌, arith, some, length, Bool-cases, ltb, ◌==◌, inl, inr, ◌⊎◌,
  List, [], ◌∷◌, take, drop, replicate, length-replicate,
}
use zvmone.Prelude.Int.{ℤ, pos, ◌-ℤ◌, ◌≤ℤ◌, ltb_ℤ, leb_ℤ, int_laws}
use zvmone.Uint256.{Uint256, value}
use zvmone.Memory.{Memory, size, max_buffer_size}
use zvmone.Memory.Grow.{IsMemory}
use zvmone.Memory.Gas.{extended, extension_fee, extended-bounds}
use zvmone.Memory.Check.{charge, check_memory-charge, check_memory_copy-charge}
use zvmone.Memory.Access.{
  load-eq_some, length-loaded, written, store-eq_some, written-IsMemory, size-written,
}
use zvmone.Zvmc.{StatusCode, success, revert, out_of_gas}
use zvmone.Exec.{
  Frame, Outcome, ok, exit, fault, Exec, spend, require_memory, after_check, require_memory_copy,
  read_memory, write_memory,
}

module _ {H : Type 0} where
  -- What holds of a frame between instructions.
  pub record IsFrame (f : Frame H) : Type 0 where
    pub memory_ok : IsMemory f.state.memory
    pub gas_ok : pos 0 ≤ℤ f.gas_left
    pub running : f.state.status ≡ success
    pub no_output : f.state.output_size ≡ 0
    pub returned : length f.state.return_data < 2 ^ 63

  -- What an early return leaves.
  pub record IsExit (s : StatusCode) (f : Frame H) : Type 0 where
    pub memory_kept : IsMemory f.state.memory
    pub failed : s ≢ success
    pub not_reverted : s ≢ revert
    pub no_result : f.state.output_size ≡ 0

  -- The outcome is no fault; `Q` holds if the code goes on, and `IsExit` if it returns early.
  pub data Safe {A : Type 0} (Q : A → Frame H → Type 0) : Outcome H A → Type 0 where
    goes : {a : A} {f : Frame H} → Q a f → Safe Q (ok a f)
    exits : {s : StatusCode} {f : Frame H} → IsExit s f → Safe Q (exit s f)

  pub bind-Safe :
      {A B : Type 0} {Q : B → Frame H → Type 0} {o : Outcome H A} {k : A → Exec H B}
      → Safe (λ a f'. Safe Q (k a f')) o
      → Safe Q (elim o [ ok a f' ↦ k a f' | exit s f' ↦ exit s f' | fault ↦ fault ])
  bind-Safe (goes w) = w
  bind-Safe (exits e) = exits e

  pub weaken-Safe :
      {A : Type 0} {Q R : A → Frame H → Type 0} {o : Outcome H A}
      → Safe Q o
      → ((a : A) (f : Frame H) → Q a f → R a f)
      → Safe R o
  weaken-Safe (goes q) k = goes (k _ _ q)
  weaken-Safe (exits e) k = exits e

  out_of_gas-IsExit :
      {f : Frame H} {g : ℤ} → IsFrame f → IsExit out_of_gas (record f { gas_left = g })
  out_of_gas-IsExit v = record {
    memory_kept = v.memory_ok;
    failed = λ e. cc;
    not_reverted = λ e. cc;
    no_result = v.no_output;
  }

  pub spend-Safe :
      {Q : Unit {0} → Frame H → Type 0} (cost : ℕ) (f : Frame H)
      → IsFrame f
      → ((g : ℤ)
          → g ≡ f.gas_left -ℤ pos cost
          → pos 0 ≤ℤ g
          → g ≤ℤ f.gas_left
          → Q tt (record f { gas_left = g }))
      → Safe Q (spend (pos cost) f)
  spend-Safe cost f v q = elim (Bool-cases (ltb_ℤ (f.gas_left -ℤ pos cost) (pos 0))) [
    | inl short ↦ rw short (exits (out_of_gas-IsExit v))
    | inr paid ↦ rw paid (goes (q (f.gas_left -ℤ pos cost) refl (ground arith) (omega int_laws)))
  ]

  -- The frame that a memory check leaves.
  abbrev pub with_memory : Frame H → ℤ → Memory → Frame H
  with_memory f g m = record f { gas_left = g; state = record (f.state) { memory = m } }

  charge-Safe :
      {Q : Unit {0} → Frame H → Type 0} (f : Frame H) (n : ℕ)
      → IsFrame f
      → n ≤ 2 ^ 33
      → ((g : ℤ) (m : Memory)
          → IsMemory m
          → pos 0 ≤ℤ g
          → g ≤ℤ f.gas_left
          → n ≤ size m
          → size f.state.memory ≤ size m
          → Q tt (with_memory f g m))
      → Safe Q (after_check f (some (charge f.gas_left f.state.memory n)))
  charge-Safe f n v b q =
      let left = f.gas_left -ℤ pos (extension_fee f.state.memory n) in
      let x = extended-bounds f.state.memory n v.memory_ok b in
      elim (Bool-cases (leb_ℤ (pos 0) left)) [
        | inl paid ↦
            rw paid (
              goes (q left (extended f.state.memory n) x.0 (ground arith) (omega int_laws) x.1 x.2))
        | inr short ↦ rw short (exits (out_of_gas-IsExit v))
      ]

  pub require_memory-Safe :
      {Q : Unit {0} → Frame H → Type 0} (offset : Uint256) (n : ℕ) (f : Frame H)
      → IsFrame f
      → n ≤ max_buffer_size
      → ((g : ℤ) (m : Memory)
          → IsMemory m
          → pos 0 ≤ℤ g
          → g ≤ℤ f.gas_left
          → value offset + n ≤ size m
          → size f.state.memory ≤ size m
          → Q tt (with_memory f g m))
      → Safe Q (require_memory offset n f)
  unfolding require_memory
  require_memory-Safe offset n f v b q =
      rw (check_memory-charge f.gas_left f.state.memory offset n v.memory_ok b v.gas_ok)
        (elim (Bool-cases (ltb max_buffer_size (value offset))) [
          | inl big ↦ rw big (exits (out_of_gas-IsExit v))
          | inr small ↦ rw small (charge-Safe f (value offset + n) v (ground arith) q)
        ])

  pub require_memory_copy-Safe :
      {Q : Unit {0} → Frame H → Type 0} (offset n : Uint256) (f : Frame H)
      → IsFrame f
      → ((g : ℤ) (m : Memory)
          → IsMemory m
          → pos 0 ≤ℤ g
          → g ≤ℤ f.gas_left
          → (value n ≡ 0) ⊎ ((value offset + value n ≤ size m) × (value n ≤ max_buffer_size))
          → size f.state.memory ≤ size m
          → Q tt (with_memory f g m))
      → Safe Q (require_memory_copy offset n f)
  unfolding require_memory_copy
  require_memory_copy-Safe offset n f v q =
      rw (check_memory_copy-charge f.gas_left f.state.memory offset n v.memory_ok v.gas_ok)
        (elim (Bool-cases (value n == 0)) [
          | inl nothing ↦ rw nothing (
              goes (
                q f.gas_left f.state.memory v.memory_ok v.gas_ok (omega arith) (inl (ground arith))
                  (omega arith)))
          | inr bytes ↦ rw bytes (elim (Bool-cases (ltb max_buffer_size (value n))) [
            | inl big ↦ rw big (exits (out_of_gas-IsExit v))
            | inr fits ↦ rw fits (elim (Bool-cases (ltb max_buffer_size (value offset))) [
              | inl big ↦ rw big (exits (out_of_gas-IsExit v))
              | inr small ↦ rw small (
                  charge-Safe f (value offset + value n) v (ground arith)
                    (λ g m a b c d e. q g m a b c (inr (d, ground arith)) e))
            ])
          ])
        ])

  pub read_memory-Safe :
      {Q : List ℕ → Frame H → Type 0} (i n : ℕ) (f : Frame H)
      → (n ≡ 0) ⊎ (i + n ≤ size f.state.memory)
      → ((bytes : List ℕ) → length bytes ≡ n → Q bytes f)
      → Safe Q (read_memory i n f)
  unfolding read_memory
  read_memory-Safe i n f inside q = elim (Bool-cases (n == 0)) [
    | inl nothing ↦ rw nothing (goes (q [] (ground arith)))
    | inr bytes ↦
        let h : i + n ≤ size f.state.memory = ground arith in
        rw (bytes, load-eq_some f.state.memory i n h)
          (goes (q (take n (drop i f.state.memory.cells)) (length-loaded f.state.memory i n h)))
  ]

  pub write_memory-Safe :
      {Q : Unit {0} → Frame H → Type 0} (i : ℕ) (bytes : List ℕ) (f : Frame H)
      → IsFrame f
      → (length bytes ≡ 0) ⊎ (i + length bytes ≤ size f.state.memory)
      → ((m : Memory)
          → IsMemory m
          → size m ≡ size f.state.memory
          → Q tt (record f { state = record (f.state) { memory = m } }))
      → Safe Q (write_memory i bytes f)
  unfolding write_memory
  write_memory-Safe i [] f v inside q = goes (q f.state.memory v.memory_ok refl)
  write_memory-Safe i (b ∷ bytes) f v inside q =
      let m = f.state.memory in
      let h : i + length (b ∷ bytes) ≤ size m = ground arith in
      rw (write_memory, store-eq_some m i (b ∷ bytes) h)
        (goes (
          q (written m i (b ∷ bytes)) (written-IsMemory m i (b ∷ bytes) h v.memory_ok)
            (size-written m i (b ∷ bytes) h)))

  pub write_zeros-Safe :
      {Q : Unit {0} → Frame H → Type 0} (i n : ℕ) (f : Frame H)
      → IsFrame f
      → (n ≡ 0) ⊎ (i + n ≤ size f.state.memory)
      → ((m : Memory)
          → IsMemory m
          → size m ≡ size f.state.memory
          → Q tt (record f { state = record (f.state) { memory = m } }))
      → Safe Q (write_memory i (replicate n 0) f)
  write_zeros-Safe i n f v inside q =
      write_memory-Safe i (replicate n 0) f v (rw (length-replicate {A = ℕ} n 0) inside) q
