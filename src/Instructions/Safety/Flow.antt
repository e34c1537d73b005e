-- ===== src/Instructions/Safety/Flow.antt =====
-- PUSH0 to SWAP16, PC, GAS, JUMP, JUMPI and the terminating instructions
-- (lib/zvmone/instructions.hpp).
use zvmone.Prelude.{
  ℕ, zero, suc, ◌+◌, ◌-◌, ◌*◌, ◌/◌, ◌%◌, ◌^◌, ◌≤◌, ◌<◌, ◌≡◌, ◌⊎◌, refl, Bool, true, false, not,
  ◌||◌, Option, none, some, List, [], ◌∷◌, inl, inr, Bool-cases, arith, length, get_or, ◌==◌,
  if◌then◌else◌,
}
use zvmone.Prelude.Int.{ℤ, pos, ◌≤ℤ◌}
use zvmone.Uint256.{Uint256, of_uint64}
use zvmone.Memory.{size}
use zvmone.Memory.Grow.{IsMemory}
use zvmone.Zvmc.{StatusCode, is_success, is_revert}
use zvmone.Platform.{Platform, IsPlatform, Intx}
use zvmone.Exec.{Frame, Exec, Context, with_stack, nth, put_at, set_item, read_buffer, pure, ◌>>=◌}
use zvmone.Exec.Rules.{IsFrame, IsExit, Safe, goes, bind-Safe, require_memory_copy-Safe}
use zvmone.Exec.HostRules.{read_buffer-Safe}
use zvmone.Instructions.Flow.{
  noop, stop_impl, push0, dup, swap, load_partial_push_data, load_full_words, push_data, jump_impl,
  jump, jumpi, pc, gas, push,
}
use zvmone.Instructions.Buffers.{return_impl}
use zvmone.Instructions.Safety.Done.{IsDone, Meets}

put_at-length :
    (s : List Uint256) (i : ℕ) (x : Uint256)
    → i < length s
    → (t : List Uint256) × (put_at s i x ≡ some t) × (length t ≡ length s)
put_at-length [] i x h = absurd (omega arith)
put_at-length (y ∷ s) zero x h = (x ∷ s, refl, refl)
put_at-length (y ∷ s) (suc i) x h =
    let (t, e, l) = put_at-length s i x (omega arith) in (y ∷ t, rw e refl, ground arith)

module _ {H : Type 0} where
  pub noop-Meets : (k : ℕ) → Meets k k (noop {H = H})
  unfolding noop
  noop-Meets k n f v h = goes (ground arith)

  pub push0-Meets : Meets 0 1 (push0 {H = H})
  unfolding push0
  push0-Meets n f v h = goes (ground arith)

  pub nth-Safe :
      {Q : Uint256 → Frame H → Type 0} (i : ℕ) (s : List Uint256) (f : Frame H)
      → i < length s
      → ((x : Uint256) → Q x f)
      → Safe Q (nth s i f)
  nth-Safe i [] f h q = absurd (omega arith)
  nth-Safe zero (x ∷ s) f h q = goes (q x)
  nth-Safe (suc i) (x ∷ s) f h q = nth-Safe i s f (omega arith) q

  set_item-Safe :
      {Q : Unit {0} → Frame H → Type 0} (i : ℕ) (x : Uint256) (f : Frame H)
      → i < length f.stack
      → ((t : List Uint256) → length t ≡ length f.stack → Q tt (with_stack t f))
      → Safe Q (set_item i x f)
  set_item-Safe i x f h q =
      let (t, e, l) = put_at-length f.stack i x h in rw (set_item, e) (goes (q t l))

  pub dup-Meets : (k : ℕ) → 1 ≤ k → Meets k (k + 1) (dup {H = H} k)
  unfolding dup
  dup-Meets k low n f v h =
      bind-Safe (nth-Safe (k - 1) f.stack f (omega arith) (λ x. goes (ground arith)))

  pub swap-Meets : (k : ℕ) → Meets (k + 1) (k + 1) (swap {H = H} k)
  unfolding swap
  swap-Meets k n f v h = bind-Safe (
      nth-Safe k f.stack f (omega arith) (λ x. bind-Safe (
        nth-Safe 0 f.stack f (omega arith) (λ y. bind-Safe (
          set_item-Safe 0 x f (omega arith)
            (λ t e. set_item-Safe k y (with_stack t f) (omega arith) (λ t' e'. ground arith)))))))

  -- What a move leaves: a position below `limit`, or a failure.
  abbrev pub MovesTo : ℕ → ℤ → ℕ → Option ℕ → Frame H → Type 0
  MovesTo n g limit (some q) f = IsDone n g f × (q < limit)
  MovesTo n g limit none f = IsExit f.state.status f

  -- What a terminating instruction leaves: an output inside of the memory.
  pub record IsEnd (g : ℤ) (s : StatusCode) (f : Frame H) : Type 0 where
    pub memory_left : IsMemory f.state.memory
    pub gas_positive : pos 0 ≤ℤ f.gas_left
    pub gas_below : f.gas_left ≤ℤ g
    pub failed_empty : (is_success s || is_revert s) ≡ false → f.state.output_size ≡ 0
    pub output_inside :
        (f.state.output_size ≡ 0)
        ⊎ (f.state.output_offset + f.state.output_size ≤ size f.state.memory)

  branch-Safe :
      {A : Type 0} {Q : A → Frame H → Type 0} (b : Bool) (x y : Exec H A) (f : Frame H)
      → Safe Q (x f)
      → Safe Q (y f)
      → Safe Q ((if b then x else y) f)
  branch-Safe true x y f h k = h
  branch-Safe false x y f h k = k

module _ {H : Type 0} (p : Platform H) where
  part-Safe :
      {Q : ℕ → Frame H → Type 0} (code : List ℕ) (i n : ℕ) (g : List ℕ → ℕ) (f : Frame H)
      → i + n ≤ length code
      → ((x : ℕ) → Q x f)
      → Safe Q ((do bytes ← read_buffer code i n; pure (g bytes)) f)
  part-Safe code i n g f b q =
      bind-Safe (read_buffer-Safe p code i n f (inr b) (λ bytes len. goes (q (g bytes))))

  load_partial-Safe :
      (intx : Intx) (code : List ℕ) (len i : ℕ) {Q : ℕ → Frame H → Type 0} (f : Frame H)
      → i + 8 ≤ length code
      → ((x : ℕ) → Q x f)
      → Safe Q (load_partial_push_data intx code len i f)
  unfolding load_partial_push_data
  load_partial-Safe intx code len i f b q =
      branch-Safe (len == 1) _ _ f (part-Safe code i 1 _ f (omega arith) q) (
        branch-Safe (len == 2) _ _ f (part-Safe code i 2 _ f (omega arith) q) (
          branch-Safe (len == 3) _ _ f (part-Safe code i 4 _ f (omega arith) q) (
            branch-Safe (len == 4) _ _ f (part-Safe code i 4 _ f (omega arith) q)
              (part-Safe code i 8 _ f b q))))

  load_full_words-Safe :
      (intx : Intx) (code : List ℕ) (left i : ℕ) (r : Uint256) {Q : Uint256 → Frame H → Type 0}
      (f : Frame H)
      → i + left * 8 ≤ length code
      → ((x : Uint256) → Q x f)
      → Safe Q (load_full_words intx code left i r f)
  unfolding load_full_words
  load_full_words-Safe intx code zero i r f b q = goes (q r)
  load_full_words-Safe intx code (suc left) i r f b q = bind-Safe (
      read_buffer-Safe p code i 8 f (inr (omega arith))
        (λ bytes len. load_full_words-Safe intx code left (i + 8) _ f (omega arith) q))

  push_data-Safe :
      (intx : Intx) (code : List ℕ) (len i : ℕ) {Q : Uint256 → Frame H → Type 0} (f : Frame H)
      → len ≤ 32
      → i + 32 ≤ length code
      → ((x : Uint256) → Q x f)
      → Safe Q (push_data intx code len i f)
  unfolding push_data
  push_data-Safe intx code len i f small b q =
      branch-Safe (len % 8 == 0) _ _ f
        (load_full_words-Safe intx code (len / 8) i _ f (omega arith) q)
        (bind-Safe (
          load_partial-Safe intx code (len % 8) i f (omega arith)
            (λ w. load_full_words-Safe intx code (len / 8) (i + len % 8) _ f (omega arith) q)))

  pub push-Safe :
      (ctx : Context) (len position n : ℕ) (f : Frame H)
      → IsFrame f
      → len ≤ 32
      → position + 33 ≤ length ctx.padded_code
      → n ≤ length f.stack
      → (limit : ℕ) → position + len + 1 < limit
      → Safe (MovesTo (n + 1) f.gas_left limit) (push p ctx len position f)
  unfolding push
  push-Safe ctx len position n f v small b h limit below = bind-Safe (
      push_data-Safe p.intx ctx.padded_code len (position + 1) f small (omega arith)
        (λ x. goes (ground arith, omega arith)))

  pub pc-Safe :
      (ctx : Context) (position n : ℕ) (f : Frame H)
      → IsFrame f
      → n ≤ length f.stack
      → (limit : ℕ) → position + 1 < limit
      → Safe (MovesTo (n + 1) f.gas_left limit) (pc p ctx position f)
  unfolding pc
  pc-Safe ctx position n f v h limit below = goes (ground arith, below)

  pub gas-Meets : (ctx : Context) → Meets 0 1 (gas p ctx)
  unfolding gas
  gas-Meets ctx n f v h = goes (ground arith)

  -- A destination below the end of the map.
  jump_impl-Safe :
      (ctx : Context) (dst : Uint256) (n : ℕ) (g : ℤ) (f : Frame H)
      → IsPlatform p
      → IsFrame f
      → length ctx.jumpdest_map < 2 ^ 64
      → n ≤ length f.stack
      → f.gas_left ≤ℤ g
      → (limit : ℕ) → length ctx.jumpdest_map ≤ limit
      → Safe (MovesTo n g limit) (jump_impl p ctx dst f)
  unfolding jump_impl
  jump_impl-Safe ctx dst n g f w v small h e limit below =
      elim (Bool-cases (
        not (p.intx.ult dst (of_uint64 (length ctx.jumpdest_map)))
        || not (get_or ctx.jumpdest_map dst.w0 false))) [
          | inl bad ↦ rw bad (goes (ground arith))
          | inr good ↦ rw good (
              goes (
                ground arith,
                ground (arith, w.ult_value dst (of_uint64 (length ctx.jumpdest_map))),
              ))
        ]

  pub jump-Safe :
      (ctx : Context) (position n : ℕ) (f : Frame H)
      → IsPlatform p
      → IsFrame f
      → length ctx.jumpdest_map < 2 ^ 64
      → n + 1 ≤ length f.stack
      → (limit : ℕ) → length ctx.jumpdest_map ≤ limit
      → Safe (MovesTo (n + 0) f.gas_left limit) (jump p ctx position f)
  unfolding jump
  jump-Safe ctx position n f w v small h limit below = jump_on f.stack h
    where
      jump_on :
          (s : List Uint256)
          → n + 1 ≤ length s
          → Safe (MovesTo (n + 0) f.gas_left limit) (jump p ctx position (with_stack s f))
      jump_on [] h = absurd (omega arith)
      jump_on (a ∷ s) h =
          jump_impl-Safe ctx a (n + 0) f.gas_left (with_stack s f) w (ground arith) small
            (omega arith) (omega arith) limit below

  pub jumpi-Safe :
      (ctx : Context) (position n : ℕ) (f : Frame H)
      → IsPlatform p
      → IsFrame f
      → length ctx.jumpdest_map < 2 ^ 64
      → n + 2 ≤ length f.stack
      → (limit : ℕ) → length ctx.jumpdest_map ≤ limit
      → position + 1 < limit
      → Safe (MovesTo (n + 0) f.gas_left limit) (jumpi p ctx position f)
  unfolding jumpi
  jumpi-Safe ctx position n f w v small h limit below next = jumpi_on f.stack h
    where
      jumpi_on :
          (s : List Uint256)
          → n + 2 ≤ length s
          → Safe (MovesTo (n + 0) f.gas_left limit) (jumpi p ctx position (with_stack s f))
      jumpi_on [] h = absurd (omega arith)
      jumpi_on (a ∷ []) h = absurd (omega arith)
      jumpi_on (a ∷ b ∷ s) h =
          branch-Safe (not (p.intx.equal b (of_uint64 0))) _ _ (with_stack s f)
            (jump_impl-Safe ctx a (n + 0) f.gas_left (with_stack s f) w (ground arith) small
              (omega arith) (omega arith) limit below)
            (goes (ground arith, next))

  pub stop-Safe :
      (s : StatusCode) (f : Frame H) → IsFrame f → Safe (IsEnd f.gas_left) (stop_impl s f)
  unfolding stop_impl
  stop-Safe s f v = goes (ground arith)

  -- With two items on a valid frame's stack, RETURN and REVERT do not fault. They fail, or end
  -- with their output inside of the memory and with no more gas than before.
  pub return-Safe :
      (ctx : Context) (s : StatusCode) (f : Frame H)
      → IsFrame f
      → (is_success s || is_revert s) ≡ true
      → 2 ≤ length f.stack
      → Safe (IsEnd f.gas_left) (return_impl p ctx s f)
  unfolding return_impl
  return-Safe ctx s f v ends h = bind-Safe (
      nth-Safe 0 f.stack f (omega arith) (λ a. bind-Safe (
        nth-Safe 1 f.stack f (omega arith) (λ n. bind-Safe (
          require_memory_copy-Safe a n f v (λ g m mv l le inside grow.
            elim (Bool-cases (n.w0 == 0)) [
              | inl nothing ↦ rw nothing (goes (ground arith))
              | inr bytes ↦ rw bytes (goes (ground arith))
            ]))))))
