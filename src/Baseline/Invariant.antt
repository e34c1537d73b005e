-- ===== src/Baseline/Invariant.antt =====
-- The invariant of the loop of `dispatch` (lib/zvmone/baseline.cpp), and what keeps it.
use zvmone.Prelude.{
  ℕ, zero, suc, List, [], ◌∷◌, ◌+◌, ◌-◌, ◌≤◌, ◌<◌, ◌≡◌, ◌≢◌, refl, ◌⊎◌, ◌||◌, true, false, Option,
  none, some, inl, arith, length, length-drop, get_elem?, leb,
}
use zvmone.Prelude.Int.{ℤ, pos, ◌+ℤ◌, ◌-ℤ◌, ◌≤ℤ◌, pos_part, int_laws}
use zvmone.Memory.{size}
use zvmone.Memory.Grow.{IsMemory}
use zvmone.Zvmc.{StatusCode, success, revert, is_success, is_revert}
use zvmone.Exec.{Context, Frame, Outcome, ok, exit, fault}
use zvmone.Exec.Rules.{IsFrame, IsExit, Safe, goes, exits}
use zvmone.Opcodes.{Opcode}
use zvmone.Traits.{gas_costs, traits}
use zvmone.Instructions.Impl.{CoreFn, returns, moves, terminates}
use zvmone.Instructions.Safety.Done.{IsDone}
use zvmone.Instructions.Safety.Flow.{MovesTo, IsEnd}
use zvmone.Instructions.Safety.Conforming.{IsContext, Conforms}
use zvmone.Baseline.{
  stack_limit, Next, running, stopped, faulted, adjust, after_returns, after_moves,
  after_terminates, call_core, set_status,
}

not_ended : (s : StatusCode) → s ≢ success → s ≢ revert → (is_success s || is_revert s) ≡ false
not_ended success a b = absurd (a refl)
not_ended revert a b = absurd (b refl)
not_ended _ a b = refl

-- `height` items before the change are enough for `r` and leave at most the limit.
pub height_after :
    (height r n' j : ℕ) (c : ℤ)
    → r ≤ height
    → pos r +ℤ c ≤ℤ pos j
    → height - r + j ≤ n'
    → pos_part (pos height +ℤ c) ≤ n'
unfolding ◌+ℤ◌
height_after height r n' j c a b h = ground arith

pos_part-le : (z : ℤ) (n : ℕ) → z ≤ℤ pos n → pos_part z ≤ n
pos_part-le z n h = ground arith

pub get_elem?-some : (xs : List ℕ) (i : ℕ) → i < length xs → (b : ℕ) × (get_elem? xs i ≡ some b)
get_elem?-some [] i h = absurd (omega arith)
get_elem?-some (y ∷ xs) zero h = (y, refl)
get_elem?-some (y ∷ xs) (suc i) h = get_elem?-some xs i (omega arith)

module _ {H : Type 0} where
  -- What the loop ends with. Gas is left to the caller only on success and revert, and no output is
  -- given otherwise.
  pub record IsFinal (g : ℤ) (f : Frame H) : Type 0 where
    pub memory_final : IsMemory f.state.memory
    pub gas_final :
        (is_success f.state.status || is_revert f.state.status) ≡ true
        → (pos 0 ≤ℤ f.gas_left) × (f.gas_left ≤ℤ g)
    pub output_empty :
        (is_success f.state.status || is_revert f.state.status) ≡ false → f.state.output_size ≡ 0
    pub output_final :
        (f.state.output_size ≡ 0)
        ⊎ (f.state.output_offset + f.state.output_size ≤ size f.state.memory)

  -- The invariant of the loop at a position.
  pub record IsRound (ctx : Context) (position : ℕ) (f : Frame H) : Type 0 where
    pub round_frame : IsFrame f
    pub position_inside : position < length ctx.padded_code
    pub stack_inside : length f.stack ≤ stack_limit

  -- A round that starts with the gas `g`.
  unfoldable pub IsNext : Context → ℤ → Next H → Type 0
  IsNext ctx g (running q f) = IsRound ctx q f × (f.gas_left +ℤ pos 1 ≤ℤ g)
  IsNext ctx g (stopped f) = IsFinal g f
  IsNext ctx g faulted = ⊥

  pub exit-IsFinal :
      (s : StatusCode) (g : ℤ) (f : Frame H) → IsExit s f → IsFinal g (set_status s f)
  exit-IsFinal s g f e =
      let failed = not_ended s e.failed e.not_reverted in
      record {
        memory_final = e.memory_kept;
        gas_final = λ h. absurd cc;
        output_empty = λ h. e.no_result;
        output_final = inl e.no_result;
      }

  adjust-IsNext :
      (ctx : Context) (g : ℤ) (position new_height : ℕ) (f : Frame H)
      → IsFrame f
      → position < length ctx.padded_code
      → new_height ≤ length f.stack
      → new_height ≤ stack_limit
      → f.gas_left +ℤ pos 1 ≤ℤ g
      → IsNext ctx g (adjust position new_height f)
  unfolding adjust IsNext
  adjust-IsNext ctx g position new_height f v b h l e =
      let fits : leb new_height (length f.stack) ≡ true = ground arith in
      rw fits (
        record {
          round_frame = ground arith;
          position_inside = b;
          stack_inside = ground (arith, length-drop (length f.stack - new_height) f.stack);
        },
        e,
      )

  pub end-IsFinal :
      (s : StatusCode) (g l : ℤ) (f : Frame H) → IsEnd l s f → l ≤ℤ g → IsFinal g (set_status s f)
  end-IsFinal s g l f e h = record {
    memory_final = e.memory_left;
    gas_final = λ t. (e.gas_positive, (let b = e.gas_below in omega arith));
    output_empty = e.failed_empty;
    output_final = e.output_inside;
  }

  pub core-IsNext :
      (ctx : Context) (x : IsContext ctx) (op : Opcode) (fn : CoreFn H)
      → Conforms ctx op fn
      → (g : ℤ) (position : ℕ) (f : Frame H) → IsFrame f
      → position < length ctx.original_code
      → (traits op).stack_height_required ≤ length f.stack
      → pos (length f.stack) +ℤ (traits op).stack_height_change ≤ℤ pos stack_limit
      → f.gas_left +ℤ pos (gas_costs op) ≤ℤ g
      → IsNext ctx g (
          call_core fn position
            (pos_part (pos (length f.stack) +ℤ (traits op).stack_height_change))
            f)
  unfolding call_core Conforms after_returns after_moves after_terminates IsNext
  core-IsNext ctx x op (returns fn) (j, d, safe, covers, cost) g position f v b h l e =
      after (fn f) (safe (length f.stack - (traits op).stack_height_required) f v (omega arith))
    where
      after :
          (o : Outcome H (Unit {0}))
          → Safe
              (λ u f'.
                IsDone
                  (length f.stack - (traits op).stack_height_required + j)
                  (f.gas_left -ℤ pos d)
                  f')
              o
          → IsNext ctx g (
              after_returns position
                (pos_part (pos (length f.stack) +ℤ (traits op).stack_height_change))
                o)
      after (ok u f') (goes q) =
          adjust-IsNext ctx g (position + 1) _ f' q.frame (omega (arith, x.padded_length))
            (height_after (length f.stack) _ (length f'.stack) j _ h covers q.height)
            (pos_part-le _ stack_limit l) (let b1 = q.paid in omega int_laws)
      after (exit s f') (exits q) = exit-IsFinal s g f' q
      after fault q = elim q [ ]
  core-IsNext ctx x op (moves fn) (j, safe, covers, cost) g position f v b h l e =
      after (fn position f)
        (safe position (length f.stack - (traits op).stack_height_required) f v b (omega arith))
    where
      after :
          (o : Outcome H (Option ℕ))
          → Safe
              (MovesTo
                (length f.stack - (traits op).stack_height_required + j)
                f.gas_left
                (length ctx.padded_code))
              o
          → IsNext ctx g
              (after_moves (pos_part (pos (length f.stack) +ℤ (traits op).stack_height_change)) o)
      after (ok (some q) f') (goes m) =
          adjust-IsNext ctx g q _ f' m.0.frame m.1
            (height_after (length f.stack) _ (length f'.stack) j _ h covers m.0.height)
            (pos_part-le _ stack_limit l) (let b1 = m.0.paid in omega int_laws)
      after (ok none f') (goes m) = exit-IsFinal f'.state.status g f' m
      after (exit s f') (exits q) = exit-IsFinal s g f' q
      after fault q = elim q [ ]
  core-IsNext ctx x op (terminates fn) safe g position f v b h l e = after (fn f) (safe f v h)
    where
      after :
          (o : Outcome H StatusCode) → Safe (IsEnd f.gas_left) o → IsNext ctx g (after_terminates o)
      after (ok s f') (goes q) = end-IsFinal s g f.gas_left f' q (omega int_laws)
      after (exit s f') (exits q) = exit-IsFinal s g f' q
      after fault q = elim q [ ]

  pub spent-IsFrame :
      (f : Frame H) (cost : ℕ)
      → IsFrame f
      → pos cost ≤ℤ f.gas_left
      → IsFrame (record f { gas_left = f.gas_left -ℤ pos cost })
  spent-IsFrame f cost v h =
      let left : pos 0 ≤ℤ f.gas_left -ℤ pos cost = omega int_laws in ground arith

  pub refused-IsFinal :
      (s : StatusCode) (g left : ℤ) (f : Frame H)
      → (is_success s || is_revert s) ≡ false
      → IsFrame f
      → IsFinal g (set_status s (record f { gas_left = left }))
  refused-IsFinal s g left f h v = record {
    memory_final = v.memory_ok;
    gas_final = λ t. absurd cc;
    output_empty = λ t. v.no_output;
    output_final = inl v.no_output;
  }
