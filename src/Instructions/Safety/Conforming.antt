-- ===== src/Instructions/Safety/Conforming.antt =====
-- What the tables of lib/zvmone/instructions_traits.hpp say of an implementation.
use zvmone.Prelude.{ℕ, ◌+◌, ◌^◌, ◌≤◌, ◌<◌, ◌≡◌, some, arith, length, get_elem?}
use zvmone.Prelude.Int.{pos, ◌+ℤ◌, ◌-ℤ◌, ◌≤ℤ◌, int_laws}
use zvmone.Exec.{Frame, Exec, Context}
use zvmone.Exec.Rules.{IsFrame, Safe, weaken-Safe}
use zvmone.Opcodes.{Opcode}
use zvmone.Traits.{gas_costs, traits}
use zvmone.Instructions.Impl.{CoreFn, returns, moves, terminates}
use zvmone.Instructions.Safety.Done.{IsDone, Meets}
use zvmone.Instructions.Safety.Flow.{MovesTo, IsEnd}

-- What `analyze` gives: the code with 33 bytes after it, and a map of the code's length.
pub record IsContext (ctx : Context) : Type 0 where
  pub padded_length : length ctx.padded_code ≡ length ctx.original_code + 33
  pub stops :
      (i : ℕ)
      → length ctx.original_code ≤ i
      → i < length ctx.padded_code
      → get_elem? ctx.padded_code i ≡ some 0
  pub map_length : length ctx.jumpdest_map ≡ length ctx.original_code
  pub code_small : length ctx.original_code < 2 ^ 63
  pub input_small : length ctx.msg.input < 2 ^ 63

module _ {H : Type 0} where
  -- An instruction of the opcode `op` keeps what the tables say of it. The gas that it uses, the base
  -- cost included, is positive unless it ends the execution.
  unfoldable pub Conforms : Context → Opcode → CoreFn H → Type 0
  Conforms ctx op (returns fn) =
      (j d : ℕ) × ((n : ℕ) (f : Frame H)
        → IsFrame f
        → n + (traits op).stack_height_required ≤ length f.stack
        → Safe (λ u f'. IsDone (n + j) (f.gas_left -ℤ pos d) f') (fn f))
      × (pos (traits op).stack_height_required +ℤ (traits op).stack_height_change ≤ℤ pos j)
      × (1 ≤ gas_costs op + d)
  Conforms ctx op (moves fn) =
      (j : ℕ) × ((position n : ℕ) (f : Frame H)
        → IsFrame f
        → position < length ctx.original_code
        → n + (traits op).stack_height_required ≤ length f.stack
        → Safe (MovesTo (n + j) f.gas_left (length ctx.padded_code)) (fn position f))
      × (pos (traits op).stack_height_required +ℤ (traits op).stack_height_change ≤ℤ pos j)
      × (1 ≤ gas_costs op)
  Conforms ctx op (terminates fn) =
      (f : Frame H)
      → IsFrame f
      → (traits op).stack_height_required ≤ length f.stack
      → Safe (IsEnd f.gas_left) (fn f)

  pub meets :
      (ctx : Context) (op : Opcode) (j : ℕ) (fn : Exec H (Unit {0}))
      → Meets (traits op).stack_height_required j fn
      → pos (traits op).stack_height_required +ℤ (traits op).stack_height_change ≤ℤ pos j
      → 1 ≤ gas_costs op
      → Conforms ctx op (returns fn)
  unfolding Conforms
  meets ctx op j fn m h c = (
    j,
    0,
    (λ n f v b. weaken-Safe (m n f v b) (λ u f' d. record {
      frame = d.frame;
      height = d.height;
      paid = (let e = d.paid in omega int_laws);
    })),
    h,
    omega arith,
  )
