-- ===== src/Baseline/Execution.antt =====
-- The loop of `dispatch` and the result of `execute` (lib/zvmone/baseline.cpp).
use zvmone.Prelude.{
  ℕ, zero, suc, ◌+◌, ◌≤◌, ◌<◌, ◌^◌, ◌≡◌, refl, ◌||◌, Bool, true, false, some, List, [], inl, inr,
  Bool-cases, arith, length, replicate, get_elem?, ◌==◌, if◌then◌else◌,
}
use zvmone.Prelude.Int.{ℤ, pos, ◌+ℤ◌, ◌≤ℤ◌, pos_part, int_laws}
use zvmone.Memory.{size}
use zvmone.Memory.Grow.{new_memory-IsMemory}
use zvmone.Memory.Access.{load-eq_some}
use zvmone.Zvmc.{is_success, is_revert, Message, CallResult}
use zvmone.Platform.{Platform, IsPlatform}
use zvmone.Exec.{Context, Frame}
use zvmone.Instructions.Safety.Conforming.{IsContext}
use zvmone.Baseline.{
  running, stopped, faulted, Next, step, Run, finished, undefined, dispatch, enough_rounds,
  make_result, start, after_dispatch, execute,
}
use zvmone.Baseline.Analysis.{analyze}
use zvmone.Baseline.Analysis.Padding.{analyze-IsContext}
use zvmone.Baseline.Rounds.{step-IsNext}
use zvmone.Baseline.Invariant.{IsFinal, IsRound, IsNext}

fewer_rounds :
    (a b : ℤ) (rounds : ℕ)
    → pos 0 ≤ℤ a
    → a +ℤ pos 1 ≤ℤ b
    → pos_part b < suc rounds
    → pos_part a < rounds
unfolding ◌+ℤ◌
fewer_rounds a b rounds h k l = ground arith

-- The gas that a result gives back.
pub kept_gas :
    (ended : Bool) (l g : ℤ)
    → (ended ≡ true → (pos 0 ≤ℤ l) × (l ≤ℤ g))
    → pos 0 ≤ℤ g
    → (pos 0 ≤ℤ (if ended then l else pos 0)) × ((if ended then l else pos 0) ≤ℤ g)
kept_gas true l g h b = h refl
kept_gas false l g h b = (omega arith, omega arith)

pub IsFinal-weaken : {H : Type 0} (l g : ℤ) (f : Frame H) → IsFinal l f → l ≤ℤ g → IsFinal g f
IsFinal-weaken l g f r h = record {
  memory_final = r.memory_final;
  gas_final = λ t. let b = r.gas_final t in (b.0, omega arith);
  output_empty = r.output_empty;
  output_final = r.output_final;
}

-- What `make_result` gives for a final frame.
pub record IsResult (g : ℤ) (r : CallResult) : Type 0 where
  pub gas_positive : pos 0 ≤ℤ r.gas_left
  pub gas_below : r.gas_left ≤ℤ g
  pub no_gas : (is_success r.status_code || is_revert r.status_code) ≡ false → r.gas_left ≡ pos 0
  pub no_output : (is_success r.status_code || is_revert r.status_code) ≡ false → r.output ≡ []
  pub no_refund : is_success r.status_code ≡ false → r.gas_refund ≡ pos 0

module _ {H : Type 0} (p : Platform H) (w : IsPlatform p) where
  -- For a platform that keeps its laws and an analysed code, from the loop's invariant and with
  -- more rounds than gas, the loop ends: it neither runs out of rounds nor reaches undefined
  -- behaviour.
  pub dispatch-finished :
      (ctx : Context) (rounds position : ℕ) (f : Frame H)
      → IsContext ctx
      → IsRound ctx position f
      → pos_part f.gas_left < rounds
      → (f' : Frame H) × (dispatch rounds p ctx position f ≡ finished f') × IsFinal f.gas_left f'
  unfolding dispatch IsNext
  dispatch-finished ctx zero position f x v h = absurd (omega arith)
  dispatch-finished ctx (suc rounds) position f x v h =
      by_next (λ next f1 v1 less. dispatch-finished ctx rounds next f1 x v1 less)
        (step p ctx (get_elem? ctx.padded_code position) position f)
        (step-IsNext p w ctx x position f v)
    where
      by_next :
          ((next : ℕ) (f1 : Frame H)
            → IsRound ctx next f1
            → pos_part f1.gas_left < rounds
            → (f' : Frame H) × (dispatch rounds p ctx next f1 ≡ finished f')
              × IsFinal f1.gas_left f')
          → (o : Next H) → IsNext ctx f.gas_left o
          → (f' : Frame H) × (elim o as (λ _. Run H) [
            | running next f' ↦ dispatch rounds p ctx next f'
            | stopped f' ↦ finished f'
            | faulted ↦ undefined
          ]
              ≡ finished f')
            × IsFinal f.gas_left f'
      by_next rest (running next f1) (v1, less) =
          let ok = v1.round_frame.gas_ok in
          let (f2, e, r) = rest next f1 v1 (fewer_rounds f1.gas_left f.gas_left rounds ok less h) in
          (f2, e, IsFinal-weaken _ _ f2 r (omega int_laws))
      by_next rest (stopped f1) r = (f1, refl, r)
      by_next rest faulted r = absurd r

  pub start-IsRound :
      (h : H) (msg : Message) (code : List ℕ)
      → IsContext (analyze msg code)
      → pos 0 ≤ℤ msg.gas
      → IsRound (analyze msg code) 0 (start h msg)
  unfolding start
  start-IsRound h msg code x g = record {
    round_frame = record {
      memory_ok = new_memory-IsMemory;
      gas_ok = g;
      running = refl;
      no_output = refl;
      returned = omega arith;
    };
    position_inside = omega (arith, x.padded_length);
    stack_inside = omega arith;
  }

  kept_result_lem :
      (g : ℤ) (f : Frame H) (output : List ℕ)
      → IsFinal g f
      → pos 0 ≤ℤ g
      → ((is_success f.state.status || is_revert f.state.status) ≡ false → output ≡ [])
      → IsResult g (record {
        status_code = f.state.status;
        gas_left =
            if is_success f.state.status || is_revert f.state.status then f.gas_left else pos 0;
        gas_refund = if is_success f.state.status then f.state.gas_refund else pos 0;
        output = output;
        create_address = replicate 20 0;
      })
  kept_result_lem g f output v b none_left =
      let ended = is_success f.state.status || is_revert f.state.status in
      let kept = kept_gas ended f.gas_left g v.gas_final b in
      record {
        gas_positive = kept.0;
        gas_below = kept.1;
        no_gas = λ e. rw e refl;
        no_output = none_left;
        no_refund = λ e. rw e refl;
      }

  pub make_result-IsResult :
      (g : ℤ) (f : Frame H)
      → IsFinal g f
      → pos 0 ≤ℤ g
      → (r : CallResult) × (make_result f ≡ some r) × IsResult g r
  unfolding make_result
  make_result-IsResult g f v b = elim (Bool-cases (f.state.output_size == 0)) [
    | inl nothing ↦ rw nothing (_, refl, kept_result_lem g f [] v b (λ e. refl))
    | inr bytes ↦
        let inside : f.state.output_offset + f.state.output_size ≤ size f.state.memory =
          (let o = v.output_final in ground arith) in
        rw (bytes, load-eq_some f.state.memory f.state.output_offset f.state.output_size inside)
          (
            _,
            refl,
            kept_result_lem g f _ v b (λ e. let z = v.output_empty e in absurd (ground arith)),
          )
  ]

  -- For a platform that keeps its laws, from gas that is not negative and with a code and an input
  -- shorter than 2^63 bytes, `execute` returns a result. The gas left is between 0 and the
  -- message's gas. Unless the status is success or revert the gas left is 0 and there is no
  -- output, and unless it is success there is no refund.
  pub execute-IsResult :
      (h : H) (msg : Message) (code : List ℕ)
      → pos 0 ≤ℤ msg.gas
      → length code < 2 ^ 63
      → length msg.input < 2 ^ 63
      → (r : CallResult) × (h' : H) × (execute p h msg code ≡ some (r, h')) × IsResult msg.gas r
  unfolding execute after_dispatch start
  execute-IsResult h msg code g a b =
      let x = analyze-IsContext msg code a b in
      let (f, e, v) =
        dispatch-finished (analyze msg code) (enough_rounds msg) 0 (start h msg) x
          (start-IsRound h msg code x g) (omega arith) in
      let (r, e', v') = make_result-IsResult msg.gas f v g in
      (r, f.state.host, rw (e, after_dispatch, e') refl, v')
