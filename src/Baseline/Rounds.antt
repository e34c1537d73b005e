-- ===== src/Baseline/Rounds.antt =====
-- One round of the loop of `dispatch` (lib/zvmone/baseline.cpp).
use zvmone.Prelude.{
  ℕ, ◌<◌, ◌≡◌, refl, true, false, Option, none, some, inl, inr, Bool-cases, arith, length,
  get_elem?, ltb,
}
use zvmone.Prelude.Int.{pos, ◌-ℤ◌, int_laws}
use zvmone.Zvmc.{success, undefined_instruction, is_success}
use zvmone.Platform.{Platform, IsPlatform}
use zvmone.Exec.{Context, Frame}
use zvmone.Exec.Rules.{IsFrame}
use zvmone.Opcodes.{Opcode, decode, op_stop}
use zvmone.Opcodes.Ranges.{in_range, decode-in_range}
use zvmone.Traits.{gas_costs}
use zvmone.Instructions.Impl.{impl}
use zvmone.Instructions.Flow.{stop_impl}
use zvmone.Instructions.Safety.Table.{impl-Conforms}
use zvmone.Instructions.Safety.Conforming.{IsContext}
use zvmone.Baseline.{
  check_requirements, stopped, after_terminates, call_core, set_status, invoke, step,
}
use zvmone.Baseline.Requirements.{check_requirements-success, check_requirements_cases}
use zvmone.Baseline.Invariant.{
  IsFinal, IsRound, IsNext, core-IsNext, refused-IsFinal, spent-IsFrame, get_elem?-some,
}

module _ {H : Type 0} (p : Platform H) (w : IsPlatform p) (ctx : Context) (x : IsContext ctx) where
  invoke-IsNext :
      (op : Opcode)
      → in_range op ≡ true
      → (position : ℕ) (f : Frame H) → IsRound ctx position f
      → position < length ctx.original_code
      → IsNext ctx f.gas_left (invoke p ctx op position f)
  unfolding invoke IsNext
  invoke-IsNext op r position f v b =
      let height = length f.stack in
      let ready = check_requirements-success op f.gas_left height v.stack_inside in
      elim (check_requirements_cases op f.gas_left height) [
        | inl (e, left) ↦
            let (enough, room, paid) = ready.0 e in
            rw (e, left)
              (core-IsNext ctx x op (impl p ctx op) (impl-Conforms p w ctx x op r) f.gas_left
                position (record f { gas_left = f.gas_left -ℤ pos (gas_costs op) })
                (spent-IsFrame f (gas_costs op) v.round_frame paid) b enough room (omega int_laws))
        | inr refused ↦
            let status = (check_requirements op f.gas_left height).0 in
            let failed : is_success status ≡ false = ground arith in
            rw failed (refused-IsFinal status f.gas_left _ f refused v.round_frame)
      ]

  -- STOP needs no further code.
  stop-IsNext :
      (position : ℕ) (f : Frame H)
      → IsRound ctx position f
      → IsNext ctx f.gas_left (invoke p ctx op_stop position f)
  unfolding invoke IsNext call_core after_terminates impl stop_impl
  stop-IsNext position f v =
      let height = length f.stack in
      let ready = check_requirements-success op_stop f.gas_left height v.stack_inside in
      let status = (check_requirements op_stop f.gas_left height).0 in
      elim (check_requirements_cases op_stop f.gas_left height) [
        | inl (e, left) ↦
            rw (e, left)
              (stopped_at_stop f (spent-IsFrame f (gas_costs op_stop) v.round_frame (ready.0 e).2))
        | inr refused ↦
            let failed : is_success status ≡ false = ground arith in
            rw failed (refused-IsFinal status f.gas_left _ f refused v.round_frame)
      ]
    where
      stopped_at_stop :
          (f : Frame H)
          → IsFrame (record f { gas_left = f.gas_left -ℤ pos (gas_costs op_stop) })
          → IsFinal f.gas_left
              (set_status success (record f { gas_left = f.gas_left -ℤ pos (gas_costs op_stop) }))
      stopped_at_stop f v = record {
        memory_final = v.memory_ok;
        gas_final = λ t. (v.gas_ok, omega int_laws);
        output_empty = λ t. v.no_output;
        output_final = inl v.no_output;
      }

  decoded-IsNext :
      (byte position : ℕ) (f : Frame H)
      → IsRound ctx position f
      → position < length ctx.original_code
      → (o : Option Opcode) → decode byte ≡ o
      → IsNext ctx f.gas_left (elim o [
        | none ↦ stopped (set_status undefined_instruction f)
        | some op ↦ invoke p ctx op position f
      ])
  unfolding IsNext
  decoded-IsNext byte position f v b none e =
      refused-IsFinal undefined_instruction f.gas_left f.gas_left f refl v.round_frame
  decoded-IsNext byte position f v b (some op) e =
      invoke-IsNext op (decode-in_range byte op e) position f v b

  -- For a platform that keeps its laws and an analysed code, a round that starts from the loop's
  -- invariant never faults: it ends the execution, with the output inside of the memory, or keeps
  -- the invariant (a position inside of the padded code, at most 1024 stack items, a valid memory,
  -- gas that is not negative) with less gas than before.
  pub step-IsNext :
      (position : ℕ) (f : Frame H)
      → IsRound ctx position f
      → IsNext ctx f.gas_left (step p ctx (get_elem? ctx.padded_code position) position f)
  unfolding step decode invoke
  step-IsNext position f v = elim (Bool-cases (ltb position (length ctx.original_code))) [
    | inl code ↦
        let (byte, e) = get_elem?-some ctx.padded_code position v.position_inside in
        rw e (decoded-IsNext byte position f v (ground arith) (decode byte) refl)
    | inr padding ↦
        rw (x.stops position (ground arith) v.position_inside) (stop-IsNext position f v)
  ]
