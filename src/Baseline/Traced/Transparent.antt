-- ===== src/Baseline/Traced/Transparent.antt =====
-- What tracers change of an execution (lib/zvmone/baseline.cpp and lib/zvmone/tracing.cpp).
use zvmone.Prelude.{
  ℕ, zero, suc, ◌%◌, ◌^◌, ◌≡◌, refl, inl, inr, arith, Bool, Bool-cases, Option, none, some, List,
  [], ◌∷◌, length, get_elem?, ltb,
}
use zvmone.Memory.{size}
use zvmone.Zvmc.{Message, CallResult}
use zvmone.Platform.{Platform}
use zvmone.Exec.{Context, Frame}
use zvmone.Tracing.{Stream, Tracer}
use zvmone.Vm.{Vm}
use zvmone.Baseline.{
  Next, running, stopped, faulted, step, Run, finished, undefined, unfinished, dispatch,
}
use zvmone.Baseline.{execute, after_dispatch, make_result, enough_rounds, start}
use zvmone.Baseline.Analysis.{analyze, pad_code}
use zvmone.Prelude.{◌&&◌}
use mathlib.Core.Option
use zvmone.Baseline.Analysis.Boundary.{AreBytes}
use zvmone.Baseline.Traced.Cgoto.{dispatch_cgoto-dispatch}
use zvmone.Baseline.Traced.{
  trace_round, dispatch_traced, execute_vm, execute_state, after_traced, after_result,
}
use zvmone.Baseline.Traced.Notified.{
  all_empty, IsOpened, All, notify-All, start-Leads, instruction-Leads, end-Leads, each_related,
  tracers_equal,
}

AreBytes-pad_code : (code : List ℕ) → AreBytes code → AreBytes (pad_code code)
unfolding pad_code
AreBytes-pad_code [] v = ground arith
AreBytes-pad_code (b ∷ code) v = (v.0, AreBytes-pad_code code v.1)

-- A result without tracers, with the VM's tracers and the stream.
abbrev pub with_tracers :
    {H : Type 0} → List Tracer → Stream → CallResult × H → CallResult × H × List Tracer × Stream
with_tracers ts s r = (r.0, r.1, ts, s)

module _ {H : Type 0} (p : Platform H) where
  trace_round-All :
      (ctx : Context) (position : ℕ) (f : Frame H) (ts us : List Tracer) (s : Stream)
      → All (IsOpened ctx.original_code) ts us
      → (ts' : List Tracer) × (s' : Stream) × (trace_round ctx position f ts s ≡ some (ts', s'))
        × All (IsOpened ctx.original_code) ts' us
  unfolding trace_round
  trace_round-All ctx position f ts us s v =
      let offset = position % 2 ^ 32 in
      elim (Bool-cases (ltb offset (length ctx.original_code))) [
        | inl inside ↦
            let (ts', s', e, v') =
              notify-All _ ts us s
                (instruction-Leads ctx.original_code offset f.stack f.gas_left (size f.state.memory)
                  (ground arith))
                v in
            (ts', s', rw inside e, v')
        | inr outside ↦ (ts, s, rw outside refl, v)
      ]

  dispatch_traced-dispatch :
      (ctx : Context) (rounds position : ℕ) (f : Frame H) (ts us : List Tracer) (s : Stream)
      → All (IsOpened ctx.original_code) ts us
      → (ts' : List Tracer) × (s' : Stream) × (dispatch_traced rounds p ctx position f ts s
          ≡ (dispatch rounds p ctx position f, ts', s'))
        × All (IsOpened ctx.original_code) ts' us
  unfolding dispatch_traced dispatch
  dispatch_traced-dispatch ctx zero position f ts us s v = (ts, s, refl, v)
  dispatch_traced-dispatch ctx (suc rounds) position f ts us s v =
      let (ts1, s1, e1, v1) = trace_round-All ctx position f ts us s v in
      rw (dispatch_traced, e1)
        (by_next (λ next f' ts1 s1 v1. dispatch_traced-dispatch ctx rounds next f' ts1 us s1 v1)
          (step p ctx (get_elem? ctx.padded_code position) position f) ts1 s1 v1)
    where
      by_next :
          ((next : ℕ) (f' : Frame H) (ts1 : List Tracer) (s1 : Stream)
            → All (IsOpened ctx.original_code) ts1 us
            → (ts' : List Tracer) × (s' : Stream) × (dispatch_traced rounds p ctx next f' ts1 s1
                ≡ (dispatch rounds p ctx next f', ts', s'))
              × All (IsOpened ctx.original_code) ts' us)
          → (o : Next H) (ts1 : List Tracer) (s1 : Stream) → All (IsOpened ctx.original_code) ts1 us
          → (ts' : List Tracer) × (s' : Stream) × ((elim o as (λ _. Run H × List Tracer × Stream) [
            | running next f' ↦ dispatch_traced rounds p ctx next f' ts1 s1
            | stopped f' ↦ (finished f', ts1, s1)
            | faulted ↦ (undefined, ts1, s1)
          ])
              ≡ (
                (elim o as (λ _. Run H) [
                  | running next f' ↦ dispatch rounds p ctx next f'
                  | stopped f' ↦ finished f'
                  | faulted ↦ undefined
                ]),
                ts',
                s',
              ))
            × All (IsOpened ctx.original_code) ts' us
      by_next rest (running next f') ts1 s1 v1 = rest next f' ts1 s1 v1
      by_next rest (stopped f') ts1 s1 v1 = (ts1, s1, refl, v1)
      by_next rest faulted ts1 s1 v1 = (ts1, s1, refl, v1)

  abbrev with_host : Frame H → CallResult → CallResult × H
  with_host f r = (r, f.state.host)

  finish :
      (code : List ℕ) (f : Frame H) (made : Option CallResult) (ts us : List Tracer) (s : Stream)
      → All (IsOpened code) ts us
      → (s' : Stream) × (after_result f made ts s
          ≡ Option.map (with_tracers us s') (Option.map (with_host f) made))
  finish code f none ts us s v = (s, refl)
  finish code f (some r) ts us s v =
      let (ts', s', e, v') = notify-All _ ts us s (end-Leads code r) v in
      let same = tracers_equal ts' us v' in (s', rw (after_result, e, same) refl)

  after_traced-after_dispatch :
      (code : List ℕ) (run : Run H) (ts us : List Tracer) (s : Stream)
      → All (IsOpened code) ts us
      → (s' : Stream) × (after_traced (run, ts, s)
          ≡ Option.map (with_tracers us s') (after_dispatch run))
  unfolding after_dispatch
  after_traced-after_dispatch code (finished f) ts us s v = finish code f (make_result f) ts us s v
  after_traced-after_dispatch code undefined ts us s v = (s, refl)
  after_traced-after_dispatch code unfinished ts us s v = (s, refl)

  execute_state-dispatch :
      (supported : Bool) (ctx : Context) (rounds : ℕ) (vm : Vm) (f : Frame H) (s : Stream)
      (ts : List Tracer)
      → vm.tracers ≡ ts
      → AreBytes ctx.padded_code
      → (s' : Stream) × (execute_state supported p ctx rounds vm f s
          ≡ Option.map (with_tracers ts s') (after_dispatch (dispatch rounds p ctx 0 f)))
  unfolding execute_state
  execute_state-dispatch supported ctx rounds vm f s [] e v =
      let (s', same) =
        after_traced-after_dispatch ctx.original_code (dispatch rounds p ctx 0 f) [] [] s
          all_empty in
      (
        s',
        rw (execute_state, e)
            (elim (Bool-cases (supported && vm.cgoto)) [
              | inl by_goto ↦ rw (by_goto, dispatch_cgoto-dispatch p ctx rounds 0 f v) same
              | inr by_switch ↦ rw by_switch same
            ]),
      )
  execute_state-dispatch supported ctx rounds vm f s (t ∷ ts) e v =
      let us = t ∷ ts in
      let (ts1, s1, e1, v1) =
        notify-All _ us us s (start-Leads ctx.msg ctx.original_code) (each_related us) in
      let (ts2, s2, e2, v2) = dispatch_traced-dispatch ctx rounds 0 f ts1 us s1 v1 in
      let (s3, e3) =
        after_traced-after_dispatch ctx.original_code (dispatch rounds p ctx 0 f) ts2 us s2 v2 in
      (s3, rw (execute_state, e, e1, e2) e3)

  -- For a code of bytes and whatever tracers the VM has, `execute` on the VM, with the computed-
  -- goto loop or with the switch, gives the result and the host state of the switch without
  -- tracers, and leaves the VM's tracers as they were. It gives no result only where that gives
  -- none.
  pub execute_vm-execute :
      (supported : Bool) (h : H) (msg : Message) (code : List ℕ) (vm : Vm) (s : Stream)
      → AreBytes code
      → (s' : Stream) × (execute_vm supported p h msg code vm s
          ≡ Option.map (with_tracers vm.tracers s') (execute p h msg code))
  unfolding execute_vm execute_state execute after_dispatch
  execute_vm-execute supported h msg code vm s v =
      execute_state-dispatch supported (analyze msg code) (enough_rounds msg) vm (start h msg) s
        vm.tracers refl (AreBytes-pad_code code v)
