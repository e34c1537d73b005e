-- ===== src/Baseline/Traced/Notified.antt =====
-- What the events do to the contexts of the tracers (lib/zvmone/tracing.cpp).
use zvmone.Prelude.{ℕ, ◌<◌, ◌≡◌, refl, Option, some, List, [], ◌∷◌, length, get_elem?}
use zvmone.Prelude.Int.{ℤ}
use zvmone.Uint256.{Uint256}
use zvmone.Zvmc.{Message, CallResult}
use zvmone.Tracing.{
  Stream, HistogramContext, InstructionContext, Tracer, histogram, instruction, on_execution_start,
  on_instruction_start, on_execution_end, notify, count_opcode, put_all, instruction_items,
}
use zvmone.Baseline.Analysis.Boundary.{byte_at, get_elem?-inside}

-- The first tracer is the second with a context for this code on top.
pub data IsOpened (code : List ℕ) : Tracer → Tracer → Type 0 where
  opened_histogram :
      (c : HistogramContext) (cs : List HistogramContext)
      → c.code ≡ code
      → IsOpened code (histogram (c ∷ cs)) (histogram cs)
  opened_instruction :
      (c : InstructionContext) (cs : List InstructionContext)
      → c.traced_code ≡ code
      → IsOpened code (instruction (c ∷ cs)) (instruction cs)

-- The relation holds between the tracers at the same places.
pub data All (R : Tracer → Tracer → Type 0) : List Tracer → List Tracer → Type 0 where
  all_empty : All R [] []
  all_more : (t u : Tracer) (ts us : List Tracer) → R t u → All R ts us → All R (t ∷ ts) (u ∷ us)

-- The handler succeeds, on any stream, and leads from the one relation to the other.
unfoldable pub Leads :
    (Tracer → Tracer → Type 0)
    → (Tracer → Tracer → Type 0)
    → (Tracer → Stream → Option (Tracer × Stream))
    → Type 0
Leads R S handler =
    (t u : Tracer) (s : Stream)
    → R t u
    → (t' : Tracer) × (s' : Stream) × (handler t s ≡ some (t', s')) × S t' u

pub notify-All :
    {R S : Tracer → Tracer → Type 0} (handler : Tracer → Stream → Option (Tracer × Stream))
    (ts us : List Tracer) (s : Stream)
    → Leads R S handler
    → All R ts us
    → (ts' : List Tracer) × (s' : Stream) × (notify handler ts s ≡ some (ts', s')) × All S ts' us
unfolding notify Leads
notify-All handler _ _ s l all_empty = ([], s, refl, all_empty)
notify-All handler _ _ s l (all_more t u ts us r rest) =
    let (t1, s1, e1, r1) = l t u s r in
    let (ts2, s2, e2, r2) = notify-All handler ts us s1 l rest in
    (t1 ∷ ts2, s2, rw (notify, e1, e2) refl, all_more t1 u ts2 us r1 r2)

pub start-Leads :
    (msg : Message) (code : List ℕ)
    → Leads (λ t u. t ≡ u) (IsOpened code) (λ t s. some (on_execution_start msg code t s))
unfolding Leads on_execution_start
start-Leads msg code t (histogram cs) s e = rw e (_, _, refl, opened_histogram _ cs refl)
start-Leads msg code t (instruction cs) s e = rw e (_, _, refl, opened_instruction _ cs refl)

pub instruction-Leads :
    (code : List ℕ) (pc : ℕ) (stack : List Uint256) (gas : ℤ) (memory_size : ℕ)
    → pc < length code
    → Leads (IsOpened code) (IsOpened code) (on_instruction_start pc stack gas memory_size)
unfolding Leads on_instruction_start
instruction-Leads code pc stack gas memory_size h _ _ s (opened_histogram c cs e) =
    let op = byte_at code pc in
    let at : get_elem? c.code pc ≡ some op = rw e (get_elem?-inside code pc h) in
    let c' = record c { counts = count_opcode op c.counts } in
    (histogram (c' ∷ cs), s, rw (on_instruction_start, at) refl, opened_histogram c' cs e)
instruction-Leads code pc stack gas memory_size h _ _ s (opened_instruction c cs e) =
    let op = byte_at code pc in
    let at : get_elem? c.traced_code pc ≡ some op = rw e (get_elem?-inside code pc h) in
    (
      instruction (c ∷ cs),
      put_all (instruction_items pc op stack gas memory_size) s,
      rw (on_instruction_start, at) refl,
      opened_instruction c cs e,
    )

pub end-Leads :
    (code : List ℕ) (r : CallResult) → Leads (IsOpened code) (λ t u. t ≡ u) (on_execution_end r)
unfolding Leads on_execution_end
end-Leads code r _ _ s (opened_histogram c cs e) = (_, _, refl, refl)
end-Leads code r _ _ s (opened_instruction c cs e) = (_, _, refl, refl)

pub each_related : (ts : List Tracer) → All (λ t u. t ≡ u) ts ts
each_related [] = all_empty
each_related (t ∷ ts) = all_more t t ts ts refl (each_related ts)

pub tracers_equal : (ts us : List Tracer) → All (λ t u. t ≡ u) ts us → ts ≡ us
tracers_equal _ _ all_empty = refl
tracers_equal _ _ (all_more t u ts us e rest) = let e2 = tracers_equal ts us rest in rw (e, e2) refl
