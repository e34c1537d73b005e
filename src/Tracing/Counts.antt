-- ===== src/Tracing/Counts.antt =====
-- What HistogramTracer of lib/zvmone/tracing.cpp counts.
use zvmone.Prelude.{
  ℕ, zero, suc, ◌+◌, ◌%◌, ◌^◌, ◌<◌, ◌≡◌, refl, ap, Bool-cases, false, inl, inr, Option, none, some,
  List, [], ◌∷◌, arith, length, length-replicate, get_or-replicate, get_or, ◌==◌, if◌then◌else◌,
}
use zvmone.Prelude.Int.{ℤ}
use zvmone.Uint256.{Uint256}
use zvmone.Zvmc.{Message}
use zvmone.Baseline.Analysis.Boundary.{byte_at, get_elem?-inside}
use zvmone.Tracing.{
  Stream, HistogramContext, Tracer, histogram, new_context, count_opcode, on_execution_start,
  on_instruction_start,
}

-- The arguments of `on_instruction_start`.
pub record Event : Type 0 where
  pub pc : ℕ
  pub stack : List Uint256
  pub gas : ℤ
  pub memory_size : ℕ

-- One event after the other.
pub trace_all : List Event → Tracer → Stream → Option (Tracer × Stream)
trace_all [] t s = some (t, s)
trace_all (e ∷ events) t s = elim (on_instruction_start e.pc e.stack e.gas e.memory_size t s) [
  | none ↦ none
  | some (t', s') ↦ trace_all events t' s'
]

abbrev pub occurrences : ℕ → List ℕ → ℕ
occurrences op [] = 0
occurrences op (x ∷ xs) = if op == x then suc (occurrences op xs) else occurrences op xs

-- The events are at positions of the code.
abbrev pub AreInside : List ℕ → List Event → Type 0
AreInside code [] = Unit {0}
AreInside code (e ∷ events) = (e.pc < length code) × AreInside code events

abbrev pub opcodes : List ℕ → List Event → List ℕ
opcodes code [] = []
opcodes code (e ∷ events) = byte_at code e.pc ∷ opcodes code events

length-count_opcode : (op : ℕ) (counts : List ℕ) → length (count_opcode op counts) ≡ length counts
length-count_opcode op [] = refl
length-count_opcode zero (n ∷ counts) = refl
length-count_opcode (suc op) (n ∷ counts) = ap suc (length-count_opcode op counts)

count_opcode_same :
    (op : ℕ) (counts : List ℕ)
    → op < length counts
    → get_or (count_opcode op counts) op 0 ≡ (get_or counts op 0 + 1) % 2 ^ 32
count_opcode_same op [] h = absurd (omega arith)
count_opcode_same zero (n ∷ counts) h = refl
count_opcode_same (suc op) (n ∷ counts) h = count_opcode_same op counts (omega arith)

count_opcode_other :
    (op j : ℕ) (counts : List ℕ)
    → (j == op) ≡ false
    → get_or (count_opcode op counts) j 0 ≡ get_or counts j 0
count_opcode_other op j [] h = refl
count_opcode_other zero zero (n ∷ counts) h = absurd (ground arith)
count_opcode_other zero (suc j) (n ∷ counts) h = refl
count_opcode_other (suc op) zero (n ∷ counts) h = refl
count_opcode_other (suc op) (suc j) (n ∷ counts) h = count_opcode_other op j counts (ground arith)

-- What the events leave of a context.
record Counted (c : HistogramContext) (events : List Event) (c' : HistogramContext) : Type 0 where
  same_length : length c'.counts ≡ length c.counts
  counted :
      (j : ℕ)
      → j < length c.counts
      → get_or c'.counts j 0 % 2 ^ 32
        ≡ (get_or c.counts j 0 + occurrences j (opcodes c.code events)) % 2 ^ 32
  in_range :
      (j : ℕ) → j < length c.counts → get_or c.counts j 0 < 2 ^ 32 → get_or c'.counts j 0 < 2 ^ 32

trace_all-Counted :
    (events : List Event) (c : HistogramContext) (contexts : List HistogramContext) (s : Stream)
    → AreInside c.code events
    → (c' : HistogramContext) × (trace_all events (histogram (c ∷ contexts)) s
        ≡ some (histogram (c' ∷ contexts), s))
      × Counted c events c'
unfolding trace_all on_instruction_start
trace_all-Counted [] c contexts s v =
    (c, refl, record { same_length = refl; counted = λ j h. omega arith; in_range = λ j h k. k })
trace_all-Counted (e ∷ events) c contexts s v =
    let op = byte_at c.code e.pc in
    let c1 = record c { counts = count_opcode op c.counts } in
    let (c', run, k) = trace_all-Counted events c1 contexts s v.1 in
    let len = length-count_opcode op c.counts in
    (
      c',
      rw (trace_all, get_elem?-inside c.code e.pc v.0) run,
      record {
        same_length = omega (arith, k.same_length);
        counted = λ j h. elim (Bool-cases (j == op)) [
          | inl same ↦
              let at : j ≡ op = ground arith in
              let one : get_or (count_opcode op c.counts) j 0 ≡ (get_or c.counts j 0 + 1) % 2 ^ 32 =
                rw at (count_opcode_same op c.counts (omega arith)) in
              let rest = k.counted j (omega arith) in rw same (omega (arith, one, rest))
          | inr other ↦
              let none_more = count_opcode_other op j c.counts other in
              let rest = k.counted j (omega arith) in rw other (omega (arith, none_more, rest))
        ];
        in_range = λ j h b. elim (Bool-cases (j == op)) [
          | inl same ↦
              let at : j ≡ op = ground arith in
              let one = count_opcode_same op c.counts (omega arith) in
              let low : get_or (count_opcode op c.counts) j 0 < 2 ^ 32 =
                rw at (rw one (omega arith)) in
              k.in_range j (omega arith) low
          | inr other ↦
              let none_more = count_opcode_other op j c.counts other in
              let low : get_or (count_opcode op c.counts) j 0 < 2 ^ 32 = rw none_more b in
              k.in_range j (omega arith) low
        ];
      },
    )

-- From the start of an execution, and for events at positions of the code, the histogram tracer
-- counts every opcode as often as the events meet it, modulo 2^32, and writes nothing.
pub histogram-occurrences :
    (msg : Message) (code : List ℕ) (events : List Event) (contexts : List HistogramContext)
    (s : Stream)
    → AreInside code events
    → (c : HistogramContext) × (trace_all events
          (on_execution_start msg code (histogram contexts) s).0
          (on_execution_start msg code (histogram contexts) s).1
        ≡ some (histogram (c ∷ contexts), s))
      × ((op : ℕ) → op < 256 → get_or c.counts op 0 ≡ occurrences op (opcodes code events) % 2 ^ 32)
unfolding on_execution_start
histogram-occurrences msg code events contexts s v =
    let c0 = new_context msg.depth code in
    let (c, run, k) = trace_all-Counted events c0 contexts s v in
    let len : length c0.counts ≡ 256 = length-replicate {A = ℕ} 256 0 in
    (
      c,
      run,
      λ op h.
          let zeros : get_or c0.counts op 0 ≡ 0 = get_or-replicate {A = ℕ} 256 op 0 in
          let sum = k.counted op (omega arith) in
          let low = k.in_range op (omega arith) (omega arith) in omega (arith, zeros, sum, low),
    )
