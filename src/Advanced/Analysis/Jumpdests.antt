-- ===== src/Advanced/Analysis/Jumpdests.antt =====
-- The jump destinations that `analyze` of lib/zvmone/advanced_analysis.cpp records, against the
-- instructions of the code.
use zvmone.Prelude.{
  ◌%◌, ◌^◌, ℕ, zero, suc, ◌+◌, ◌-◌, ◌≤◌, ◌<◌, ◌≡◌, ◌⊎◌, ◌↔◌, refl, ◌∙◌, ap, inl, inr, true, false,
  min, Bool-cases, Option, arith, none, some, List, [], ◌∷◌, length, get_elem?, leb, ltb, ◌==◌,
  if◌then◌else◌,
}
use zvmone.Opcodes.{
  Opcode, op_stop, op_return, op_revert, op_jump, op_push, opcode_byte, decode, is_between,
}
use zvmone.Opcodes.Bytes.{decode_iff}
use zvmone.Baseline.Analysis.Boundary.{
  Reaches, here, next, instruction_length, byte_at, byte_at-outside, get_elem?-inside,
  get_elem?-outside,
}
use zvmone.Advanced.Table.{get_op_table}
use zvmone.Advanced.Analysis.{
  Case, ends, small_push, large_push, switch_case, skip_dead, BlockAnalysis, new_block, count,
}
use zvmone.Advanced.Analysis.Compile.{next_pos, compile}
use zvmone.Advanced.Analysis.Refine.{compile-dest, compile-plain, compile-end}

-- An instruction JUMPDEST at `j`, on the way from the position `i`.
abbrev pub IsDest : List ℕ → ℕ → ℕ → Type 0
IsDest code i j = Reaches code i j × (byte_at code j ≡ 0x5b)

IsDest-inside : (code : List ℕ) (i j : ℕ) → IsDest code i j → i < length code
IsDest-inside code i j (here, b) = elim (Bool-cases (ltb i (length code))) [
  | inl inside ↦ ground arith
  | inr outside ↦ absurd (let z = byte_at-outside code i (ground arith) in omega arith)
]
IsDest-inside code i j (next _ h r, b) = h

pub IsDest-offset : (code : List ℕ) (i j : ℕ) → IsDest code i j → j < length code
IsDest-offset code i j (r, b) = elim (Bool-cases (ltb j (length code))) [
  | inl inside ↦ ground arith
  | inr outside ↦ absurd (let z = byte_at-outside code j (ground arith) in omega arith)
]

IsDest-next :
    (code : List ℕ) (i j : ℕ)
    → (byte_at code i == 0x5b) ≡ false
    → IsDest code i j
    → IsDest code (i + instruction_length (byte_at code i)) j
IsDest-next code i j other (here, b) = absurd (ground arith)
IsDest-next code i j other (next _ h r, b) = (r, b)

-- A step over another instruction.
IsDest-step :
    (code : List ℕ) (i j : ℕ)
    → i < length code
    → (byte_at code i == 0x5b) ≡ false
    → IsDest code (i + instruction_length (byte_at code i)) j ↔ IsDest code i j
IsDest-step code i j h other = ((λ d. (next i h d.0, d.1)), IsDest-next code i j other)

-- At a JUMPDEST.
IsDest-here :
    (code : List ℕ) (i j : ℕ)
    → byte_at code i ≡ 0x5b
    → IsDest code i j
    → (j ≡ i) ⊎ IsDest code (i + 1) j
IsDest-here code i j at (here, b) = inl refl
IsDest-here code i j at (next _ h r, b) = inr ((rw at at r), b)

-- A position behind the code is as good as its end.
IsDest-clip : (code : List ℕ) (m j : ℕ) → IsDest code (min m (length code)) j ↔ IsDest code m j
IsDest-clip code m j = elim (Bool-cases (ltb m (length code))) [
  | inl inside ↦ let same : min m (length code) ≡ m = ground arith in rw same ((λ d. d), (λ d. d))
  | inr outside ↦ (
    (λ d. absurd (let b = IsDest-inside code _ j d in ground arith)),
    (λ d. absurd (let b = IsDest-inside code m j d in ground arith)),
  )
]

trans_iff : {A B C : Type 0} → A ↔ B → B ↔ C → A ↔ C
trans_iff f g = ((λ a. g.0 (f.0 a)), (λ c. f.1 (g.1 c)))

skip_dead-none :
    (rounds : ℕ) (code : List ℕ) (i : ℕ) → get_elem? code i ≡ none → skip_dead rounds code i ≡ i
unfolding skip_dead
skip_dead-none zero code i e = refl
skip_dead-none (suc rounds) code i e = rw (skip_dead, e) refl

-- Where the skipping goes on.
abbrev skipped : List ℕ → ℕ → ℕ
skipped code i =
    let b = byte_at code i in
    if is_between 0x60 0x7f b then min (i + (b - 0x60 + 1) + 1) (length code) else i + 1

skip_dead-some :
    (rounds : ℕ) (code : List ℕ) (i : ℕ)
    → i < length code
    → skip_dead (suc rounds) code i
      ≡ (if byte_at code i == 0x5b then i else skip_dead rounds code (skipped code i))
unfolding skip_dead
skip_dead-some rounds code i h = rw (skip_dead, get_elem?-inside code i h) refl

IsDest-skipped :
    (code : List ℕ) (i j : ℕ)
    → IsDest code (skipped code i) j ↔ IsDest code (i + instruction_length (byte_at code i)) j
IsDest-skipped code i j = elim (Bool-cases (is_between 0x60 0x7f (byte_at code i))) [
  | inl push ↦
      let n = byte_at code i in
      let same : i + (n - 0x60 + 1) + 1 ≡ i + (n - 0x5f + 1) = ground arith in
      rw (push, same) (IsDest-clip code (i + (n - 0x5f + 1)) j)
  | inr other ↦ rw other ((λ d. d), (λ d. d))
]

IsDest-skip_dead :
    (rounds : ℕ) (code : List ℕ) (i j : ℕ)
    → IsDest code (skip_dead rounds code i) j ↔ IsDest code i j
unfolding skip_dead
IsDest-skip_dead zero code i j = ((λ d. d), (λ d. d))
IsDest-skip_dead (suc rounds) code i j = elim (Bool-cases (ltb i (length code))) [
  | inl inside ↦
      let h : i < length code = ground arith in
      rw (skip_dead-some rounds code i h) (elim (Bool-cases (byte_at code i == 0x5b)) [
        | inl dest ↦ rw dest ((λ d. d), (λ d. d))
        | inr other ↦ rw other (
            trans_iff (IsDest-skip_dead rounds code (skipped code i) j)
              (trans_iff (IsDest-skipped code i j) (IsDest-step code i j h other)))
      ])
  | inr outside ↦
      rw (skip_dead-none (suc rounds) code i (get_elem?-outside code i (ground arith)))
        ((λ d. d), (λ d. d))
]

not_push : (b n : ℕ) → is_between 0x60 0x7f b ≡ false → decode b ≡ some (op_push n) → ⊥
unfolding opcode_byte
not_push b n other d =
    let at = (decode_iff b (op_push n)).0 d in let range = at.0 in let byte = at.1 in ground arith

IsDest-next_pos_of :
    (code : List ℕ) (b i j : ℕ) (o : Option Opcode)
    → decode b ≡ o
    → is_between 0x60 0x7f b ≡ false
    → IsDest code (next_pos code (switch_case o) i) j ↔ IsDest code i j
unfolding switch_case
IsDest-next_pos_of code b i j none d other = ((λ x. x), (λ x. x))
IsDest-next_pos_of code b i j (some op_jump) d other = IsDest-skip_dead (length code) code i j
IsDest-next_pos_of code b i j (some op_stop) d other = IsDest-skip_dead (length code) code i j
IsDest-next_pos_of code b i j (some op_return) d other = IsDest-skip_dead (length code) code i j
IsDest-next_pos_of code b i j (some op_revert) d other = IsDest-skip_dead (length code) code i j
IsDest-next_pos_of code b i j (some (op_push n)) d other = absurd (not_push b n other d)
IsDest-next_pos_of code b i j (some _) d other = ((λ x. x), (λ x. x))

decode-push : (b : ℕ) → is_between 0x60 0x7f b ≡ true → decode b ≡ some (op_push (b - 0x60 + 1))
unfolding decode
decode-push b push = rw push refl

-- The position that the loop goes on with.
IsDest-next_pos :
    (code : List ℕ) (i j : ℕ)
    → IsDest code (next_pos code (switch_case (decode (byte_at code i))) (i + 1)) j
      ↔ IsDest code (i + instruction_length (byte_at code i)) j
unfolding switch_case
IsDest-next_pos code i j = elim (Bool-cases (is_between 0x60 0x7f (byte_at code i))) [
  | inl push ↦
      let b = byte_at code i in
      let same : i + 1 + (b - 0x60 + 1) ≡ i + (b - 0x5f + 1) = ground arith in
      rw (decode-push b push, push)
        (elim (Bool-cases (leb (b - 0x60 + 1) 8)) [
          | inl small ↦ rw (small, same) (IsDest-clip code (i + (b - 0x5f + 1)) j)
          | inr large ↦ rw (large, same) (IsDest-clip code (i + (b - 0x5f + 1)) j)
        ])
  | inr other ↦
      rw other
        (IsDest-next_pos_of code (byte_at code i) (i + 1) j (decode (byte_at code i)) refl other)
]

-- The elements of a list of offsets.
abbrev pub IsListed : ℕ → List ℕ → Type 0
IsListed j [] = ⊥
IsListed j (x ∷ xs) = (j ≡ x) ⊎ IsListed j xs

skip_dead-bounds :
    (rounds : ℕ) (code : List ℕ) (i : ℕ)
    → i ≤ length code
    → (i ≤ skip_dead rounds code i) × (skip_dead rounds code i ≤ length code)
unfolding skip_dead
skip_dead-bounds zero code i l = (omega arith, l)
skip_dead-bounds (suc rounds) code i l = elim (Bool-cases (ltb i (length code))) [
  | inl inside ↦
      let h : i < length code = ground arith in
      let b = byte_at code i in
      rw (skip_dead-some rounds code i h) (elim (Bool-cases (b == 0x5b)) [
        | inl dest ↦ rw dest (omega arith, l)
        | inr other ↦ rw other (elim (Bool-cases (is_between 0x60 0x7f b)) [
          | inl push ↦
              let behind = min (i + (b - 0x60 + 1) + 1) (length code) in
              let ih = skip_dead-bounds rounds code behind (omega arith) in
              rw push (omega arith, ih.1)
          | inr plain ↦
              let ih = skip_dead-bounds rounds code (i + 1) (omega arith) in
              rw plain (omega arith, ih.1)
        ])
      ])
  | inr outside ↦
      rw (skip_dead-none (suc rounds) code i (get_elem?-outside code i (ground arith)))
        (omega arith, l)
]

pub next_pos-bounds :
    (code : List ℕ) (c : Case) (i : ℕ)
    → i ≤ length code
    → (i ≤ next_pos code c i) × (next_pos code c i ≤ length code)
next_pos-bounds code ends i h = skip_dead-bounds (length code) code i h
next_pos-bounds code (small_push n) i h = omega arith
next_pos-bounds code (large_push n) i h = omega arith
next_pos-bounds code _ i h = omega arith

IsDest-first :
    {L : Type 0} (code : List ℕ) (i j : ℕ)
    → i < length code
    → byte_at code i ≡ 0x5b
    → L ↔ IsDest code (i + 1) j
    → ((j ≡ i) ⊎ L) ↔ IsDest code i j
IsDest-first code i j h at f = (
  (λ d. elim d [
    | inl same ↦ rw same (here, at)
    | inr later ↦
        let r : Reaches code (i + instruction_length (byte_at code i)) j = rw at (f.0 later).0 in
        (next i h r, (f.0 later).1)
  ]),
  (λ d. elim (IsDest-here code i j at d) [ inl same ↦ inl same | inr later ↦ inr (f.1 later) ]),
)

-- The offsets that `compile` lists from the position `i` on are the jump destinations from there.
pub compile-IsDest :
    (rounds : ℕ) (code : List ℕ) (i index pushes j : ℕ) (b : BlockAnalysis)
    → length code ≤ rounds + i
    → i ≤ length code
    → length code < 2 ^ 31
    → IsListed j (compile rounds code i b index pushes).offsets ↔ IsDest code i j
unfolding compile
compile-IsDest zero code i index pushes j b h l z =
    ((λ d. elim d [ ]), (λ d. absurd (let inside = IsDest-inside code i j d in omega arith)))
compile-IsDest (suc rounds) code i index pushes j b h l z =
    elim (Bool-cases (ltb i (length code))) [
      | inl inside ↦
          let k : i < length code = ground arith in
          let opcode = byte_at code i in
          let e = get_elem?-inside code i k in
          elim (Bool-cases (opcode == 0x5b)) [
            | inl dest ↦
                let same : opcode ≡ 0x5b = ground arith in
                let e' : get_elem? code i ≡ some 0x5b = e ∙ ap some same in
                let ih =
                  compile-IsDest rounds code (i + 1) (index + 1) pushes j
                    (count (get_op_table 0x5b) (new_block index)) (omega arith) (omega arith) z in
                let narrow : i % 2 ^ 32 ≡ i = omega arith in
                rw (compile-dest rounds code i index pushes b e', narrow)
                  (IsDest-first code i j k same ih)
            | inr other ↦
                let c = switch_case (decode opcode) in
                let on = next_pos-bounds code c (i + 1) (omega arith) in
                rw (compile-plain rounds code i index pushes opcode b e other) (
                  trans_iff
                    (compile-IsDest rounds code (next_pos code c (i + 1)) (index + 1) _ j _
                      (omega arith) on.1 z)
                    (trans_iff (IsDest-next_pos code i j) (IsDest-step code i j k other)))
          ]
      | inr outside ↦
          let e = get_elem?-outside code i (ground arith) in
          rw (compile-end (suc rounds) code i index pushes b e) (
            (λ d. elim d [ ]),
            (λ d. absurd (let inside = IsDest-inside code i j d in ground arith)),
          )
    ]
