-- ===== src/Baseline/Analysis/Boundary.antt =====
-- `analyze_jumpdests` of lib/zvmone/baseline.cpp against the instructions of the code.
use zvmone.Prelude.{
  ℕ, zero, suc, ◌+◌, ◌-◌, ◌≤◌, ◌<◌, ◌≡◌, ◌⊎◌, ◌↔◌, ap, refl, Bool, true, false, none, some, List,
  [], ◌∷◌, inl, inr, Bool-cases, arith, length, length-replicate, get_elem?, get_or,
  get_or-replicate, set, ltb, ◌==◌, if◌then◌else◌,
}
use zvmone.Opcodes.{is_between}
use zvmone.Baseline.Analysis.{
  analyze_from, analyze_jumpdests, is_push, skip_data, mark, op_jumpdest_byte,
}
use zvmone.Baseline.Analysis.Padding.{length-mark}

-- The length of an instruction, by the rule of the EVM: PUSH1 to PUSH32 have 1 to 32 bytes of data.
abbrev pub instruction_length : ℕ → ℕ
instruction_length op = if is_between 0x60 0x7f op then op - 0x5f + 1 else 1

abbrev pub byte_at : List ℕ → ℕ → ℕ
byte_at code i = get_or code i 0

-- The instructions from the one at `i` on lead to one at `j`.
pub data Reaches (code : List ℕ) : ℕ → ℕ → Type 0 where
  here : {i : ℕ} → Reaches code i i
  next :
      (i : ℕ) {j : ℕ}
      → i < length code
      → Reaches code (i + instruction_length (byte_at code i)) j
      → Reaches code i j

-- Every element of the code is a byte.
abbrev pub AreBytes : List ℕ → Type 0
AreBytes [] = Unit {0}
AreBytes (b ∷ bytes) = (b < 256) × AreBytes bytes

skip_data-length : (op i : ℕ) → op < 256 → skip_data op i + 1 ≡ i + instruction_length op
skip_data-length op i h = ground arith

byte_at-lt : (code : List ℕ) (i : ℕ) → AreBytes code → byte_at code i < 256
byte_at-lt [] i h = omega arith
byte_at-lt (b ∷ code) zero h = h.0
byte_at-lt (b ∷ code) (suc i) h = byte_at-lt code i h.1

pub get_elem?-inside :
    (code : List ℕ) (i : ℕ) → i < length code → get_elem? code i ≡ some (byte_at code i)
get_elem?-inside [] i h = absurd (omega arith)
get_elem?-inside (b ∷ code) zero h = refl
get_elem?-inside (b ∷ code) (suc i) h = get_elem?-inside code i (omega arith)

pub get_elem?-outside : (code : List ℕ) (i : ℕ) → length code ≤ i → get_elem? code i ≡ none
get_elem?-outside [] i h = refl
get_elem?-outside (b ∷ code) zero h = absurd (omega arith)
get_elem?-outside (b ∷ code) (suc i) h = get_elem?-outside code i (omega arith)

pub byte_at-outside : (code : List ℕ) (i : ℕ) → length code ≤ i → byte_at code i ≡ 0
byte_at-outside [] i h = refl
byte_at-outside (b ∷ code) zero h = absurd (omega arith)
byte_at-outside (b ∷ code) (suc i) h = byte_at-outside code i (omega arith)

get_or-set_cases :
    (map : List Bool) (i j : ℕ)
    → get_or (set map i true) j false ≡ true
    → (get_or map j false ≡ true) ⊎ (j ≡ i)
get_or-set_cases [] i j h = inl h
get_or-set_cases (b ∷ map) zero zero h = inr refl
get_or-set_cases (b ∷ map) zero (suc j) h = inl h
get_or-set_cases (b ∷ map) (suc i) zero h = inl h
get_or-set_cases (b ∷ map) (suc i) (suc j) h = elim (get_or-set_cases map i j h) [
  | inl old ↦ inl old
  | inr same ↦ inr (ap suc same)
]

get_or-set_kept :
    (map : List Bool) (i j : ℕ) → get_or map j false ≡ true → get_or (set map i true) j false ≡ true
get_or-set_kept [] i j h = h
get_or-set_kept (b ∷ map) zero zero h = refl
get_or-set_kept (b ∷ map) zero (suc j) h = h
get_or-set_kept (b ∷ map) (suc i) zero h = h
get_or-set_kept (b ∷ map) (suc i) (suc j) h = get_or-set_kept map i j h

get_or-set_self :
    (map : List Bool) (i : ℕ) → i < length map → get_or (set map i true) i false ≡ true
get_or-set_self [] i h = absurd (omega arith)
get_or-set_self (b ∷ map) zero h = refl
get_or-set_self (b ∷ map) (suc i) h = get_or-set_self map i (omega arith)

mark-kept :
    (op i j : ℕ) (map : List Bool)
    → get_or map j false ≡ true
    → get_or (mark op i map) j false ≡ true
mark-kept op i j map h = elim (Bool-cases (is_push op)) [
  | inl push ↦ rw push h
  | inr other ↦ rw other (elim (Bool-cases (op == op_jumpdest_byte)) [
    | inl dest ↦ rw dest (get_or-set_kept map i j h)
    | inr plain ↦ rw plain h
  ])
]

mark-new :
    (op i j : ℕ) (map : List Bool)
    → get_or (mark op i map) j false ≡ true
    → (get_or map j false ≡ true) ⊎ ((j ≡ i) × (op ≡ 0x5b))
mark-new op i j map h = elim (Bool-cases (is_push op)) [
  | inl push ↦ inl (rw push at h)
  | inr other ↦ elim (Bool-cases (op == op_jumpdest_byte)) [
    | inl dest ↦ elim (get_or-set_cases map i j (rw (other, dest) at h)) [
      | inl old ↦ inl old
      | inr same ↦ inr (same, ground arith)
    ]
    | inr plain ↦ inl (rw (other, plain) at h)
  ]
]

mark-jumpdest : (i : ℕ) (map : List Bool) → i < length map → get_or (mark 0x5b i map) i false ≡ true
mark-jumpdest i map h = get_or-set_self map i h

-- One round, within the code.
analyze_from-round :
    (rounds : ℕ) (code : List ℕ) (i : ℕ) (map : List Bool)
    → AreBytes code
    → i < length code
    → analyze_from (suc rounds) code i map
      ≡ analyze_from rounds code
          (i + instruction_length (byte_at code i))
          (mark (byte_at code i) i map)
unfolding analyze_from
analyze_from-round rounds code i map v h =
    rw
      (
        analyze_from,
        get_elem?-inside code i h,
        skip_data-length (byte_at code i) i (byte_at-lt code i v),
      )
      refl

analyze_from-end :
    (rounds : ℕ) (code : List ℕ) (i : ℕ) (map : List Bool)
    → length code ≤ i
    → analyze_from rounds code i map ≡ map
unfolding analyze_from
analyze_from-end zero code i map h = refl
analyze_from-end (suc rounds) code i map h = rw (analyze_from, get_elem?-outside code i h) refl

analyze_from_sound :
    (rounds : ℕ) (code : List ℕ) (i j : ℕ) (map : List Bool)
    → AreBytes code
    → get_or (analyze_from rounds code i map) j false ≡ true
    → (get_or map j false ≡ true) ⊎ (Reaches code i j × (byte_at code j ≡ 0x5b))
unfolding analyze_from
analyze_from_sound zero code i j map v h = inl h
analyze_from_sound (suc rounds) code i j map v h = elim (Bool-cases (ltb i (length code))) [
  | inl inside ↦
      let b : i < length code = ground arith in
      elim (analyze_from_sound rounds code (i + instruction_length (byte_at code i)) j
        (mark (byte_at code i) i map) v (rw (analyze_from-round rounds code i map v b) at h)) [
          | inl marked ↦ elim (mark-new (byte_at code i) i j map marked) [
            | inl old ↦ inl old
            | inr (same, dest) ↦ inr (rw same (here, dest))
          ]
          | inr (r, dest) ↦ inr (next i b r, dest)
        ]
  | inr outside ↦ inl (rw (analyze_from-end (suc rounds) code i map (ground arith)) at h)
]

analyze_from-kept :
    (rounds : ℕ) (code : List ℕ) (i j : ℕ) (map : List Bool)
    → AreBytes code
    → get_or map j false ≡ true
    → get_or (analyze_from rounds code i map) j false ≡ true
unfolding analyze_from
analyze_from-kept zero code i j map v h = h
analyze_from-kept (suc rounds) code i j map v h = elim (Bool-cases (ltb i (length code))) [
  | inl inside ↦ rw (analyze_from-round rounds code i map v (ground arith)) (
      analyze_from-kept rounds code (i + instruction_length (byte_at code i)) j
        (mark (byte_at code i) i map) v (mark-kept (byte_at code i) i j map h))
  | inr outside ↦ rw (analyze_from-end (suc rounds) code i map (ground arith)) h
]

-- The rounds are enough if they reach the end of the code.
analyze_from_complete :
    (rounds : ℕ) (code : List ℕ) (i j : ℕ) (map : List Bool)
    → AreBytes code
    → length code ≤ rounds + i
    → length code ≤ length map
    → Reaches code i j
    → byte_at code j ≡ 0x5b
    → get_or (analyze_from rounds code i map) j false ≡ true
analyze_from_complete zero code i j map v e l here h =
    absurd (let z = byte_at-outside code i (omega arith) in omega arith)
analyze_from_complete zero code i j map v e l (next _ b r) h = absurd (omega arith)
analyze_from_complete (suc rounds) code i j map v e l here h =
    elim (Bool-cases (ltb i (length code))) [
      | inl inside ↦
          let b : i < length code = ground arith in
          rw (analyze_from-round rounds code i map v b)
            (analyze_from-kept rounds code _ i _ v (rw h (mark-jumpdest i map (omega arith))))
      | inr outside ↦ absurd (let z = byte_at-outside code i (ground arith) in omega arith)
    ]
analyze_from_complete (suc rounds) code i j map v e l (next _ b r) h =
    rw (analyze_from-round rounds code i map v b) (
      analyze_from_complete rounds code (i + instruction_length (byte_at code i)) j
        (mark (byte_at code i) i map) v (ground arith)
        (omega (arith, length-mark (byte_at code i) i map)) r h)

-- For a code of bytes, the map of the jump destinations is true exactly at the JUMPDEST bytes at
-- which an instruction starts.
pub analyze_jumpdests-Reaches :
    (code : List ℕ) (j : ℕ)
    → AreBytes code
    → (get_or (analyze_jumpdests code) j false ≡ true)
      ↔ (Reaches code 0 j × (byte_at code j ≡ 0x5b))
unfolding analyze_jumpdests
analyze_jumpdests-Reaches code j v = (
  (λ h. elim (analyze_from_sound (length code) code 0 j _ v h) [
    | inl old ↦ absurd (ground (arith, get_or-replicate (length code) j false))
    | inr found ↦ found
  ]),
  (λ r.
      analyze_from_complete (length code) code 0 j _ v (omega arith)
        (omega (arith, length-replicate {A = Bool} (length code) false)) r.0 r.1),
)
