-- ===== src/Advanced/Analysis/Targets.antt =====
-- The lists of jump destinations that the analysis of lib/zvmone/advanced_analysis.cpp makes.
use zvmone.Prelude.{
  ◌%◌, ◌^◌, ℕ, zero, suc, ◌+◌, ◌-◌, ◌≤◌, ◌<◌, ◌≡◌, refl, ◌∙◌, ap, inl, inr, true, false, Bool-cases,
  arith, some, List, [], ◌∷◌, length, get_elem?, get_or, ltb, ◌==◌,
}
use zvmone.Opcodes.{decode, find_opcode}
use zvmone.Baseline.Analysis.Boundary.{byte_at, get_elem?-inside, get_elem?-outside}
use zvmone.Advanced.Table.{fn_beginblock, instruction_implementations, get_op_table}
use zvmone.Advanced.Analysis.{
  int32_less, Instruction, BlockAnalysis, new_block, count, switch_case, lower_bound,
}
use zvmone.Advanced.Analysis.Compile.{next_pos, block_after, large_values, compile}
use zvmone.Advanced.Analysis.Refine.{compile-dest, compile-plain, compile-end}
use zvmone.Advanced.Analysis.Jumpdests.{IsListed, next_pos-bounds}

-- Strictly increasing, from `lo` on.
abbrev pub IsIncreasing : ℕ → List ℕ → Type 0
IsIncreasing lo [] = Unit {0}
IsIncreasing lo (x ∷ xs) = (lo ≤ x) × IsIncreasing (x + 1) xs

IsIncreasing-weaken : (lo hi : ℕ) (xs : List ℕ) → lo ≤ hi → IsIncreasing hi xs → IsIncreasing lo xs
IsIncreasing-weaken lo hi [] h v = tt
IsIncreasing-weaken lo hi (x ∷ xs) h v = (omega (arith, v.0), v.1)

listed-above : (lo j : ℕ) (xs : List ℕ) → IsIncreasing lo xs → IsListed j xs → lo ≤ j
listed-above lo j [] v m = elim m [ ]
listed-above lo j (x ∷ xs) v (inl same) = omega (arith, v.0)
listed-above lo j (x ∷ xs) v (inr later) =
    let l = listed-above (x + 1) j xs v.1 later in omega (arith, v.0)

-- In a sorted list the search ends at the value, if it is there.
pub lower_bound-listed :
    (lo j : ℕ) (xs : List ℕ)
    → IsIncreasing lo xs
    → IsListed j xs
    → j < 2 ^ 31
    → (lower_bound xs j < length xs) × (get_elem? xs (lower_bound xs j) ≡ some j)
lower_bound-listed lo j [] v m z = elim m [ ]
lower_bound-listed lo j (x ∷ xs) v (inl same) z =
    let stop : int32_less x j ≡ false = ground arith in rw (stop, same) (omega arith, refl)
lower_bound-listed lo j (x ∷ xs) v (inr later) z =
    let l = listed-above (x + 1) j xs v.1 later in
    let on : int32_less x j ≡ true = ground arith in
    let ih = lower_bound-listed (x + 1) j xs v.1 later z in rw on (omega (arith, ih.0), ih.1)

pub get_elem?-IsListed : (xs : List ℕ) (i j : ℕ) → get_elem? xs i ≡ some j → IsListed j xs
get_elem?-IsListed [] i j e = absurd cc
get_elem?-IsListed (x ∷ xs) zero j e = inl (cc)
get_elem?-IsListed (x ∷ xs) (suc i) j e = inr (get_elem?-IsListed xs i j e)

pub get_or-IsListed : (xs : List ℕ) (i d : ℕ) → i < length xs → IsListed (get_or xs i d) xs
get_or-IsListed [] i d h = absurd (omega arith)
get_or-IsListed (x ∷ xs) zero d h = inl refl
get_or-IsListed (x ∷ xs) (suc i) d h = inr (get_or-IsListed xs i d (omega arith))

-- A jump destination's instruction, among those from the one of number `index` on.
abbrev pub StartsAt : ℕ → List Instruction → ℕ → Type 0
StartsAt index xs t =
    (index ≤ t) × ((x : Instruction) × (get_elem? xs (t - index) ≡ some x) × (x.fn ≡ fn_beginblock))

StartsAt-later :
    (index t : ℕ) (x : Instruction) (xs : List Instruction)
    → StartsAt (index + 1) xs t
    → StartsAt index (x ∷ xs) t
StartsAt-later index t x xs (h, (y, e, f)) =
    let same : t - index ≡ suc (t - (index + 1)) = omega arith in (omega arith, (y, rw same e, f))

beginblock-dest : (get_op_table 0x5b).fn ≡ fn_beginblock
unfolding decode find_opcode instruction_implementations
beginblock-dest = refl

-- What `compile` says of the jump destinations.
pub record AreTargets (i index : ℕ) (offsets targets : List ℕ) (xs : List Instruction)
    : Type 0 where
  pub sorted : IsIncreasing i offsets
  pub paired : length targets ≡ length offsets
  pub started : (t : ℕ) → IsListed t targets → StartsAt index xs t
  pub narrow : (t : ℕ) → IsListed t targets → t < 2 ^ 31

AreTargets-none : (i index : ℕ) (xs : List Instruction) → AreTargets i index [] [] xs
AreTargets-none i index xs = record {
  sorted = tt;
  paired = refl;
  started = λ t m. elim m [ ];
  narrow = λ t m. elim m [ ];
}

AreTargets-dest :
    (i index : ℕ) (offsets targets : List ℕ) (x : Instruction) (xs : List Instruction)
    → x.fn ≡ fn_beginblock
    → index < 2 ^ 31
    → AreTargets (i + 1) (index + 1) offsets targets xs
    → AreTargets i index (i ∷ offsets) (index ∷ targets) (x ∷ xs)
AreTargets-dest i index offsets targets x xs f z v = record {
  narrow = λ t m. elim m [ inl same ↦ omega arith | inr later ↦ v.narrow t later ];
  sorted = (omega arith, v.sorted);
  paired = ap suc v.paired;
  started = λ t m. elim m [
    | inl same ↦ let first : t - index ≡ 0 = omega arith in (omega arith, (x, rw first refl, f))
    | inr later ↦ StartsAt-later index t x xs (v.started t later)
  ];
}

AreTargets-plain :
    (i i' index : ℕ) (offsets targets : List ℕ) (x : Instruction) (xs : List Instruction)
    → i ≤ i'
    → AreTargets i' (index + 1) offsets targets xs
    → AreTargets i index offsets targets (x ∷ xs)
AreTargets-plain i i' index offsets targets x xs h v = record {
  sorted = IsIncreasing-weaken i i' offsets h v.sorted;
  paired = v.paired;
  started = λ t m. StartsAt-later index t x xs (v.started t m);
  narrow = v.narrow;
}

pub compile-AreTargets :
    (rounds : ℕ) (code : List ℕ) (i index pushes : ℕ) (b : BlockAnalysis)
    → i ≤ length code
    → index ≤ i + 1
    → length code < 2 ^ 31
    → (let r = compile rounds code i b index pushes in
        AreTargets i index r.offsets r.targets r.following)
unfolding compile
compile-AreTargets zero code i index pushes b l n z = AreTargets-none i index _
compile-AreTargets (suc rounds) code i index pushes b l n z =
    elim (Bool-cases (ltb i (length code))) [
      | inl inside ↦
          let opcode = byte_at code i in
          let e = get_elem?-inside code i (ground arith) in
          elim (Bool-cases (opcode == 0x5b)) [
            | inl dest ↦
                let e' : get_elem? code i ≡ some 0x5b = e ∙ ap some (ground arith) in
                let narrow : (i % 2 ^ 32 ≡ i) × (index % 2 ^ 32 ≡ index) = ground arith in
                rw (compile-dest rounds code i index pushes b e', narrow.0, narrow.1)
                  (AreTargets-dest i index _ _ _ _ beginblock-dest (ground arith) (
                    compile-AreTargets rounds code (i + 1) (index + 1) pushes
                      (count (get_op_table 0x5b) (new_block index)) (ground arith) (omega arith) z))
            | inr other ↦
                let c = switch_case (decode opcode) in
                let on = next_pos-bounds code c (i + 1) (ground arith) in
                rw (compile-plain rounds code i index pushes opcode b e other) (
                  AreTargets-plain i (next_pos code c (i + 1)) index _ _ _ _ (omega (arith, on.0)) (
                    compile-AreTargets rounds code (next_pos code c (i + 1)) (index + 1)
                      (pushes + length (large_values code c (i + 1)))
                      (block_after c index (count (get_op_table opcode) b)) on.1
                      (omega (arith, on.0)) z))
          ]
      | inr outside ↦
          rw
            (compile-end (suc rounds) code i index pushes b
              (get_elem?-outside code i (ground arith)))
            (AreTargets-none i index _)
    ]
