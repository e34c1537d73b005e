-- ===== src/Advanced/Analysis/Find.antt =====
-- `find_jumpdest` of lib/zvmone/advanced_analysis.hpp.
use zvmone.Prelude.{
  ◌^◌, ℕ, suc, ◌-◌, ◌≤◌, ◌<◌, ◌≡◌, ◌↔◌, refl, ◌∙◌, ap, inl, inr, true, false, Bool-cases,
  Option-cases, arith, some, List, ◌∷◌, length, get_elem?, get_or, ltb, ◌==◌,
}
use zvmone.Prelude.Int.{ℤ, pos, negsuc, leb_ℤ}
use zvmone.Baseline.Analysis.{analyze_jumpdests}
use zvmone.Baseline.Analysis.Boundary.{AreBytes, analyze_jumpdests-Reaches}
use zvmone.Advanced.Table.{fn_beginblock}
use zvmone.Advanced.Analysis.{
  Instruction, AdvancedCodeAnalysis, new_block, lower_bound, find_jumpdest, analyze,
}
use zvmone.Advanced.Analysis.Refine.{analyze-compile}
use zvmone.Advanced.Analysis.Jumpdests.{IsDest, IsListed, compile-IsDest, IsDest-offset}
use zvmone.Advanced.Analysis.Targets.{
  IsIncreasing, lower_bound-listed, get_elem?-IsListed, get_or-IsListed, StartsAt,
  compile-AreTargets,
}

-- The jump destinations of an analysis: where they are sorted and paired with their instructions.
pub record AreJumpdests (a : AdvancedCodeAnalysis) : Type 0 where
  pub are_behind : (t : ℕ) → IsListed t a.jumpdest_targets → 1 ≤ t
  pub are_narrow : (t : ℕ) → IsListed t a.jumpdest_targets → t < 2 ^ 31
  pub are_sorted : IsIncreasing 0 a.jumpdest_offsets
  pub are_paired : length a.jumpdest_targets ≡ length a.jumpdest_offsets
  pub are_started :
      (t : ℕ)
      → IsListed t a.jumpdest_targets
      → (x : Instruction) × (get_elem? a.instrs t ≡ some x) × (x.fn ≡ fn_beginblock)

behind_first :
    (t : ℕ) (x : Instruction) (xs : List Instruction)
    → StartsAt 1 xs t
    → (y : Instruction) × (get_elem? (x ∷ xs) t ≡ some y) × (y.fn ≡ fn_beginblock)
behind_first t x xs (h, (y, e, f)) = let same : t ≡ suc (t - 1) = omega arith in (y, (rw same e), f)

pub analyze-AreJumpdests : (code : List ℕ) → length code < 2 ^ 31 → AreJumpdests (analyze code)
analyze-AreJumpdests code z =
    let v =
      compile-AreTargets (length code) code 0 1 0 (new_block 0) (omega arith) (omega arith) z in
    rw (analyze-compile code) (record {
      are_behind = λ t m. (v.started t m).0;
      are_narrow = v.narrow;
      are_sorted = v.sorted;
      are_paired = v.paired;
      are_started = λ t m. behind_first t _ _ (v.started t m);
    })

-- What the search gives for an offset that is listed.
find_jumpdest-IsListed :
    (a : AdvancedCodeAnalysis) (j : ℕ)
    → AreJumpdests a
    → IsListed j a.jumpdest_offsets
    → j < 2 ^ 31
    → (t : ℕ) × (find_jumpdest a j ≡ pos t) × IsListed t a.jumpdest_targets
find_jumpdest-IsListed a j v m z =
    let found = lower_bound-listed 0 j a.jumpdest_offsets v.are_sorted m z in
    let same : (j == j) ≡ true = ground arith in
    let i = lower_bound a.jumpdest_offsets j in
    let listed = get_or-IsListed a.jumpdest_targets i 0 (omega (arith, found.0, v.are_paired)) in
    let narrow = v.are_narrow _ listed in
    let positive : ltb (get_or a.jumpdest_targets i 0) (2 ^ 31) ≡ true = ground arith in
    (_, rw (find_jumpdest, found.1, same, positive) refl, listed)

find_jumpdest-found :
    (a : AdvancedCodeAnalysis) (j t : ℕ) → find_jumpdest a j ≡ pos t → IsListed j a.jumpdest_offsets
find_jumpdest-found a j t e =
    elim (Option-cases (get_elem? a.jumpdest_offsets (lower_bound a.jumpdest_offsets j))) [
      | inl none_left ↦ absurd (let z = (rw (find_jumpdest, none_left) at e) in cc)
      | inr (found, h) ↦ elim (Bool-cases (found == j)) [
        | inl same ↦
            let eq : found ≡ j = ground arith in
            get_elem?-IsListed a.jumpdest_offsets (lower_bound a.jumpdest_offsets j) j
              (h ∙ ap some eq)
        | inr other ↦ absurd (let z = (rw (find_jumpdest, h, other) at e) in cc)
      ]
    ]

compile-IsListed :
    (code : List ℕ) (j : ℕ)
    → length code < 2 ^ 31
    → IsListed j (analyze code).jumpdest_offsets ↔ IsDest code 0 j
compile-IsListed code j z =
    rw (analyze-compile code)
      (compile-IsDest (length code) code 0 1 0 j (new_block 0) (omega arith) (omega arith) z)

find_jumpdest_sound :
    (code : List ℕ) (j t : ℕ)
    → length code < 2 ^ 31
    → find_jumpdest (analyze code) j ≡ pos t
    → IsDest code 0 j
find_jumpdest_sound code j t z e =
    (compile-IsListed code j z).0 (find_jumpdest-found (analyze code) j t e)

-- What is found is listed.
pub found-IsListed :
    (code : List ℕ) (j t : ℕ)
    → length code < 2 ^ 31
    → find_jumpdest (analyze code) j ≡ pos t
    → IsListed t (analyze code).jumpdest_targets
found-IsListed code j t z e =
    let v = analyze-AreJumpdests code z in
    let listed = find_jumpdest-found (analyze code) j t e in
    let inside = IsDest-offset code 0 j (find_jumpdest_sound code j t z e) in
    let m = find_jumpdest-IsListed (analyze code) j v listed (omega arith) in
    let same : m.0 ≡ t = cc in (rw same at m.2)

is_negative : (z : ℤ) → ((t : ℕ) → z ≡ pos t → ⊥) → leb_ℤ (pos 0) z ≡ false
is_negative (pos t) h = absurd (h t refl)
is_negative (negsuc n) h = ground arith

-- In a code shorter than 2^31 bytes, the search of a jump destination at an offset below 2^31,
-- which an int holds, succeeds exactly if an instruction JUMPDEST starts there, and gives the
-- number of an instruction that begins a block.
pub find_jumpdest-IsDest :
    (code : List ℕ) (j : ℕ)
    → length code < 2 ^ 31
    → j < 2 ^ 31
    → ((t : ℕ) × (find_jumpdest (analyze code) j ≡ pos t)
        × ((x : Instruction) × (get_elem? (analyze code).instrs t ≡ some x)
            × (x.fn ≡ fn_beginblock)))
      ↔ IsDest code 0 j
find_jumpdest-IsDest code j z k =
    let v = analyze-AreJumpdests code z in
    (
      (λ f. find_jumpdest_sound code j f.0 z f.1),
      (λ d.
          let (t, e, m) =
            find_jumpdest-IsListed (analyze code) j v ((compile-IsListed code j z).1 d) k in
          (t, e, v.are_started t m)),
    )

-- On a code of bytes that is shorter than 2^31 the two interpreters have the same jump
-- destinations: at an offset below 2^31, which an int holds, the search of the Advanced
-- interpreter succeeds exactly where the map of the Baseline interpreter is true.
pub find_jumpdest-analyze_jumpdests :
    (code : List ℕ) (j : ℕ)
    → AreBytes code
    → length code < 2 ^ 31
    → j < 2 ^ 31
    → leb_ℤ (pos 0) (find_jumpdest (analyze code) j) ≡ get_or (analyze_jumpdests code) j false
find_jumpdest-analyze_jumpdests code j v z k =
    let map = analyze_jumpdests-Reaches code j v in
    elim (Bool-cases (get_or (analyze_jumpdests code) j false)) [
      | inl marked ↦
          let (t, e, s) = (find_jumpdest-IsDest code j z k).1 (map.0 marked) in
          rw (e, marked) (ground arith)
      | inr unmarked ↦ rw unmarked (
          is_negative (find_jumpdest (analyze code) j)
            (λ t e. let marked = map.1 (find_jumpdest_sound code j t z e) in absurd cc))
    ]
