-- ===== src/Advanced/Blocks/Checks.antt =====
-- The check of a block in lib/zvmone/advanced_instructions.cpp against the checks of the block's
-- instructions in lib/zvmone/baseline.cpp.
use zvmone.Prelude.{
  ℕ, ◌≤◌, ◌<◌, ◌^◌, ◌≡◌, ◌↔◌, refl, ap, ◌∙◌, Bool, true, false, not, ◌&&◌, inl, inr, Bool-cases,
  some, List, [], ◌∷◌, arith, length,
}
use zvmone.Prelude.Int.{ℤ, pos, ◌+ℤ◌, ◌-ℤ◌, ◌≤ℤ◌, ltb_ℤ, pos_part, neg_part, int_laws}
use zvmone.Zvmc.{success, is_success}
use zvmone.Opcodes.{Opcode}
use zvmone.Traits.{gas_costs, traits}
use zvmone.Traits.Bounds.{removed-le}
use zvmone.Baseline.{stack_limit, check_requirements}
use zvmone.Baseline.Requirements.{check_requirements-success, check_requirements_cases}
use zvmone.Advanced.Table.{table_entry}
use zvmone.Advanced.Analysis.{
  BlockInfo, block, Instruction, BlockAnalysis, new_block, close, count, max_ℤ, clamp_int16,
  clamp_uint32,
}
use zvmone.Advanced.Execution.{AdvancedState, Pointer, at, null, undefined, opx_beginblock}

-- The counts of a block with these instructions.
abbrev pub count_all : List Opcode → BlockAnalysis → BlockAnalysis
count_all [] b = b
count_all (op ∷ ops) b = count_all ops (count (table_entry (some op)) b)

-- The checks of the Baseline interpreter for the instructions in turn, when none of them charges
-- for more than its base cost.
abbrev pub check_all : List Opcode → ℤ → ℕ → Bool
check_all [] gas_left height = true
check_all (op ∷ ops) gas_left height =
    let (status, left) = check_requirements op gas_left height in
    is_success status
    && check_all ops left (pos_part (pos height +ℤ (traits op).stack_height_change))

-- The block's requirements, without clamping.
record Fits (b : BlockAnalysis) (g : ℤ) (h : ℕ) : Type 0 where
  paid : pos b.total_cost ≤ℤ g
  deep : b.required ≤ℤ pos h
  roomy : pos h +ℤ b.max_growth ≤ℤ pos stack_limit

max-le : (a b c : ℤ) → (max_ℤ a b ≤ℤ c) ↔ ((a ≤ℤ c) × (b ≤ℤ c))
max-le a b c = ((λ h. ground arith), (λ h. ground arith))

-- The requirements with one more instruction.
count-Fits :
    (op : Opcode) (b : BlockAnalysis) (g : ℤ) (h : ℕ)
    → Fits (count (table_entry (some op)) b) g h ↔ (
        Fits b g h
        × (pos (traits op).stack_height_required ≤ℤ pos h +ℤ b.stack_change)
        × (pos h +ℤ b.stack_change +ℤ (traits op).stack_height_change ≤ℤ pos stack_limit)
        × (pos (gas_costs op) ≤ℤ g -ℤ pos b.total_cost))
count-Fits op b g h =
    let t = traits op in
    let r = max-le b.required (pos t.stack_height_required -ℤ b.stack_change) (pos h) in
    let m =
      max-le b.max_growth (b.stack_change +ℤ t.stack_height_change) (pos stack_limit -ℤ pos h) in
    (
      (λ v.
          let r1 = r.0 v.deep in
          let m1 = m.0 (let z = v.roomy in omega int_laws) in
          let c = v.paid in
          (
            record { paid = omega int_laws; deep = r1.0; roomy = omega int_laws },
            omega int_laws,
            omega int_laws,
            omega int_laws,
          )),
      (λ v.
          let c = v.0.paid in
          let k = v.0.roomy in
          let m1 = m.1 (omega int_laws, omega int_laws) in
          record {
            paid = omega int_laws;
            deep = r.1 (v.0.deep, omega int_laws);
            roomy = omega int_laws;
          }),
    )

-- The requirements only grow.
count_all-Fits :
    (ops : List Opcode) (b : BlockAnalysis) (g : ℤ) (h : ℕ)
    → Fits (count_all ops b) g h
    → Fits b g h
count_all-Fits [] b g h v = v
count_all-Fits (op ∷ ops) b g h v =
    ((count-Fits op b g h).0 (count_all-Fits ops (count (table_entry (some op)) b) g h v)).0

true-and : (a b : Bool) → (a && b) ≡ true → (a ≡ true) × (b ≡ true)
true-and true b h = (refl, h)
true-and false b h = absurd cc

is_success-true :
    (op : Opcode) (g : ℤ) (h : ℕ)
    → (check_requirements op g h).0 ≡ success
    → is_success (check_requirements op g h).0 ≡ true
is_success-true op g h e = rw e refl

no_neg_part : (height r : ℕ) (c : ℤ) → r ≤ height → neg_part c ≤ r → 0 ≡ neg_part (pos height +ℤ c)
unfolding ◌+ℤ◌
no_neg_part height r c h k = ground arith

check_all-Fits :
    (ops : List Opcode) (b : BlockAnalysis) (g gas : ℤ) (h height : ℕ)
    → Fits b g h
    → height ≡ pos_part (pos h +ℤ b.stack_change)
    → 0 ≡ neg_part (pos h +ℤ b.stack_change)
    → gas ≡ g -ℤ pos b.total_cost
    → height ≤ stack_limit
    → (check_all ops gas height ≡ true) ↔ Fits (count_all ops b) g h
check_all-Fits [] b g gas h height v e e0 k l = ((λ t. v), (λ t. refl))
check_all-Fits (op ∷ ops) b g gas h height v e e0 k l =
    let t = traits op in
    let ready = check_requirements-success op gas height l in
    let counted = count-Fits op b g h in
    let b1 = count (table_entry (some op)) b in
    elim (check_requirements_cases op gas height) [
      | inl (ok, left) ↦
          let conditions = ready.0 ok in
          let z = pos height +ℤ t.stack_height_change in
          let same : z ≡ pos h +ℤ (b.stack_change +ℤ t.stack_height_change) = omega int_laws in
          let none_below =
            no_neg_part height t.stack_height_required t.stack_height_change conditions.0
              (removed-le op) in
          let cost : pos (gas_costs op) ≤ℤ g -ℤ pos b.total_cost = (rw k at conditions.2) in
          let more : Fits b1 g h = counted.1 (v, omega int_laws, omega int_laws, cost) in
          rw (ok, left)
            (check_all-Fits ops b1 g (gas -ℤ pos (gas_costs op)) h (pos_part z) more
              (ap pos_part same) (none_below ∙ ap neg_part same) (rw k (omega int_laws))
              (let u = conditions.1 in omega arith))
      | inr refused ↦ (
        (λ c.
            let s = (true-and (is_success (check_requirements op gas height).0) _ c).0 in
            absurd (ground arith)),
        (λ f.
            let conditions = counted.0 (count_all-Fits ops b1 g h f) in
            let s = ready.1 (omega int_laws, omega int_laws, (rw k (omega int_laws))) in
            let z = is_success-true op gas height s in absurd (ground arith)),
      )
    ]

-- Whether the block is entered.
abbrev pub is_entered : {H : Type 0} → Pointer H → Bool
is_entered (at i st) = true
is_entered (null st) = false
is_entered undefined = false

-- The three tests of BEGINBLOCK, on the information that clamps the requirements.
pub block_tests : BlockInfo → ℤ → ℕ → Bool
block_tests b g h =
    not (ltb_ℤ (g -ℤ pos b.gas_cost) (pos 0))
    && (not (ltb_ℤ (pos h) b.stack_req)
        && not (ltb_ℤ (pos stack_limit) (pos h +ℤ b.stack_max_growth)))

paid_iff : (g : ℤ) (c : ℕ) → (not (ltb_ℤ (g -ℤ pos c) (pos 0)) ≡ true) ↔ (pos c ≤ℤ g)
unfolding ◌-ℤ◌
paid_iff g c = ground arith

deep_iff :
    (x : ℤ) (h : ℕ) → h ≤ stack_limit → (not (ltb_ℤ (pos h) (clamp_int16 x)) ≡ true) ↔ (x ≤ℤ pos h)
deep_iff x h l = ground arith

roomy_iff :
    (x : ℤ) (h : ℕ)
    → (not (ltb_ℤ (pos stack_limit) (pos h +ℤ clamp_int16 x)) ≡ true)
      ↔ (pos h +ℤ x ≤ℤ pos stack_limit)
unfolding ◌+ℤ◌
roomy_iff x h = ground arith

and-true : (a b : Bool) → a ≡ true → b ≡ true → (a && b) ≡ true
and-true a b e f = rw (e, f) refl

block_tests-Fits :
    (b : BlockAnalysis) (g : ℤ) (h : ℕ)
    → b.total_cost < 2 ^ 32
    → h ≤ stack_limit
    → (block_tests (close b) g h ≡ true) ↔ Fits b g h
unfolding block_tests
block_tests-Fits b g h c l =
    let exact : clamp_uint32 b.total_cost ≡ b.total_cost = ground arith in
    let p = paid_iff g b.total_cost in
    let d = deep_iff b.required h l in
    let r = roomy_iff b.max_growth h in
    rw exact (
      (λ t.
          let both = true-and (not (ltb_ℤ (g -ℤ pos b.total_cost) (pos 0))) _ t in
          let rest = true-and (not (ltb_ℤ (pos h) (clamp_int16 b.required))) _ both.1 in
          record { paid = p.0 both.0; deep = d.0 rest.0; roomy = r.0 rest.1 }),
      (λ v. and-true _ _ (p.1 v.paid) (and-true _ _ (d.1 v.deep) (r.1 v.roomy))),
    )

entered-block_tests :
    {H : Type 0} (x : Instruction) (b : BlockInfo) (i : ℕ) (st : AdvancedState H)
    → x.arg ≡ block b
    → is_entered (opx_beginblock x i st) ≡ block_tests b st.frame.gas_left (length st.frame.stack)
unfolding opx_beginblock block_tests
entered-block_tests x b i st e =
    let g = st.frame.gas_left in
    let size = pos (length st.frame.stack) in
    rw e (elim (Bool-cases (ltb_ℤ (g -ℤ pos b.gas_cost) (pos 0))) [
      | inl poor ↦ rw poor refl
      | inr paid ↦ rw paid (elim (Bool-cases (ltb_ℤ size b.stack_req)) [
        | inl short ↦ rw short refl
        | inr deep ↦
            rw deep (elim (Bool-cases (ltb_ℤ (pos stack_limit) (size +ℤ b.stack_max_growth))) [
              | inl full ↦ rw full refl
              | inr room ↦ rw room refl
            ])
      ])
    ])

same_truth : (a b : Bool) → (a ≡ true) ↔ (b ≡ true) → a ≡ b
same_truth true b h = let e : b ≡ true = h.0 refl in rw e refl
same_truth false true h = h.1 refl
same_truth false false h = refl

-- From gas that is not negative and a stack within the limit, and for instructions whose base
-- costs are less than 2^32 together, the Advanced interpreter enters their block exactly if the
-- Baseline interpreter's check accepts each of them in turn, with the gas and the stack height
-- that the ones before leave when they charge for no more than their base cost.
pub opx_beginblock-check_all :
    {H : Type 0} (ops : List Opcode) (x : Instruction) (n i : ℕ) (st : AdvancedState H)
    → x.arg ≡ block (close (count_all ops (new_block n)))
    → (count_all ops (new_block n)).total_cost < 2 ^ 32
    → pos 0 ≤ℤ st.frame.gas_left
    → length st.frame.stack ≤ stack_limit
    → is_entered (opx_beginblock x i st) ≡ check_all ops st.frame.gas_left (length st.frame.stack)
opx_beginblock-check_all ops x n i st e c g l =
    let b = count_all ops (new_block n) in
    let gas = st.frame.gas_left in
    let h = length st.frame.stack in
    let start : Fits (new_block n) gas h = record {
      paid = omega arith;
      deep = omega arith;
      roomy = omega int_laws;
    } in
    let none_changed : pos h ≡ pos h +ℤ pos 0 = omega int_laws in
    let checks =
      check_all-Fits ops (new_block n) gas gas h h start (ap pos_part none_changed)
        (ap neg_part none_changed) (omega int_laws) l in
    let fits = block_tests-Fits b gas h c l in
    entered-block_tests x (close b) i st e
    ∙ same_truth _ _ ((λ t. checks.1 (fits.0 t)), (λ t. fits.1 (checks.0 t)))
