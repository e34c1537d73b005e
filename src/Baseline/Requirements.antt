-- ===== src/Baseline/Requirements.antt =====
-- The stack and gas requirements that are checked before an instruction (lib/zvmone/baseline.cpp).
use zvmone.Prelude.{
  ℕ, ◌↔◌, ◌-◌, ◌≤◌, ◌≡◌, ◌⊎◌, refl, false, ◌&&◌, ◌||◌, inl, inr, Bool-cases, arith, ltb, leb, ◌==◌,
}
use zvmone.Prelude.Int.{ℤ, pos, ◌+ℤ◌, ◌-ℤ◌, ◌≤ℤ◌, ltb_ℤ, +ℤ_parts, -ℤ_parts}
use zvmone.Zvmc.{success, is_success, is_revert}
use zvmone.Opcodes.{Opcode, op_stop}
use zvmone.Traits.{gas_costs, traits}
use zvmone.Baseline.{check_requirements, stack_limit}

-- No instruction adds more than one item.
change-le_one : (op : Opcode) → (traits op).stack_height_change ≤ℤ pos 1
unfolding traits
change-le_one op_stop = omega arith
change-le_one _ = omega arith

-- From a stack within the limit the check succeeds exactly if the stack holds the required items,
-- the instruction's change of the height stays within the limit, and the gas covers the base cost.
pub check_requirements-success :
    (op : Opcode) (g : ℤ) (height : ℕ)
    → height ≤ stack_limit
    → ((check_requirements op g height).0 ≡ success) ↔ (
        ((traits op).stack_height_required ≤ height)
        × (pos height +ℤ (traits op).stack_height_change ≤ℤ pos stack_limit)
        × (pos (gas_costs op) ≤ℤ g))
unfolding check_requirements
check_requirements-success op g height b =
    let t = traits op in
    let sum = +ℤ_parts (pos height) t.stack_height_change in
    let diff = -ℤ_parts g (pos (gas_costs op)) in
    let change = change-le_one op in
    elim (Bool-cases (ltb_ℤ (pos 0) t.stack_height_change && (height == stack_limit))) [
      | inl full ↦ rw full ((λ e. absurd cc), (λ ok. absurd (ground (arith, sum))))
      | inr room ↦
          rw room
            (elim (Bool-cases
              (ltb 0 t.stack_height_required && leb height (t.stack_height_required - 1))) [
                | inl short ↦ rw short ((λ e. absurd cc), (λ ok. absurd (ground arith)))
                | inr enough ↦
                    rw enough (elim (Bool-cases (ltb_ℤ (g -ℤ pos (gas_costs op)) (pos 0))) [
                      | inl poor ↦ rw poor ((λ e. absurd cc), (λ ok. absurd (ground (arith, diff))))
                      | inr paid ↦ rw paid ((λ e. ground (arith, sum, diff)), (λ ok. refl))
                    ])
              ])
    ]

-- Either the check succeeds and charges the base cost, or its status is neither success nor revert.
pub check_requirements_cases :
    (op : Opcode) (g : ℤ) (height : ℕ)
    → (((check_requirements op g height).0 ≡ success)
        × ((check_requirements op g height).1 ≡ g -ℤ pos (gas_costs op)))
      ⊎ ((is_success (check_requirements op g height).0
            || is_revert (check_requirements op g height).0)
          ≡ false)
unfolding check_requirements
check_requirements_cases op g height =
    let t = traits op in
    elim (Bool-cases (ltb_ℤ (pos 0) t.stack_height_change && (height == stack_limit))) [
      | inl full ↦ rw full (inr refl)
      | inr room ↦
          rw room
            (elim (Bool-cases
              (ltb 0 t.stack_height_required && leb height (t.stack_height_required - 1))) [
                | inl short ↦ rw short (inr refl)
                | inr enough ↦
                    rw enough (elim (Bool-cases (ltb_ℤ (g -ℤ pos (gas_costs op)) (pos 0))) [
                      | inl poor ↦ rw poor (inr refl)
                      | inr paid ↦ rw paid (inl (refl, refl))
                    ])
              ])
    ]
