-- ===== src/Instructions/Safety/Storage.antt =====
-- SLOAD and SSTORE.
use zvmone.Prelude.{
  ℕ, ◌+◌, ◌≤◌, ◌≡◌, List, [], ◌∷◌, inl, inr, Bool-cases, arith, length, drop, refl,
}
use zvmone.Prelude.Int.{ℤ, pos, ◌-ℤ◌, ◌≤ℤ◌, leb_ℤ, int_laws}
use zvmone.Uint256.{Uint256}
use zvmone.Zvmc.{AccessStatus, cold, warm, StorageStatus, assigned}
use zvmone.Platform.{Platform}
use zvmone.Exec.{Frame, Context, with_stack}
use zvmone.Exec.Rules.{IsFrame, Safe, goes, exits, bind-Safe, spend-Safe}
use zvmone.Exec.HostRules.{access_storage-Safe}
use zvmone.Instructions.Storage.{sload, sstore, spend_if_cold, sstore_costs}
use zvmone.Instructions.Safety.Done.{IsDone, Meets, items1}

-- Every SSTORE that is not refused costs at least the warm access.
pub sstore_costs-le : (status : StorageStatus) → 100 ≤ (sstore_costs status).gas_cost
unfolding sstore_costs
sstore_costs-le assigned = omega arith
sstore_costs-le _ = omega arith

spent_above : (l g : ℤ) (c d : ℕ) → g ≡ l -ℤ pos (c + d) → 100 ≤ c → g ≤ℤ l -ℤ pos 100
spent_above l g c d e h = rw e (omega int_laws)

module _ {H : Type 0} (p : Platform H) (ctx : Context) where
  spend_if_cold-Safe :
      (status : AccessStatus) {Q : Unit {0} → Frame H → Type 0} (f : Frame H)
      → IsFrame f
      → ((g : ℤ) → pos 0 ≤ℤ g → g ≤ℤ f.gas_left → Q tt (record f { gas_left = g }))
      → Safe Q (spend_if_cold p ctx status f)
  unfolding spend_if_cold
  spend_if_cold-Safe cold f v q = spend-Safe _ f v (λ g e l m. q g l m)
  spend_if_cold-Safe warm f v q = goes (q f.gas_left v.gas_ok (omega arith))

  pub sload-Meets : Meets 1 1 (sload p ctx)
  unfolding sload
  sload-Meets = items1 1 (sload p ctx) (λ a s n f v h. bind-Safe (
      access_storage-Safe p _ _ _ (λ status k.
        bind-Safe (spend_if_cold-Safe status _ (ground arith) (λ g l m. goes (ground arith))))))

  sstore_on :
      (n : ℕ) (s : List Uint256) (f : Frame H)
      → IsFrame f
      → n + 2 ≤ length s
      → Safe
          (λ u f'. IsDone n (f.gas_left -ℤ pos 100) f' × (f'.stack ≡ drop 2 s))
          (sstore p ctx (with_stack s f))
  unfolding sstore
  sstore_on n [] f v h = absurd (omega arith)
  sstore_on n (a ∷ []) f v h = absurd (omega arith)
  sstore_on n (a ∷ b ∷ s) f v h = elim (Bool-cases ctx.msg.is_static) [
    | inl static ↦ rw static (exits (ground arith))
    | inr dynamic ↦ rw dynamic (elim (Bool-cases (leb_ℤ f.gas_left (pos 2300))) [
      | inl low ↦ rw low (exits (ground arith))
      | inr high ↦ rw high (
          bind-Safe (
            access_storage-Safe p _ _ _ (λ access k. bind-Safe (
              spend-Safe _ _ (ground arith) (λ g e l m.
                let status =
                  (p.host.set_storage k ctx.msg.recipient (p.intx.be_store a)
                    (p.intx.be_store b)).0 in
                goes (
                  record {
                    frame = ground arith;
                    height = ground arith;
                    paid = spent_above f.gas_left g _ _ e (sstore_costs-le status);
                  },
                  refl,
                ))))))
    ])
  ]

  -- With two or more items on the stack, SSTORE on a valid frame never faults. It fails, or leaves
  -- a valid frame whose stack is the old one without the first two items, and at least 100 less
  -- gas, whatever status the host gives.
  pub sstore-Safe :
      (n : ℕ) (f : Frame H)
      → IsFrame f
      → n + 2 ≤ length f.stack
      → Safe
          (λ u f'. IsDone n (f.gas_left -ℤ pos 100) f' × (f'.stack ≡ drop 2 f.stack))
          (sstore p ctx f)
  sstore-Safe n f v h = sstore_on n f.stack f v h
