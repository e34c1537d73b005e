-- ===== src/Instructions/Storage.antt =====
-- SLOAD and SSTORE (lib/zvmone/instructions_storage.cpp).
use zvmone.Prelude.{ℕ, ◌+◌, ◌-◌, if◌then◌else◌}
use zvmone.Prelude.Int.{ℤ, pos, ◌+ℤ◌, ◌-ℤ◌, leb_ℤ}
use zvmone.Zvmc.{
  out_of_gas, static_mode_violation, AccessStatus, cold, warm, StorageStatus, assigned, added,
  deleted, modified, deleted_added, modified_deleted, deleted_restored, added_deleted,
  modified_restored,
}
use zvmone.Platform.{Platform}
use zvmone.Exec.{
  Exec, Context, ◌>>=◌, ◌>>◌, pure, return_with, pop_item, item, set_item, get_state, set_state,
  get_gas, get_host, set_host, spend, access_storage, cold_sload_cost, warm_storage_read_cost,
}

-- A revision's costs: `StorageCostSpec`.
pub record StorageCostSpec : Type 0 where
  pub warm_access : ℕ
  pub set : ℕ
  pub reset : ℕ
  pub clear : ℕ

abbrev pub storage_cost_spec : StorageCostSpec
storage_cost_spec = record {
  warm_access = warm_storage_read_cost;
  set = 20000;
  reset = 5000 - cold_sload_cost;
  clear = 4800;
}

pub record StorageStoreCost : Type 0 where
  pub gas_cost : ℕ
  pub gas_refund : ℤ

-- The row of `sstore_costs` for the one revision.
unfoldable pub sstore_costs : StorageStatus → StorageStoreCost
sstore_costs status =
    let c = storage_cost_spec in
    let cost : ℕ → ℤ → StorageStoreCost = λ g r. record { gas_cost = g; gas_refund = r } in
    elim status [
      | assigned ↦ cost c.warm_access (pos 0)
      | added ↦ cost c.set (pos 0)
      | deleted ↦ cost c.reset (pos c.clear)
      | modified ↦ cost c.reset (pos 0)
      | deleted_added ↦ cost c.warm_access (pos 0 -ℤ pos c.clear)
      | modified_deleted ↦ cost c.warm_access (pos c.clear)
      | deleted_restored ↦ cost c.warm_access (pos c.reset -ℤ pos c.warm_access -ℤ pos c.clear)
      | added_deleted ↦ cost c.warm_access (pos c.set -ℤ pos c.warm_access)
      | modified_restored ↦ cost c.warm_access (pos c.reset -ℤ pos c.warm_access)
    ]

-- What a cold slot adds to the cost of an access.
abbrev pub if_cold : AccessStatus → ℕ → ℕ
if_cold cold cost = cost
if_cold warm cost = 0

module _ {H : Type 0} (p : Platform H) (ctx : Context) where
  open p use {intx, host}
  open ctx use {msg}

  unfoldable pub spend_if_cold : AccessStatus → Exec H (Unit {0})
  spend_if_cold cold = spend (pos (cold_sload_cost - warm_storage_read_cost))
  spend_if_cold warm = pure tt

  unfoldable pub sload : Exec H (Unit {0})
  unfolding spend_if_cold
  sload = do
    x ← item 0
    let key = intx.be_store x
    status ← access_storage p msg.recipient key
    spend_if_cold status
    h ← get_host
    set_item 0 (intx.be_load (host.get_storage h msg.recipient key))

  unfoldable pub sstore : Exec H (Unit {0})
  sstore = if msg.is_static then return_with static_mode_violation else do
    gas_left ← get_gas
    if leb_ℤ gas_left (pos 2300) then return_with out_of_gas else do
      k ← pop_item
      v ← pop_item
      let key = intx.be_store k
      let value = intx.be_store v
      access ← access_storage p msg.recipient key
      h ← get_host
      let (status, h') = host.set_storage h msg.recipient key value
      set_host h'
      let cost = sstore_costs status
      spend (pos (cost.gas_cost + if_cold access cold_sload_cost))
      state ← get_state
      set_state (record state { gas_refund = state.gas_refund +ℤ cost.gas_refund })
