-- ===== src/State/Host/Storage.antt =====
-- Host::set_storage of test/state/host.cpp against the table of storage statuses that it follows
-- (EIP-2200, with the original, the current and the new value).
use zvmone.Prelude.{◌≡◌, ◌≢◌, refl, sym, ◌∙◌, inl, inr, true, false, Bool-cases, some}
use zvmone.Zvmc.{
  StorageStatus, assigned, added, deleted, modified, deleted_added, modified_deleted,
  deleted_restored, added_deleted, modified_restored, Address, Bytes32,
}
use zvmone.State.Bytes.{same_bytes, same_bytes_refl, same_bytes-eq}
use zvmone.State.Maps.{lookup, update, lookup-update_same, lookup-update_other}
use zvmone.State.Accounts.{zero_bytes32, Account}
use zvmone.State.Host.{
  HostState, slot, is_zero, storage_status, set_storage, get_storage, with_accounts,
}

same_bytes-ne : (x y : Bytes32) → same_bytes x y ≡ false → x ≢ y
same_bytes-ne x y h e = let t : same_bytes x y ≡ true = rw e (same_bytes_refl y) in cc

-- What the statuses say of the original value `x`, the current value `y` and the new value `z`.
pub data Change (x y z : Bytes32) : StorageStatus → Type 0 where
  change_added : x ≡ zero_bytes32 → y ≡ zero_bytes32 → z ≢ zero_bytes32 → Change x y z added
  change_deleted : x ≡ y → x ≢ zero_bytes32 → z ≡ zero_bytes32 → Change x y z deleted
  change_modified : x ≡ y → x ≢ zero_bytes32 → z ≢ zero_bytes32 → x ≢ z → Change x y z modified
  change_deleted_added :
      x ≢ zero_bytes32 → y ≡ zero_bytes32 → z ≢ zero_bytes32 → x ≢ z → Change x y z deleted_added
  change_modified_deleted :
      x ≢ zero_bytes32 → y ≢ zero_bytes32 → x ≢ y → z ≡ zero_bytes32 → Change x y z modified_deleted
  change_deleted_restored :
      x ≢ zero_bytes32 → y ≡ zero_bytes32 → z ≡ x → Change x y z deleted_restored
  change_added_deleted :
      x ≡ zero_bytes32 → y ≢ zero_bytes32 → z ≡ zero_bytes32 → Change x y z added_deleted
  change_modified_restored :
      x ≢ zero_bytes32 → y ≢ zero_bytes32 → x ≢ y → z ≡ x → Change x y z modified_restored
  -- The value is not changed, or both it and the current value differ from the original one.
  unchanged : y ≡ z → Change x y z assigned
  changed_again : x ≢ y → x ≢ z → y ≢ zero_bytes32 → z ≢ zero_bytes32 → Change x y z assigned

zero_eq : (x : Bytes32) → is_zero x ≡ true → x ≡ zero_bytes32
zero_eq x h = sym (same_bytes-eq zero_bytes32 x h)

zero_ne : (x : Bytes32) → is_zero x ≡ false → x ≢ zero_bytes32
zero_ne x h e = same_bytes-ne zero_bytes32 x h (sym e)

-- The current value is the original one.
clean-Change : (x y z : Bytes32) → same_bytes x y ≡ true → Change x y z (storage_status x y z)
unfolding storage_status
clean-Change x y z xy =
    let e = same_bytes-eq x y xy in
    elim (Bool-cases (same_bytes x z)) [
      | inl xz ↦ rw (xy, xz) (unchanged (sym e ∙ same_bytes-eq x z xz))
      | inr xz ↦ elim (Bool-cases (is_zero y)) [
        | inl y0 ↦
            let x0 : x ≡ zero_bytes32 = e ∙ zero_eq y y0 in
            rw (xy, xz, y0)
              (change_added x0 (zero_eq y y0) (λ z0. same_bytes-ne x z xz (x0 ∙ sym z0)))
        | inr y0 ↦
            let x0 : x ≢ zero_bytes32 = λ x0. zero_ne y y0 (sym e ∙ x0) in
            elim (Bool-cases (is_zero z)) [
              | inl z0 ↦ rw (xy, xz, y0, z0) (change_deleted e x0 (zero_eq z z0))
              | inr z0 ↦
                  rw (xy, xz, y0, z0) (change_modified e x0 (zero_ne z z0) (same_bytes-ne x z xz))
            ]
      ]
    ]

dirty-Change : (x y z : Bytes32) → same_bytes x y ≡ false → Change x y z (storage_status x y z)
unfolding storage_status
dirty-Change x y z xy =
    let n = same_bytes-ne x y xy in
    elim (Bool-cases (same_bytes x z)) [
      | inl xz ↦
          let e = same_bytes-eq x z xz in
          elim (Bool-cases (is_zero y)) [
            | inl y0 ↦
                rw (xy, xz, y0)
                  (change_deleted_restored (λ x0. n (x0 ∙ sym (zero_eq y y0))) (zero_eq y y0)
                    (sym e))
            | inr y0 ↦ elim (Bool-cases (is_zero z)) [
              | inl z0 ↦
                  rw (xy, xz, y0, z0)
                    (change_added_deleted (e ∙ zero_eq z z0) (zero_ne y y0) (zero_eq z z0))
              | inr z0 ↦
                  rw (xy, xz, y0, z0)
                    (change_modified_restored (λ x0. zero_ne z z0 (sym e ∙ x0)) (zero_ne y y0) n
                      (sym e))
            ]
          ]
      | inr xz ↦
          let m = same_bytes-ne x z xz in
          elim (Bool-cases (is_zero y)) [
            | inl y0 ↦ elim (Bool-cases (is_zero z)) [
              | inl z0 ↦ rw (xy, xz, y0, z0) (unchanged (zero_eq y y0 ∙ sym (zero_eq z z0)))
              | inr z0 ↦
                  rw (xy, xz, y0, z0)
                    (change_deleted_added (λ x0. n (x0 ∙ sym (zero_eq y y0))) (zero_eq y y0)
                      (zero_ne z z0) m)
            ]
            | inr y0 ↦ elim (Bool-cases (is_zero z)) [
              | inl z0 ↦
                  rw (xy, xz, y0, z0)
                    (change_modified_deleted (λ x0. m (x0 ∙ sym (zero_eq z z0))) (zero_ne y y0) n
                      (zero_eq z z0))
              | inr z0 ↦ rw (xy, xz, y0, z0) (changed_again n m (zero_ne y y0) (zero_ne z z0))
            ]
          ]
    ]

-- On an account that exists, `set_storage` gives the status that the table has for the slot's
-- original and current value and the new one, and leaves the new value in the slot and every other
-- slot of the account as it was.
pub set_storage-Change :
    (h : HostState) (addr : Address) (key value : Bytes32) (acc : Account)
    → lookup addr h.accounts ≡ some acc
    → (s : StorageStatus) × (h' : HostState) × (set_storage h addr key value ≡ some (s, h'))
      × Change (slot key acc.storage).original (slot key acc.storage).current value s
      × (get_storage h' addr key ≡ some value)
      × ((other : Bytes32)
          → same_bytes key other ≡ false
          → get_storage h' addr other ≡ get_storage h addr other)
unfolding set_storage get_storage
set_storage-Change h addr key value acc e =
    let v = slot key acc.storage in
    let storage = update key (record v { current = value }) acc.storage in
    let acc' = record acc { storage = storage } in
    let h' = with_accounts (update addr acc' h.accounts) h in
    let at = lookup-update_same addr acc' h.accounts in
    (
      storage_status v.original v.current value,
      h',
      rw e refl,
      elim (Bool-cases (same_bytes v.original v.current)) [
        | inl clean ↦ clean-Change v.original v.current value clean
        | inr dirty ↦ dirty-Change v.original v.current value dirty
      ],
      rw (at, lookup-update_same key (record v { current = value }) acc.storage) refl,
      λ other n.
          rw (at, e, lookup-update_other key other (record v { current = value }) acc.storage n)
            refl,
    )
