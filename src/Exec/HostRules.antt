-- ===== src/Exec/HostRules.antt =====
-- Rules for proofs about instructions that ask the host or read a buffer.
use zvmone.Prelude.{
  ℕ, ◌+◌, ◌≤◌, ◌≡◌, true, arith, length, Bool-cases, leb, ◌==◌, inl, inr, ◌⊎◌, List, [], take, drop,
  length-take, length-drop,
}
use zvmone.Prelude.Int.{ℤ, pos, ◌≤ℤ◌, ℤ_eq}
use zvmone.Platform.{Platform}
use zvmone.Zvmc.{TxContext, Address, Bytes32, AccessStatus, cold, warm}
use zvmone.Exec.{
  Frame, tx_context, read_buffer, access_account, access_storage, after_access,
  additional_cold_account_access_cost,
}
use zvmone.Exec.Rules.{IsFrame, Safe, goes, spend-Safe}

module _ {H : Type 0} (p : Platform H) where
  pub tx_context-Safe :
      {Q : TxContext → Frame H → Type 0} (f : Frame H)
      → ((tx t : TxContext) → Q tx (record f { state = record (f.state) { tx = t } }))
      → Safe Q (tx_context p f)
  unfolding tx_context
  tx_context-Safe f q = elim (Bool-cases (ℤ_eq f.state.tx.block_timestamp (pos 0))) [
    | inl e ↦ rw e (goes (q _ _))
    | inr e ↦ rw e (goes (q f.state.tx f.state.tx))
  ]

  pub read_buffer-Safe :
      {Q : List ℕ → Frame H → Type 0} (buffer : List ℕ) (i n : ℕ) (f : Frame H)
      → (n ≡ 0) ⊎ (i + n ≤ length buffer)
      → ((bytes : List ℕ) → length bytes ≡ n → Q bytes f)
      → Safe Q (read_buffer buffer i n f)
  unfolding read_buffer
  read_buffer-Safe buffer i n f inside q = elim (Bool-cases (n == 0)) [
    | inl nothing ↦ rw nothing (goes (q [] (ground arith)))
    | inr bytes ↦
        let fits : leb (i + n) (length buffer) ≡ true = ground arith in
        rw (bytes, fits)
          (goes (
            q (take n (drop i buffer))
              (ground (arith, length-take n (drop i buffer), length-drop i buffer))))
  ]

  access_cases :
      {Q : Unit {0} → Frame H → Type 0} (status : AccessStatus) (f : Frame H)
      → IsFrame f
      → ((g : ℤ) → pos 0 ≤ℤ g → g ≤ℤ f.gas_left → Q tt (record f { gas_left = g }))
      → Safe Q (after_access additional_cold_account_access_cost status f)
  unfolding after_access
  access_cases cold f v q = spend-Safe additional_cold_account_access_cost f v (λ g e l m. q g l m)
  access_cases warm f v q = goes (q f.gas_left v.gas_ok (omega arith))

  pub access_account-Safe :
      {Q : Unit {0} → Frame H → Type 0} (addr : Address) (f : Frame H)
      → IsFrame f
      → ((g : ℤ) (h : H)
          → pos 0 ≤ℤ g
          → g ≤ℤ f.gas_left
          → Q tt (record f { gas_left = g; state = record (f.state) { host = h } }))
      → Safe Q (access_account p addr f)
  unfolding access_account
  access_account-Safe addr f v q =
      let (status, h) = p.host.access_account f.state.host addr in
      access_cases status (record f { state = record (f.state) { host = h } }) (ground arith)
        (λ g l m. q g h l m)

  pub access_storage-Safe :
      {Q : AccessStatus → Frame H → Type 0} (addr : Address) (key : Bytes32) (f : Frame H)
      → ((status : AccessStatus) (h : H)
          → Q status (record f { state = record (f.state) { host = h } }))
      → Safe Q (access_storage p addr key f)
  unfolding access_storage
  access_storage-Safe addr key f q = goes (q _ _)
