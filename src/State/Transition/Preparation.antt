-- ===== src/State/Transition/Preparation.antt =====
-- What transition of test/state/state.cpp does to the accounts before the call: the gas is bought, and
-- the accounts and slots of the access list are made warm.
use zvmone.Prelude.{◌≡◌, refl, ◌∙◌, ap, false, Option, none, some, [], ◌∷◌}
use zvmone.Uint256.{Uint256}
use zvmone.Zvmc.{Address, warm}
use zvmone.Platform.{Intx}
use zvmone.State.Maps.{Exists, update, lookup, lookup-update_same}
use zvmone.State.Accounts.{Account}
use zvmone.State.Host.{HostState, HostEnv, with_accounts, change, access_account, ◌>>=◌}
use zvmone.State.Host.Calls.Steps.{
  Returns, Returns-bind, weaken, Grows, Grows-refl, Grows-trans, Grows-update, Pays, Pays-update,
}
use zvmone.State.Host.Calls.Execution.{Grows-access_account, Pays-access_account}
use zvmone.State.Transition.{BlockInfo, Transaction, AccessList}
use zvmone.State.Transition.Apply.{before_call, access_all, access_recipient, warm_storage}

-- No account is removed, and each can still pay what it could.
record Keeps (intx : Intx) (h h' : HostState) : Type 0 where
  grows : Grows h h'
  paying : (v : Uint256) (a : Address) → Pays intx v a h.accounts → Pays intx v a h'.accounts

Keeps-trans :
    {intx : Intx} {h h1 h2 : HostState} → Keeps intx h h1 → Keeps intx h1 h2 → Keeps intx h h2
Keeps-trans p q = record {
  grows = Grows-trans p.grows q.grows;
  paying = λ v a x. q.paying v a (p.paying v a x);
}

change-Keeps :
    (intx : Intx) (addr : Address) (f : Account → Account) (h : HostState)
    → ((acc : Account) → (f acc).balance ≡ acc.balance)
    → Exists addr h.accounts
    → Returns (Keeps intx h) (change addr f h)
unfolding Returns
change-Keeps intx addr f h kept (acc, e) =
    rw (change, e)
      (record {
        grows = Grows-update h addr (f acc);
        paying = λ v a.
            Pays-update intx v a addr (f acc) h.accounts
              (λ old e2. let same : acc ≡ old = cc in kept acc ∙ ap (λ x. x.balance) same);
      })

access_account-Keeps :
    (intx : Intx) (h : HostState) (addr : Address) → Keeps intx h (access_account h addr).1
access_account-Keeps intx h addr = record {
  grows = Grows-access_account h addr;
  paying = λ v a. Pays-access_account intx v a h addr;
}

access_all-Keeps :
    (intx : Intx) (access_list : AccessList) (h : HostState)
    → Returns (Keeps intx h) (access_all access_list h)
unfolding access_all access_account Returns
access_all-Keeps intx [] h = record { grows = Grows-refl h; paying = λ v a x. x }
access_all-Keeps intx ((a, keys) ∷ access_list) h =
    let h1 = (access_account h a).1 in
    Returns-bind (Keeps intx h1) (Keeps intx h) (change a (warm_storage keys) h1) _
      (change-Keeps intx a (warm_storage keys) h1 (λ acc. refl) (_, lookup-update_same a _ _))
      (λ h2 g2.
        weaken (access_all access_list h2)
          (λ h3 g3. Keeps-trans (access_account-Keeps intx h a) (Keeps-trans g2 g3))
          (access_all-Keeps intx access_list h2))

access_recipient-Keeps :
    (intx : Intx) (to : Option Address) (h : HostState) → Keeps intx h (access_recipient to h)
access_recipient-Keeps intx none h = record { grows = Grows-refl h; paying = λ v a x. x }
access_recipient-Keeps intx (some a) h = access_account-Keeps intx h a

-- The sender can pay what the price of the gas leaves.
pub before_call-Returns :
    (env : HostEnv) (block : BlockInfo) (tx : Transaction) (cost v : Uint256) (h : HostState)
    (acc : Account)
    → lookup tx.tx_sender h.accounts ≡ some acc
    → env.intx.ult (env.intx.sub acc.balance cost) v ≡ false
    → Returns
        (λ h'. Grows h h' × Pays env.intx v tx.tx_sender h'.accounts)
        (before_call env block tx cost h)
unfolding before_call Returns
before_call-Returns env block tx cost v h acc e left =
    let bought : Account = record acc {
      balance = env.intx.sub acc.balance cost;
      account_access = warm;
    } in
    let able : Pays env.intx v tx.tx_sender (update tx.tx_sender bought h.accounts) =
      (bought, lookup-update_same tx.tx_sender bought h.accounts, left) in
    let h1 = with_accounts (update tx.tx_sender bought h.accounts) h in
    let h2 = access_recipient tx.to h1 in
    rw (change, e, ◌>>=◌)
      (Returns-bind (Keeps env.intx h2) _ (access_all tx.access_list h2) _
        (access_all-Keeps env.intx tx.access_list h2)
        (λ h3 g3.
          let k =
            Keeps-trans (access_recipient-Keeps env.intx tx.to h1)
              (Keeps-trans g3 (access_account-Keeps env.intx h3 block.coinbase)) in
          (Grows-trans (Grows-update h tx.tx_sender bought) k.grows, k.paying v tx.tx_sender able)))
