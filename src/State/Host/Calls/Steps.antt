-- ===== src/State/Host/Calls/Steps.antt =====
-- The steps of a call in test/state/host.cpp that change the accounts: that they succeed, and what they
-- keep.
use zvmone.Prelude.{
  ◌∙◌, ap, false, true, ℕ, ◌≡◌, refl, sym, inl, inr, Bool-cases, Option, none, some, List, [], ◌++◌,
}
use zvmone.Prelude.Int.{pos, ◌≤ℤ◌}
use zvmone.Zvmc.{Address, Message}
use mathlib.Core.List.{append-nil, append_assoc}
use zvmone.Uint256.{Uint256}
use zvmone.Platform.{Intx}
use zvmone.State.Bytes.{same_bytes, same_bytes-eq}
use zvmone.State.Maps.{
  lookup-update_other, Exists, Exists-update, lookup, lookup-update_same, update,
}
use zvmone.State.Accounts.{Accounts, Account, or_insert}
use zvmone.State.Host.{HostState, HostEnv, with_accounts, change, ◌>>=◌, Log}
use zvmone.State.Host.Calls.{can_pay, pay, transfer, sub_balance, add_balance}

-- There is a result, and it is right.
unfoldable pub Returns : {A : Type 0} → (A → Type 0) → Option A → Type 0
Returns P none = ⊥
Returns P (some a) = P a

pub Returns-bind :
    {A B : Type 0} (P : A → Type 0) (Q : B → Type 0) (o : Option A) (f : A → Option B)
    → Returns P o
    → ((a : A) → P a → Returns Q (f a))
    → Returns Q (o >>= f)
unfolding Returns
Returns-bind P Q none f h k = h
Returns-bind P Q (some a) f h k = k a h

pub weaken :
    {A : Type 0} {P Q : A → Type 0} (o : Option A)
    → ((a : A) → P a → Q a)
    → Returns P o
    → Returns Q o
unfolding Returns
weaken none k h = h
weaken (some a) k h = k a h

-- The accounts stay, and logs are only added.
pub record Grows (h h' : HostState) : Type 0 where
  pub accounts_kept : (a : Address) → Exists a h.accounts → Exists a h'.accounts
  pub logs_added : (more : List Log) × (h'.logs ≡ h.logs ++ more)

-- What the host relies on: the VM gives back at most the gas that it was given, removes no account
-- and no log.
pub record IsHostEnv (env : HostEnv) : Type 0 where
  pub vm_gas :
      (h : HostState) (m : Message) (code : List ℕ)
      → pos 0 ≤ℤ m.gas
      → (pos 0 ≤ℤ (env.vm_execute h m code).0.gas_left)
        × ((env.vm_execute h m code).0.gas_left ≤ℤ m.gas)
  pub vm_grows : (h : HostState) (m : Message) (code : List ℕ) → Grows h (env.vm_execute h m code).1

pub Grows-refl : (h : HostState) → Grows h h
Grows-refl h = record { accounts_kept = λ a e. e; logs_added = ([], sym (append-nil h.logs)) }

pub Grows-trans : {h h1 h2 : HostState} → Grows h h1 → Grows h1 h2 → Grows h h2
Grows-trans {h} p q =
    let (xs, e) = p.logs_added in
    let (ys, e2) = q.logs_added in
    record {
      accounts_kept = λ a x. q.accounts_kept a (p.accounts_kept a x);
      logs_added = (xs ++ ys, rw (e2, e) (append_assoc h.logs xs ys));
    }

-- An account is written.
pub Grows-update :
    (h : HostState) (addr : Address) (acc : Account)
    → Grows h (with_accounts (update addr acc h.accounts) h)
Grows-update h addr acc = record {
  accounts_kept = λ a e. Exists-update addr a acc h.accounts e;
  logs_added = ([], sym (append-nil h.logs));
}

pub change-Returns :
    (addr : Address) (f : Account → Account) (h : HostState)
    → Exists addr h.accounts
    → Returns (Grows h) (change addr f h)
unfolding Returns
change-Returns addr f h (acc, e) = rw (change, e) (Grows-update h addr (f acc))

pub Grows-insert :
    (h : HostState) (addr : Address) (o : Option Account) (acc : Account)
    → Grows h (with_accounts (or_insert o addr acc h.accounts).1 h)
Grows-insert h addr none acc = Grows-update h addr acc
Grows-insert h addr (some a) acc = Grows-refl h

transfer-Returns :
    (env : HostEnv) (msg : Message) (h : HostState)
    → Exists msg.sender h.accounts
    → Exists msg.recipient h.accounts
    → Returns (Grows h) (transfer env msg h)
unfolding transfer Returns
transfer-Returns env msg h s r =
    let value = env.intx.be_load msg.value in
    Returns-bind (Grows h) (Grows h) (change msg.sender (sub_balance env value) h)
      (change msg.recipient (add_balance env value))
      (change-Returns msg.sender (sub_balance env value) h s)
      (λ h1 g1.
        weaken (change msg.recipient (add_balance env value) h1) (λ h2 g2. Grows-trans g1 g2)
          (change-Returns msg.recipient (add_balance env value) h1
            (g1.accounts_kept msg.recipient r)))

-- The account under the address can pay the value.
abbrev pub Pays : Intx → Uint256 → Address → Accounts → Type 0
Pays intx v addr accounts =
    (acc : Account) × (lookup addr accounts ≡ some acc) × (intx.ult acc.balance v ≡ false)

pub Pays-update :
    (intx : Intx) (v : Uint256) (addr key : Address) (new : Account) (accounts : Accounts)
    → ((old : Account) → lookup key accounts ≡ some old → new.balance ≡ old.balance)
    → Pays intx v addr accounts
    → Pays intx v addr (update key new accounts)
Pays-update intx v addr key new accounts kept (acc, e, u) =
    elim (Bool-cases (same_bytes key addr)) [
      | inl same ↦
          let at = same_bytes-eq key addr same in
          let b : new.balance ≡ acc.balance = kept acc (rw at e) in
          (new, rw (sym at) (lookup-update_same key new accounts), rw b u)
      | inr other ↦ (acc, rw (lookup-update_other key addr new accounts other) e, u)
    ]

-- An account is inserted, if it is missing, and changed without its balance.
pub Pays-insert :
    (intx : Intx) (v : Uint256) (addr key : Address) (fresh : Account) (f : Account → Account)
    (accounts : Accounts) (o : Option Account)
    → ((acc : Account) → (f acc).balance ≡ acc.balance)
    → lookup key accounts ≡ o
    → Pays intx v addr accounts
    → (let (acc, more) = or_insert o key fresh accounts in
        Pays intx v addr (update key (f acc) more))
Pays-insert intx v addr key fresh f accounts none kept e p =
    Pays-update intx v addr key (f fresh) (update key fresh accounts)
      (λ old e2.
        let at = lookup-update_same key fresh accounts in
        let same : fresh ≡ old = cc in kept fresh ∙ ap (λ a. a.balance) same)
      (Pays-update intx v addr key fresh accounts (λ old e2. absurd cc) p)
Pays-insert intx v addr key fresh f accounts (some acc) kept e p =
    Pays-update intx v addr key (f acc) accounts
      (λ old e2. let same : acc ≡ old = cc in kept acc ∙ ap (λ a. a.balance) same) p

pub pay-Returns :
    (env : HostEnv) (msg : Message) (h : HostState)
    → Pays env.intx (env.intx.be_load msg.value) msg.sender h.accounts
    → Exists msg.recipient h.accounts
    → Returns (Grows h) (pay env msg h)
unfolding pay Returns
pay-Returns env msg h (acc, e, u) r =
    let able : can_pay env msg (lookup msg.sender h.accounts) ≡ true = rw (e, u) refl in
    rw able (transfer-Returns env msg h (acc, e) r)
