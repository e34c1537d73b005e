-- ===== src/State/Host/Calls/Execution.antt =====
-- The preparation and the execution of a message in test/state/host.cpp.
use zvmone.Uint256.{Uint256}
use zvmone.Platform.{Intx}
use zvmone.Prelude.{
  Bool, false, not, ap, ◌≢◌, ℕ, ◌+◌, ◌≤◌, ◌<◌, ◌≡◌, ◌⊎◌, refl, inl, inr, arith, true, Bool-cases,
  ◌&&◌, ◌||◌, Option, none, some, List, length, ◌==◌,
}
use zvmone.Prelude.Int.{pos, ◌≤ℤ◌}
use zvmone.Zvmc.{Address, Message, CallResult, CallKind, call, delegatecall, create, create2, warm}
use zvmone.Platform.{big_endian}
use zvmone.State.Maps.{Exists, lookup, lookup-update_same, update}
use zvmone.State.Accounts.{new_account, Accounts, get_or_insert, touch, nonce_max}
use zvmone.State.Precompiles.{
  Precompiled, not_precompiled, precompiled, undefined_call, call_precompile,
}
use zvmone.State.Precompiles.Bounds.{IsUnsafe, IsOutcome, call_precompile-IsOutcome}
use zvmone.State.Host.{HostState, HostEnv, with_accounts, access_account}
use zvmone.State.Host.Calls.{
  is_zero, is_addressed, pay, is_create, prepare_message, fill_recipient, enter, execute_message,
}
use zvmone.State.Host.Calls.Creation.{Given, vm-Given, create_account-Given}
use zvmone.State.Host.Calls.Steps.{
  Returns, Returns-bind, Grows, Grows-refl, Grows-trans, Grows-update, Grows-insert, IsHostEnv,
  Pays, Pays-insert, Pays-update, pay-Returns,
}

-- A message that execute_message runs without a failed assertion: a call is to its code address, the
-- value that a call or a creation takes is there, and a precompiled contract that it goes to has a
-- function that is defined for its input.
pub record IsRunnable (env : HostEnv) (msg : Message) (h : HostState) : Type 0 where
  pub address_length : length msg.code_address ≡ 20
  pub has_function : (big_endian msg.code_address < 8) ⊎ (10 ≤ big_endian msg.code_address)
  pub fits_buffer : big_endian msg.code_address ≡ 3 → length msg.input ≤ 256
  pub expmod_safe : big_endian msg.code_address ≡ 4 → IsUnsafe env.intx msg.input → ⊥
  pub addressed : is_addressed msg.kind msg.recipient msg.code_address ≡ true
  pub pays :
      msg.kind ≢ delegatecall → Pays env.intx (env.intx.be_load msg.value) msg.sender h.accounts

-- The same for Host::call, where a message that creates an account names none.
pub record IsDefined (env : HostEnv) (msg : Message) (h : HostState) : Type 0 where
  pub runnable : IsRunnable env msg h
  pub unnamed :
      is_create msg.kind ≡ true → (is_zero msg.recipient && is_zero msg.code_address) ≡ true

pub Returns-some :
    {A : Type 0} (P : A → Type 0) (o : Option A) → Returns P o → (a : A) × (o ≡ some a) × P a
unfolding Returns
Returns-some P none h = absurd h
Returns-some P (some a) h = (a, refl, h)

pub Grows-touch :
    (h : HostState) (addr : Address) → Grows h (with_accounts (touch addr h.accounts) h)
Grows-touch h addr =
    let (a, accounts) = get_or_insert addr new_account h.accounts in
    Grows-trans (Grows-insert h addr (lookup addr h.accounts) new_account)
      (Grows-update (with_accounts accounts h) addr (record a { erasable = true }))

touched_Exists : (addr : Address) (accounts : Accounts) → Exists addr (touch addr accounts)
touched_Exists addr accounts = (_, lookup-update_same addr _ _)

enter-Returns :
    (env : HostEnv) (msg : Message) (h : HostState) (kind : CallKind)
    → msg.kind ≡ kind
    → (msg.kind ≢ delegatecall → Pays env.intx (env.intx.be_load msg.value) msg.sender h.accounts)
    → Returns (λ o. Grows h o.1) (enter env msg h)
unfolding enter Returns
enter-Returns env msg h call e s =
    let h1 = with_accounts (touch msg.recipient h.accounts) h in
    let g1 = Grows-touch h msg.recipient in
    let paying =
      Pays-insert env.intx (env.intx.be_load msg.value) msg.sender msg.recipient new_account
        (λ a. record a { erasable = true }) h.accounts _ (λ a. refl) refl (s (λ d. absurd cc)) in
    rw e (
      Returns-bind (Grows h1) (λ o. Grows h o.1) (pay env msg h1) _
        (pay-Returns env msg h1 paying (touched_Exists msg.recipient h.accounts))
        (λ h2 g2.
          let (acc, at) =
            g2.accounts_kept msg.recipient (touched_Exists msg.recipient h.accounts) in
          rw at (Grows-trans g1 g2)))
enter-Returns env msg h delegatecall e s = rw (enter, e) (Grows-refl h)
enter-Returns env msg h create e s = rw (enter, e) (Grows-refl h)
enter-Returns env msg h create2 e s = rw (enter, e) (Grows-refl h)

created_pays : (kind : CallKind) → is_create kind ≡ true → kind ≢ delegatecall
created_pays delegatecall c e = absurd cc
created_pays _ c e = absurd cc

module _ (env : HostEnv) (w : IsHostEnv env) where
  by_precompile :
      (msg : Message) (code : List ℕ) (h h1 : HostState) (o : Precompiled)
      → IsRunnable env msg h
      → pos 0 ≤ℤ msg.gas
      → Grows h h1
      → IsOutcome env.intx msg o
      → Returns (Given msg.gas h) (elim o as (λ _. Option (CallResult × HostState)) [
        | undefined_call ↦ none
        | precompiled r cache ↦ some (r, record h1 { cache = cache })
        | not_precompiled ↦ some (env.vm_execute h1 msg code)
      ])
  unfolding Returns IsOutcome Given
  by_precompile msg code h h1 undefined_call d p g (inl (a, b)) = elim d.has_function [
    | inl low ↦ absurd (omega arith)
    | inr high ↦ absurd (omega arith)
  ]
  by_precompile msg code h h1 undefined_call d p g (inr (inr (a, b))) = absurd (d.expmod_safe a b)
  by_precompile msg code h h1 undefined_call d p g (inr (inl (a, b))) =
      let fits = d.fits_buffer a in absurd (omega arith)
  by_precompile msg code h h1 (precompiled r cache) d p g v = (
    v.gas_positive,
    v.gas_below,
    record { accounts_kept = g.accounts_kept; logs_added = g.logs_added },
  )
  by_precompile msg code h h1 not_precompiled d p g v =
      vm-Given env w msg code msg.gas h h1 refl p g

  pub execute_message-Given :
      (msg : Message) (h : HostState)
      → IsRunnable env msg h
      → pos 0 ≤ℤ msg.gas
      → Returns (Given msg.gas h) (execute_message env msg h)
  unfolding execute_message
  execute_message-Given msg h d p = elim (Bool-cases (is_create msg.kind)) [
    | inl creation ↦
        rw (execute_message, creation)
          (create_account-Given env w msg h (d.pays (created_pays msg.kind creation)) p)
    | inr plain ↦
        rw (execute_message, plain, d.addressed)
          (Returns-bind (λ o. Grows h o.1) (Given msg.gas h) (enter env msg h) _
            (enter-Returns env msg h msg.kind refl d.pays)
            (λ o g.
              by_precompile msg o.0 h o.1 (call_precompile env.intx env.keccak256 msg o.1.cache) d p
                g
                (call_precompile-IsOutcome env.intx env.keccak256 msg o.1.cache d.address_length
                  p)))
  ]

-- What `prepare_message` leaves.
unfoldable pub Prepared : HostEnv → Message → HostState → Option Message × HostState → Type 0
Prepared env msg h (none, h1) = h1 ≡ h
Prepared env msg h (some m, h1) =
    (m.gas ≡ msg.gas)
    × (m.value ≡ msg.value)
    × (m.kind ≡ msg.kind)
    × (is_addressed msg.kind msg.recipient msg.code_address ≡ true
        → is_addressed m.kind m.recipient m.code_address ≡ true)
    × ((v : Uint256) (a : Address) → Pays env.intx v a h.accounts → Pays env.intx v a h1.accounts)
    × (m.code_address ≡ msg.code_address)
    × (m.input ≡ msg.input)
    × (m.sender ≡ msg.sender)
    × Grows h h1
    × (h1.logs ≡ h.logs)

pub Grows-access_account : (h : HostState) (addr : Address) → Grows h (access_account h addr).1
unfolding access_account
Grows-access_account h addr =
    let fresh = record new_account { erasable = true } in
    let (acc, accounts) = get_or_insert addr fresh h.accounts in
    Grows-trans (Grows-insert h addr (lookup addr h.accounts) fresh)
      (Grows-update (with_accounts accounts h) addr (record acc { account_access = warm }))

pub Pays-access_account :
    (intx : Intx) (v : Uint256) (a : Address) (h : HostState) (addr : Address)
    → Pays intx v a h.accounts
    → Pays intx v a (access_account h addr).1.accounts
unfolding access_account
Pays-access_account intx v a h addr p =
    Pays-insert intx v a addr (record new_account { erasable = true })
      (λ acc. record acc { account_access = warm }) h.accounts _ (λ acc. refl) refl p

created_addressed :
    (kind : CallKind) (recipient code_address : Address)
    → is_create kind ≡ true
    → is_addressed kind recipient code_address ≡ true
created_addressed create recipient code_address c = refl
created_addressed create2 recipient code_address c = refl
created_addressed call recipient code_address c = absurd cc
created_addressed delegatecall recipient code_address c = absurd cc

fill_recipient-Prepared :
    (env : HostEnv) (msg : Message) (nonce : ℕ) (h h1 : HostState)
    → Grows h h1
    → h1.logs ≡ h.logs
    → ((v : Uint256) (a : Address) → Pays env.intx v a h.accounts → Pays env.intx v a h1.accounts)
    → Prepared env msg h
        (some (fill_recipient env msg nonce h1).0, (fill_recipient env msg nonce h1).1)
unfolding Prepared access_account
fill_recipient-Prepared env msg nonce h h1 g l k = elim (Bool-cases (is_create msg.kind)) [
  | inl creation ↦ rw creation (
    refl,
    refl,
    refl,
    (λ t. created_addressed msg.kind _ _ creation),
    (λ v a paying. Pays-access_account env.intx v a h1 _ (k v a paying)),
    refl,
    refl,
    refl,
    Grows-trans g (Grows-access_account h1 _),
    l,
  )
  | inr plain ↦ rw plain (refl, refl, refl, (λ t. t), k, refl, refl, refl, g, l)
]

unnamed_lem : (c t : Bool) → (c ≡ true → t ≡ true) → (c && not t) ≡ false
unnamed_lem true t h = rw (h refl) refl
unnamed_lem false t h = refl

pub prepare_message-Prepared :
    (env : HostEnv) (msg : Message) (h : HostState)
    → Exists msg.sender h.accounts
    → (is_create msg.kind ≡ true → (is_zero msg.recipient && is_zero msg.code_address) ≡ true)
    → Returns (Prepared env msg h) (prepare_message env msg h)
unfolding prepare_message Returns Prepared
prepare_message-Prepared env msg h (acc, e) unnamed =
    let named = unnamed_lem (is_create msg.kind) _ unnamed in
    let bumps = (msg.depth == 0) || is_create msg.kind in
    let bumped = record acc { nonce = acc.nonce + 1 } in
    rw e (elim (Bool-cases (bumps && (acc.nonce == nonce_max))) [
      | inl spent ↦ rw spent refl
      | inr left ↦
          rw (left, named)
            (elim (Bool-cases bumps) [
              | inl b ↦ rw b (
                  fill_recipient-Prepared env msg acc.nonce h
                    (with_accounts (update msg.sender bumped h.accounts) h)
                    (Grows-update h msg.sender bumped) refl
                    (λ v a.
                      Pays-update env.intx v a msg.sender bumped h.accounts
                        (λ old e2. let same : acc ≡ old = cc in ap (λ x. x.balance) same)))
              | inr n ↦ rw n (
                  fill_recipient-Prepared env msg acc.nonce h h (Grows-refl h) refl
                    (λ v a paying. paying))
            ])
    ])
