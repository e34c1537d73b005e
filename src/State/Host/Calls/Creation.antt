-- ===== src/State/Host/Calls/Creation.antt =====
-- The creation of an account in test/state/host.cpp.
use zvmone.Prelude.{
  false, ℕ, ◌*◌, ◌≡◌, refl, sym, inl, inr, arith, Bool-cases, ◌&&◌, List, [], length, ltb, get_or,
  ◌==◌,
}
use zvmone.Prelude.Int.{ℤ, pos, ◌-ℤ◌, ◌≤ℤ◌, ltb_ℤ, int_laws}
use zvmone.Zvmc.{is_success, Message, CallResult}
use zvmone.State.Precompiles.Identity.{not_negative}
use zvmone.State.Maps.{Exists, lookup, lookup-update_same, update}
use zvmone.State.Accounts.{new_account, get_or_insert}
use zvmone.State.Host.{HostState, HostEnv, max_code_size, with_accounts, change}
use zvmone.State.Host.Calls.{pay, deploy, create_account, after_initcode, collides, clear_storage}
use zvmone.State.Host.Calls.Steps.{
  Returns, Returns-bind, Grows, IsHostEnv, Grows-refl, Grows-trans, Grows-update, change-Returns,
  Grows-insert, Pays, Pays-insert, pay-Returns,
}

-- The result gives back at most the gas.
unfoldable pub Given : ℤ → HostState → CallResult × HostState → Type 0
Given gas h (r, h') = (pos 0 ≤ℤ r.gas_left) × (r.gas_left ≤ℤ gas) × Grows h h'

deploy-Given :
    (msg : Message) (result : CallResult) (gas : ℤ) (h h1 : HostState)
    → Given gas h (result, h1)
    → Exists msg.recipient h1.accounts
    → Returns (Given gas h) (deploy msg result h1)
unfolding deploy Returns Given
deploy-Given msg result gas h h1 (p, q, g) e =
    let asserted : ltb_ℤ result.gas_left (pos 0) ≡ false = not_negative result.gas_left p in
    let code = result.output in
    let left = result.gas_left -ℤ pos (length code * 200) in
    let below : left ≤ℤ result.gas_left = omega int_laws in
    elim (Bool-cases (ltb max_code_size (length code))) [
      | inl long ↦ rw (asserted, long) (omega arith, omega arith, g)
      | inr fits ↦ elim (Bool-cases (ltb_ℤ left (pos 0))) [
        | inl poor ↦ rw (asserted, fits, poor) (omega arith, omega arith, g)
        | inr paid ↦
            let positive : pos 0 ≤ℤ left = ground arith in
            elim (Bool-cases (ltb 0 (length code) && (get_or code 0 0 == 0xef))) [
              | inl reserved ↦ rw (asserted, fits, paid, reserved) (omega arith, omega arith, g)
              | inr accepted ↦
                  rw (asserted, fits, paid, accepted)
                    (Returns-bind (Grows h1) (Given gas h)
                      (change msg.recipient (λ acc. record acc { code = code }) h1) _
                      (change-Returns msg.recipient (λ acc. record acc { code = code }) h1 e)
                      (λ h2 g2. (positive, omega int_laws, Grows-trans g g2)))
            ]
      ]
    ]

module _ (env : HostEnv) (w : IsHostEnv env) where
  pub vm-Given :
      (msg : Message) (code : List ℕ) (gas : ℤ) (h h1 : HostState)
      → msg.gas ≡ gas
      → pos 0 ≤ℤ gas
      → Grows h h1
      → Given gas h (env.vm_execute h1 msg code)
  unfolding Given
  vm-Given msg code gas h h1 e p g =
      let positive : pos 0 ≤ℤ msg.gas = rw e p in
      let (a, b) = w.vm_gas h1 msg code positive in
      (a, rw (sym e) b, Grows-trans g (w.vm_grows h1 msg code))

  after_initcode-Given :
      (msg : Message) (gas : ℤ) (h h1 : HostState) (o : CallResult × HostState)
      → Given gas h o
      → Exists msg.recipient o.1.accounts
      → Returns (Given gas h) (after_initcode msg o)
  unfolding Returns Given after_initcode
  after_initcode-Given msg gas h h1 (r, h2) g e = elim (Bool-cases (is_success r.status_code)) [
    | inl s ↦ rw s (deploy-Given msg r gas h h2 g e)
    | inr n ↦ rw n g
  ]

  pub create_account-Given :
      (msg : Message) (h : HostState)
      → Pays env.intx (env.intx.be_load msg.value) msg.sender h.accounts
      → pos 0 ≤ℤ msg.gas
      → Returns (Given msg.gas h) (create_account env msg h)
  unfolding create_account Returns Given
  create_account-Given msg h s p = elim (Bool-cases (collides (lookup msg.recipient h.accounts))) [
    | inl taken ↦ rw taken (omega arith, omega arith, Grows-refl h)
    | inr free ↦
        let (new_acc, accounts) = get_or_insert msg.recipient new_account h.accounts in
        let cleared = record new_acc { nonce = 1; storage = clear_storage new_acc.storage } in
        let h1 = with_accounts (update msg.recipient cleared accounts) h in
        let g1 : Grows h h1 =
          Grows-trans (Grows-insert h msg.recipient (lookup msg.recipient h.accounts) new_account)
            (Grows-update (with_accounts accounts h) msg.recipient cleared) in
        let there : Exists msg.recipient h1.accounts =
          (cleared, lookup-update_same msg.recipient cleared accounts) in
        let paying =
          Pays-insert env.intx (env.intx.be_load msg.value) msg.sender msg.recipient new_account
            (λ a. record a { nonce = 1; storage = clear_storage a.storage }) h.accounts _
            (λ a. refl) refl s in
        rw free (
          Returns-bind (Grows h1) (Given msg.gas h) (pay env msg h1) _
            (pay-Returns env msg h1 paying there)
            (λ h2 g2.
              let o = env.vm_execute h2 (record msg { input = [] }) msg.input in
              after_initcode-Given msg msg.gas h h2 o
                (vm-Given (record msg { input = [] }) msg.input msg.gas h h2 refl p
                  (Grows-trans g1 g2))
                ((w.vm_grows h2 (record msg { input = [] }) msg.input).accounts_kept msg.recipient
                  (g2.accounts_kept msg.recipient there))))
  ]
