-- ===== src/State/Host/Calls/Balances.antt =====
-- The transfer of a value in Host::create and Host::execute_message of test/state/host.cpp.
use zvmone.Prelude.{
  ℕ, ◌+◌, ◌-◌, ◌%◌, ◌^◌, ◌≤◌, ◌<◌, ◌≡◌, refl, inl, inr, Bool-cases, some, List, [], ◌∷◌, arith,
}
use zvmone.Uint256.{Uint256, value}
use zvmone.Zvmc.{Message}
use zvmone.State.Bytes.{same_bytes}
use zvmone.State.Maps.{Exists, Exists-update, lookup, update}
use zvmone.State.Accounts.{Account, Accounts}
use zvmone.State.Host.{HostState, HostEnv, with_accounts, change, ◌>>=◌}
use zvmone.State.Host.Calls.{transfer, add_balance, sub_balance}

-- The sum of the balances.
unfoldable pub total : Accounts → ℕ
total [] = 0
total ((addr, acc) ∷ accounts) = value acc.balance + total accounts

balance-le :
    (addr : List ℕ) (acc : Account) (accounts : Accounts)
    → lookup addr accounts ≡ some acc
    → value acc.balance ≤ total accounts
unfolding total
balance-le addr acc [] e = absurd cc
balance-le addr acc ((key, a) ∷ accounts) e = elim (Bool-cases (same_bytes key addr)) [
  | inl s ↦
      let same : a ≡ acc = cc in
      let b : value a.balance ≡ value acc.balance = rw same refl in omega (arith, b)
  | inr n ↦ let rest = balance-le addr acc accounts cc in omega (arith, rest)
]

-- What a new account in the place of an old one makes of the sum.
total-update :
    (addr : List ℕ) (old new : Account) (accounts : Accounts)
    → lookup addr accounts ≡ some old
    → total (update addr new accounts) + value old.balance ≡ total accounts + value new.balance
unfolding total
total-update addr old new [] e = absurd cc
total-update addr old new ((key, a) ∷ accounts) e = elim (Bool-cases (same_bytes key addr)) [
  | inl s ↦
      let same : a ≡ old = cc in
      let b : value a.balance ≡ value old.balance = rw same refl in rw s (omega (arith, b))
  | inr n ↦ let rest = total-update addr old new accounts cc in rw n (omega (arith, rest))
]

-- The sums before and after, as numbers: the sender's balance `a`, the value `v` and the
-- recipient's balance `c`.
sums :
    (a v c t t1 t2 a' c' : ℕ)
    → a' ≡ (a + 2 ^ 256 - v) % 2 ^ 256
    → c' ≡ (c + v) % 2 ^ 256
    → t1 + a ≡ t + a'
    → t2 + c ≡ t1 + c'
    → a ≤ t
    → c ≤ t1
    → v ≤ a
    → t < 2 ^ 256
    → t2 ≡ t
sums a v c t t1 t2 a' c' sub add first second low low1 enough small =
    let less : a' ≡ a - v = omega (arith, sub) in
    let down : t1 + v ≡ t = omega (arith, less, first) in
    let more : c' ≡ c + v = omega (arith, add, down) in omega (arith, more, second, down)

-- With an addition and a subtraction modulo 2^256, if the sender has an account with at least the
-- value, the recipient has one, and all balances together are less than 2^256, the transfer
-- succeeds, also from an account to itself, and leaves the sum of the balances as it was.
pub transfer-total :
    (env : HostEnv) (msg : Message) (h : HostState) (sender : Account)
    → ((x y : Uint256) → value (env.intx.add x y) ≡ (value x + value y) % 2 ^ 256)
    → ((x y : Uint256) → value (env.intx.sub x y) ≡ (value x + 2 ^ 256 - value y) % 2 ^ 256)
    → lookup msg.sender h.accounts ≡ some sender
    → value (env.intx.be_load msg.value) ≤ value sender.balance
    → Exists msg.recipient h.accounts
    → total h.accounts < 2 ^ 256
    → (h' : HostState) × (transfer env msg h ≡ some h') × (total h'.accounts ≡ total h.accounts)
unfolding transfer
transfer-total env msg h sender add sub e enough there small =
    let amount = env.intx.be_load msg.value in
    let poorer = sub_balance env amount sender in
    let accounts1 = update msg.sender poorer h.accounts in
    let (c, at) = Exists-update msg.sender msg.recipient poorer h.accounts there in
    let richer = add_balance env amount c in
    let accounts2 = update msg.recipient richer accounts1 in
    let first = total-update msg.sender sender poorer h.accounts e in
    let second = total-update msg.recipient c richer accounts1 at in
    let low = balance-le msg.sender sender h.accounts e in
    let low1 = balance-le msg.recipient c accounts1 at in
    (
      with_accounts accounts2 h,
      rw (transfer, change, e, ◌>>=◌, at) refl,
      sums (value sender.balance) (value amount) (value c.balance) (total h.accounts)
          (total accounts1) (total accounts2) _ _ (sub sender.balance amount) (add c.balance amount)
          first second low low1 enough small,
    )
