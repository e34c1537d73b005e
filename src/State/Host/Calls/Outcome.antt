-- ===== src/State/Host/Calls/Outcome.antt =====
-- What Host::call of test/state/host.cpp gives back, and what it undoes.
use zvmone.Prelude.{
  ◌≡◌, ◌⊎◌, refl, sym, ◌∙◌, ap, inl, inr, Bool, true, false, Bool-cases, Option, none, some, [],
  take-append, if◌then◌else◌,
}
use zvmone.Prelude.Int.{pos, ◌≤ℤ◌, int_laws}
use zvmone.Zvmc.{is_success, failure, Address, Message, CallResult}
use zvmone.State.Maps.{Exists, lookup}
use zvmone.State.Accounts.{touch}
use zvmone.State.Precompiles.{make}
use zvmone.State.Precompiles.Identity.{numbered}
use zvmone.State.Host.{HostState, HostEnv}
use zvmone.State.Host.Calls.{prepare_message, execute_message, revert_to, host_call, is_touched}
use zvmone.State.Host.Calls.Creation.{Given}
use zvmone.State.Host.Calls.Steps.{Returns, Grows, IsHostEnv}
use zvmone.State.Host.Calls.Execution.{
  execute_message-Given, IsDefined, IsRunnable, Returns-some, Grows-touch, Prepared,
  prepare_message-Prepared,
}

-- The result of a call, and what is left of the execution if it is not a success: the prepared
-- accounts, but for the touch of address 3, and the logs from before the call.
pub record IsCalled (env : HostEnv) (msg : Message) (h : HostState) (r : CallResult)
    (h' : HostState) : Type 0 where
  pub gas_positive : pos 0 ≤ℤ r.gas_left
  pub gas_below : r.gas_left ≤ℤ msg.gas
  pub accounts_kept : (a : Address) → Exists a h.accounts → Exists a h'.accounts
  pub reverted_logs : is_success r.status_code ≡ false → h'.logs ≡ h.logs
  pub reverted_accounts :
      is_success r.status_code ≡ false
      → (o : Option Message) × (h1 : HostState) × (prepare_message env msg h ≡ some (o, h1))
        × ((h'.accounts ≡ h1.accounts) ⊎ (h'.accounts ≡ touch (numbered 3) h1.accounts))

revert_to-logs :
    (before after : HostState) → Grows before after → (revert_to before after).logs ≡ before.logs
unfolding revert_to
revert_to-logs before after g = let (more, e) = g.logs_added in rw e (take-append before.logs more)

revert_to-accounts :
    (before after : HostState)
    → ((revert_to before after).accounts ≡ before.accounts)
      ⊎ ((revert_to before after).accounts ≡ touch (numbered 3) before.accounts)
unfolding revert_to
revert_to-accounts before after =
    elim (Bool-cases (is_touched (lookup (numbered 3) after.accounts))) [
      | inl t ↦ inr (rw t refl)
      | inr n ↦ inl (rw n refl)
    ]

-- Accounts that are kept by the execution or by its undoing.
kept_either :
    (a : Address) (success : Bool) (h1 h2 : HostState)
    → Grows h1 h2
    → Exists a h1.accounts
    → Exists a (if success then h2 else revert_to h1 h2).accounts
kept_either a true h1 h2 g x = g.accounts_kept a x
kept_either a false h1 h2 g (v, e) = elim (revert_to-accounts h1 h2) [
  | inl same ↦ (v, rw same e)
  | inr touched ↦
      let (u, f) = (Grows-touch h1 (numbered 3)).accounts_kept a (v, e) in (u, rw touched f)
]

finish_call :
    (env : HostEnv) (msg m : Message) (h h1 : HostState) (o : CallResult × HostState)
    → prepare_message env msg h ≡ some (some m, h1)
    → Grows h h1
    → h1.logs ≡ h.logs
    → Given msg.gas h1 o
    → IsCalled env msg h o.0 (if is_success o.0.status_code then o.1 else revert_to h1 o.1)
unfolding Given
finish_call env msg m h h1 (r, h2) e g1 l (p, q, g) = record {
  accounts_kept = λ a x. kept_either a (is_success r.status_code) h1 h2 g (g1.accounts_kept a x);
  gas_positive = p;
  gas_below = q;
  reverted_logs = λ f. rw f (revert_to-logs h1 h2 g ∙ l);
  reverted_accounts = λ f. (some m, h1, e, rw f (revert_to-accounts h1 h2));
}

-- With a VM that gives back at most the gas it was given and removes no account and no log, a
-- message whose gas is not negative gives a result, with no assertion failed, if its sender has an
-- account, with the value in it unless the message is a delegatecall, a call's recipient is its
-- code address, the recipient and the code address of a creation are zero, and the code address
-- has 20 bytes and a number below 8 or from 10 on, with at most 256 bytes of input for number 3,
-- and for number 4 with an input that neither puts the exponent behind its end nor declares a
-- modulus of more than 256 bytes (as IsUnsafe says). The result's gas is at most the message's,
-- and no account is removed. If it is not a success the logs are those from before the call and
-- the accounts those that the preparation of the message left (the sender's nonce, the access to
-- the new account), but for the touch of address 3.
pub host_call-IsCalled :
    (env : HostEnv) (msg : Message) (h : HostState)
    → IsHostEnv env
    → Exists msg.sender h.accounts
    → IsDefined env msg h
    → pos 0 ≤ℤ msg.gas
    → (r : CallResult) × (h' : HostState) × (host_call env msg h ≡ some (r, h'))
      × IsCalled env msg h r h'
unfolding Returns Prepared host_call
host_call-IsCalled env msg h w s d p =
    prepared (prepare_message env msg h) refl (prepare_message-Prepared env msg h s d.unnamed)
  where
    prepared :
        (o : Option (Option Message × HostState))
        → prepare_message env msg h ≡ o
        → Returns (Prepared env msg h) o
        → (r : CallResult) × (h' : HostState) × (host_call env msg h ≡ some (r, h'))
          × IsCalled env msg h r h'
    prepared none e v = absurd v
    prepared (some (none, h1)) e v = (
      make failure msg.gas [],
      h1,
      rw (host_call, e) refl,
      record {
        gas_positive = p;
        gas_below = omega int_laws;
        accounts_kept = λ a x. rw v x;
        reverted_logs = λ f. ap (λ x. x.logs) v;
        reverted_accounts = λ f. (none, h1, e, inl refl);
      },
    )
    prepared (some (some m, h1)) e (gas, amount, kind, at, kept, address, input, sender, g, l) =
        let runnable : IsRunnable env m h1 = record {
          address_length = rw address d.runnable.address_length;
          has_function = rw address d.runnable.has_function;
          fits_buffer = rw (address, input) d.runnable.fits_buffer;
          expmod_safe = rw (address, input) d.runnable.expmod_safe;
          addressed = at d.runnable.addressed;
          pays = rw (kind, amount, sender) (λ k. kept _ _ (d.runnable.pays k));
        } in
        let positive : pos 0 ≤ℤ m.gas = rw gas p in
        let (o, e2, v) =
          Returns-some (Given m.gas h1) (execute_message env m h1)
            (execute_message-Given env w m h1 runnable positive) in
        (
          o.0,
          (if is_success o.0.status_code then o.1 else revert_to h1 o.1),
          rw (host_call, e, e2) refl,
          finish_call env msg m h h1 o e g l (rw (sym gas) v),
        )
