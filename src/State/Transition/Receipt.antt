-- ===== src/State/Transition/Receipt.antt =====
-- The gas that a transaction of test/state/state.cpp pays for.
use zvmone.Prelude.{
  ◌<◌, ◌⊎◌, refl, true, false, ◌&&◌, length, if◌then◌else◌, ℕ, ◌+◌, ◌-◌, ◌/◌, ◌≤◌, ◌≡◌, sym, arith,
  Option, none, some, [],
}
use zvmone.Prelude.Int.{ℤ, pos, negsuc, ◌-ℤ◌, ◌≤ℤ◌, min_ℤ, ltb_ℤ, int_laws}
use zvmone.Uint256.{Uint256, IsUint256}
use zvmone.Zvmc.{Address, create, call}
use zvmone.State.Maps.{Exists, lookup, lookup-update_same}
use zvmone.State.Accounts.{Account, touch}
use zvmone.State.Host.{HostState, HostEnv, with_accounts, change, ◌>>=◌}
use zvmone.State.Host.Calls.Steps.{Returns, Returns-bind, Grows, Pays, IsHostEnv, change-Returns}
use zvmone.State.Host.Calls.Outcome.{host_call-IsCalled}
use zvmone.State.Host.Calls.Execution.{IsDefined, Returns-some}
use zvmone.Platform.{big_endian}
use zvmone.State.Bytes.{same_bytes_refl}
use zvmone.State.Precompiles.Bounds.{IsUnsafe}
use zvmone.State.Host.Calls.{is_addressed, is_create, is_zero}
use zvmone.State.Transition.Funds.{IsArithmetic, validate_transaction-funds}
use zvmone.State.Transition.Preparation.{before_call-Returns}
use zvmone.State.Transition.Validation.{validate_transaction-gas}
use zvmone.State.Transition.{
  BlockInfo, Transaction, TransactionReceipt, accepted, validate_transaction,
  compute_tx_intrinsic_cost, build_message, is_creation, recipient_of,
}
use zvmone.State.Transition.Apply.{
  applied, Transitioned, invalid, transition, apply_transaction, before_call, after_call,
  gas_used_by, fifth, is_overpriced, max_cost,
}

min_ℤ-le : (a b : ℤ) → min_ℤ a b ≤ℤ b
min_ℤ-le a b = ground arith

-- A refund of at most a fifth.
after_refund : (g refund : ℤ) (c : ℕ) → pos c ≤ℤ g → pos (c - c / 5) ≤ℤ g -ℤ min_ℤ refund (fifth g)
after_refund (pos n) refund c h =
    let below : min_ℤ refund (pos (n / 5)) ≤ℤ pos (n / 5) = min_ℤ-le refund (pos (n / 5)) in
    let less : c - c / 5 + n / 5 ≤ n = omega arith in omega (int_laws, below, less)
after_refund (negsuc n) refund c h = absurd (omega arith)

after_call-Returns :
    (env : HostEnv) (block : BlockInfo) (tx : Transaction) (cost effective priority : Uint256)
    (used : ℤ) (h : HostState)
    → Exists tx.tx_sender h.accounts
    → Returns (λ h'. Unit {0}) (after_call env block tx cost effective priority used h)
unfolding after_call Returns
after_call-Returns env block tx cost effective priority used h s =
    Returns-bind (Grows h) (λ h'. Unit {0}) (change tx.tx_sender _ h) _
      (change-Returns tx.tx_sender _ h s)
      (λ h1 g1.
        let h2 = with_accounts (touch block.coinbase h1.accounts) h1 in
        Returns-bind (Grows h2) (λ h'. Unit {0}) (change block.coinbase _ h2) _
          (change-Returns block.coinbase _ h2 (_, lookup-update_same block.coinbase _ _))
          (λ h3 g3. tt))

-- The receipt of a transaction with this intrinsic cost.
IsPaidFor : ℕ → Transitioned → Type 0
IsPaidFor cost (invalid e) = ⊥
IsPaidFor cost (applied r h) = pos (cost - cost / 5) ≤ℤ r.gas_used

-- The recipient of a transaction: not a precompiled contract whose call may be undefined for the
-- transaction's input.
pub record IsCallable (env : HostEnv) (tx : Transaction) : Type 0 where
  pub address_length : length (recipient_of tx.to) ≡ 20
  pub has_function : (big_endian (recipient_of tx.to) < 8) ⊎ (10 ≤ big_endian (recipient_of tx.to))
  pub fits_buffer : big_endian (recipient_of tx.to) ≡ 3 → length tx.tx_input ≤ 256
  pub expmod_safe : big_endian (recipient_of tx.to) ≡ 4 → IsUnsafe env.intx tx.tx_input → ⊥

addressed_lem :
    (to : Option Address)
    → is_addressed (if is_creation to then create else call) (recipient_of to) (recipient_of to)
      ≡ true
addressed_lem none = refl
addressed_lem (some a) = same_bytes_refl a

unnamed_lem :
    (to : Option Address)
    → is_create (if is_creation to then create else call) ≡ true
    → (is_zero (recipient_of to) && is_zero (recipient_of to)) ≡ true
unnamed_lem none c = refl
unnamed_lem (some a) c = absurd cc

build_message-IsDefined :
    (env : HostEnv) (tx : Transaction) (g : ℤ) (h : HostState)
    → IsCallable env tx
    → Pays env.intx (env.intx.be_load (env.intx.be_store tx.tx_value)) tx.tx_sender h.accounts
    → IsDefined env (build_message env.intx tx g) h
unfolding build_message
build_message-IsDefined env tx g h d p = record {
  runnable = record {
    address_length = d.address_length;
    has_function = d.has_function;
    fits_buffer = d.fits_buffer;
    expmod_safe = d.expmod_safe;
    addressed = addressed_lem tx.to;
    pays = λ k. p;
  };
  unnamed = unnamed_lem tx.to;
}

positive_gas : (c : ℕ) (g : ℤ) → 21000 ≤ c → pos (c - c / 5) ≤ℤ g → ltb_ℤ (pos 0) g ≡ true
positive_gas c g h l = let positive : pos 1 ≤ℤ g = omega (arith, h, l) in is_positive g positive
  where
    is_positive : (g : ℤ) → pos 1 ≤ℤ g → ltb_ℤ (pos 0) g ≡ true
    is_positive g h = ground arith

intrinsic_cost-le : (tx : Transaction) → 21000 ≤ compute_tx_intrinsic_cost tx
unfolding compute_tx_intrinsic_cost
intrinsic_cost-le tx = ground arith

module _ (env : HostEnv) (block : BlockInfo) (tx : Transaction) (h : HostState) (acc : Account)
    (g : ℤ) where
  apply_transaction-IsPaidFor :
      IsHostEnv env
      → lookup tx.tx_sender h.accounts ≡ some acc
      → g ≡ tx.gas_limit -ℤ pos (compute_tx_intrinsic_cost tx)
      → pos 0 ≤ℤ g
      → is_overpriced env.intx block tx ≡ false
      → env.intx.ult
          (env.intx.sub acc.balance (max_cost env.intx block tx))
          (env.intx.be_load (env.intx.be_store tx.tx_value))
        ≡ false
      → IsCallable env tx
      → Returns (IsPaidFor (compute_tx_intrinsic_cost tx)) (apply_transaction env block tx g h)
  unfolding apply_transaction Returns IsPaidFor build_message
  apply_transaction-IsPaidFor w s same p priced funded d =
      let cost = compute_tx_intrinsic_cost tx in
      let paid = IsPaidFor cost in
      let h0 = record h { logs = [] } in
      rw priced (
        Returns-bind _ paid (before_call env block tx _ h0) _
          (before_call-Returns env block tx _ _ h0 acc s funded)
          (λ h1 (g1, able).
            let sent = g1.accounts_kept tx.tx_sender (acc, s) in
            let defined = build_message-IsDefined env tx g h1 d able in
            let (r, h2, e, c) =
              host_call-IsCalled env (build_message env.intx tx g) h1 w sent defined p in
            let below : r.gas_left ≤ℤ tx.gas_limit -ℤ pos cost = rw (sym same) c.gas_below in
            let spent : pos cost ≤ℤ tx.gas_limit -ℤ r.gas_left = omega (int_laws, below) in
            let used = after_refund (tx.gas_limit -ℤ r.gas_left) r.gas_refund cost spent in
            let positive = positive_gas cost (gas_used_by tx r) (intrinsic_cost-le tx) used in
            rw (e, positive)
              (Returns-bind (λ h'. Unit {0}) paid
                (after_call env block tx _ _ _ (gas_used_by tx r) h2) _
                (after_call-Returns env block tx _ _ _ (gas_used_by tx r) h2
                  (c.accounts_kept tx.tx_sender sent))
                (λ h3 u. used))))

  -- With a VM that gives back at most the gas it was given and removes no account and no log, with
  -- 256-bit arithmetic modulo 2^256, and with a maximal gas price, a value and a balance of the
  -- sender that are 256-bit words, a transaction of that sender that is accepted is applied, with
  -- no assertion failed, if its recipient (the address 0 for a creation) has 20 bytes and a number
  -- below 8 or from 10 on, with at most 256 bytes of input for number 3, and for number 4 with an
  -- input that neither puts the exponent behind its end nor declares a modulus of more than 256
  -- bytes (as IsUnsafe says). Its receipt's gas, after the refund, is at least four fifths of its
  -- intrinsic cost, rounded up, and so positive.
  pub transition-gas_used :
      IsArithmetic env.intx tx
      → IsUint256 tx.max_gas_price
      → IsUint256 tx.tx_value
      → IsUint256 acc.balance
      → IsHostEnv env
      → lookup tx.tx_sender h.accounts ≡ some acc
      → validate_transaction env.intx acc block tx ≡ accepted g
      → IsCallable env tx
      → (r : TransactionReceipt) × (h' : HostState) × (transition env block tx h
          ≡ some (applied r h'))
        × (pos (compute_tx_intrinsic_cost tx - compute_tx_intrinsic_cost tx / 5) ≤ℤ r.gas_used)
        × (pos 1 ≤ℤ r.gas_used)
  unfolding transition IsPaidFor
  transition-gas_used a u1 u2 u3 w e v d =
      let (same, p) = validate_transaction-gas env.intx acc block tx g v in
      let (priced, funded) = validate_transaction-funds env.intx acc block tx g a u1 u2 u3 v in
      let paid = apply_transaction-IsPaidFor w e same p priced funded d in
      finish (Returns-some _ (apply_transaction env block tx g h) paid)
    where
      finish :
          (o : Transitioned) × (apply_transaction env block tx g h ≡ some o)
            × IsPaidFor (compute_tx_intrinsic_cost tx) o
          → (r : TransactionReceipt) × (h' : HostState) × (transition env block tx h
              ≡ some (applied r h'))
            × (pos (compute_tx_intrinsic_cost tx - compute_tx_intrinsic_cost tx / 5) ≤ℤ r.gas_used)
            × (pos 1 ≤ℤ r.gas_used)
      finish (invalid x, a, b) = absurd b
      finish (applied r h', a, b) =
          let large = intrinsic_cost-le tx in
          (r, h', rw (transition, e, ◌>>=◌, v) a, b, omega (arith, large, b))
