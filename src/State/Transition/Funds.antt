-- ===== src/State/Transition/Funds.antt =====
-- The assertions of transition in test/state/state.cpp: a transaction that validate_transaction
-- accepts can pay for its gas and its value.
use zvmone.Prelude.{
  ℕ, ◌+◌, ◌-◌, ◌*◌, ◌%◌, ◌^◌, ◌≤◌, ◌<◌, ◌≡◌, refl, sym, ◌∙◌, inl, inr, arith, Bool-cases, false,
  ltb,
}
use native.Mathlib.Nat.{mul-le-mul_left, mul-le-mul_right}
use zvmone.Prelude.Int.{ℤ}
use zvmone.Uint256.{Uint256, IsUint256, value, value-lt, of_uint64}
use zvmone.Platform.{Intx}
use zvmone.State.Accounts.{Account}
use zvmone.State.Transition.{BlockInfo, Transaction, accepted, validate_transaction}
use zvmone.State.Transition.Validation.{tests_passed, ltb-false, le-ltb}
use zvmone.State.Transition.Apply.{
  min_uint256, priority_gas_price, effective_gas_price, max_cost, is_overpriced,
}

-- What the costs of a transaction rely on: 256-bit arithmetic modulo 2^256, with the conversion of
-- an int64_t to a word, and a message's value that is read as it was written.
pub record IsArithmetic (intx : Intx) (tx : Transaction) : Type 0 where
  pub ult_value : (x y : Uint256) → intx.ult x y ≡ ltb (value x) (value y)
  pub add_value : (x y : Uint256) → value (intx.add x y) ≡ (value x + value y) % 2 ^ 256
  pub sub_value : (x y : Uint256) → value (intx.sub x y) ≡ (value x + 2 ^ 256 - value y) % 2 ^ 256
  pub mul_value : (x y : Uint256) → value (intx.mul x y) ≡ (value x * value y) % 2 ^ 256
  pub of_int64_small : (z : ℤ) → IsUint256 (intx.of_int64 z)
  pub value_kept : value (intx.be_load (intx.be_store tx.tx_value)) ≡ value tx.tx_value

min_uint256-le :
    (intx : Intx) (tx : Transaction) (a b : Uint256)
    → IsArithmetic intx tx
    → value (min_uint256 intx a b) ≤ value b
min_uint256-le intx tx a b v = elim (Bool-cases (intx.ult b a)) [
  | inl less ↦ rw less (omega arith)
  | inr more ↦ rw more (ltb-false (value b) (value a) (sym (v.ult_value b a) ∙ more))
]

price_sum :
    (base high m s e : ℕ)
    → base ≤ high
    → s ≡ (high + 2 ^ 256 - base) % 2 ^ 256
    → m ≤ s
    → e ≡ (base + m) % 2 ^ 256
    → e ≤ high
price_sum base high m s e h sub l add = omega (arith, sub, add)

effective_gas_price-le :
    (intx : Intx) (block : BlockInfo) (tx : Transaction)
    → IsArithmetic intx tx
    → intx.ult tx.max_gas_price (of_uint64 block.base_fee) ≡ false
    → value (effective_gas_price intx block tx) ≤ value tx.max_gas_price
effective_gas_price-le intx block tx v h =
    let base = of_uint64 block.base_fee in
    let rest = intx.sub tx.max_gas_price base in
    price_sum (value base) (value tx.max_gas_price) (value (priority_gas_price intx block tx))
      (value rest) _ (ltb-false _ (value base) (sym (v.ult_value tx.max_gas_price base) ∙ h))
      (v.sub_value tx.max_gas_price base) (min_uint256-le intx tx tx.max_priority_gas_price rest v)
      (v.add_value base _)

-- The gas `g` at a price `e` of at most `m`, and then the amount `v`, from the balance `b`.
left_over :
    (g e m v b c b' : ℕ)
    → e ≤ m
    → g < 2 ^ 256
    → m < 2 ^ 256
    → v < 2 ^ 256
    → b < 2 ^ 256
    → (g * m + v) % 2 ^ 512 ≤ b
    → c ≡ (g * e) % 2 ^ 256
    → b' ≡ (b + 2 ^ 256 - c) % 2 ^ 256
    → v ≤ b'
left_over g e m v b c b' h hg hm hv hb funded cost sub =
    let cheaper : g * e ≤ g * m = mul-le-mul_left g h in
    let gas_small : g ≤ 2 ^ 256 - 1 = omega arith in
    let price_small : m ≤ 2 ^ 256 - 1 = omega arith in
    let bound1 : g * m ≤ g * (2 ^ 256 - 1) = mul-le-mul_left g price_small in
    let bound2 : g * (2 ^ 256 - 1) ≤ (2 ^ 256 - 1) * (2 ^ 256 - 1) =
      mul-le-mul_right (2 ^ 256 - 1) gas_small in
    sums (g * e) (g * m) cheaper (omega (arith, bound1, bound2)) funded cost
  where
    sums :
        (x y : ℕ)
        → x ≤ y
        → y ≤ (2 ^ 256 - 1) * (2 ^ 256 - 1)
        → (y + v) % 2 ^ 512 ≤ b
        → c ≡ x % 2 ^ 256
        → v ≤ b'
    sums x y l small paid cost = omega (arith, sub, cost)

-- The assertions on the prices hold for an accepted transaction, and the balance that is left when
-- the gas is bought covers the value.
pub validate_transaction-funds :
    (intx : Intx) (acc : Account) (block : BlockInfo) (tx : Transaction) (g : ℤ)
    → IsArithmetic intx tx
    → IsUint256 tx.max_gas_price
    → IsUint256 tx.tx_value
    → IsUint256 acc.balance
    → validate_transaction intx acc block tx ≡ accepted g
    → (is_overpriced intx block tx ≡ false)
      × (intx.ult
            (intx.sub acc.balance (max_cost intx block tx))
            (intx.be_load (intx.be_store tx.tx_value))
          ≡ false)
validate_transaction-funds intx acc block tx g v price amount balance h =
    let (t1, t2, t3, t4, t5, t6, t7, t8, same) = tests_passed intx acc block tx g h in
    let gas = intx.of_int64 tx.gas_limit in
    let effective = effective_gas_price intx block tx in
    let below = effective_gas_price-le intx block tx v t3 in
    let t9 : intx.ult tx.max_gas_price effective ≡ false =
      v.ult_value tx.max_gas_price effective ∙ le-ltb _ _ below in
    let covered =
      left_over (value gas) (value effective) (value tx.max_gas_price) (value tx.tx_value)
        (value acc.balance) _ _ below (value-lt gas (v.of_int64_small tx.gas_limit))
        (value-lt _ price) (value-lt _ amount) (value-lt _ balance) (ltb-false _ _ t7)
        (v.mul_value gas effective) (v.sub_value acc.balance (max_cost intx block tx)) in
    (rw (t3, t1, t9) refl, v.ult_value _ _ ∙ le-ltb _ _ (rw v.value_kept covered))
