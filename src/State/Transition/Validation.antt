-- ===== src/State/Transition/Validation.antt =====
-- Which transactions validate_transaction of test/state/state.cpp accepts.
use zvmone.Prelude.{
  ℕ, ◌+◌, ◌*◌, ◌%◌, ◌^◌, ◌≤◌, ◌≡◌, ◌≢◌, ◌↔◌, refl, sym, ◌∙◌, ==_iff, arith, Bool, true, false, ◌&&◌,
  length, ltb, ◌==◌, if◌then◌else◌, List, [], ◌∷◌,
}
use zvmone.Prelude.Int.{ℤ, pos, ◌≤ℤ◌, ◌-ℤ◌, ltb_ℤ, int_laws}
use zvmone.Uint256.{Uint256, of_uint64, value}
use zvmone.Platform.{Intx}
use zvmone.State.Accounts.{Account, nonce_max}
use zvmone.State.Transition.{
  BlockInfo, Transaction, ErrorCode, Validated, rejected, accepted, is_creation, max_initcode_size,
  compute_tx_intrinsic_cost, validate_transaction,
}

-- What a transaction needs, with the costs as numbers.
pub record IsValid (intx : Intx) (acc : Account) (block : BlockInfo) (tx : Transaction)
    : Type 0 where
  pub tip_covered : value tx.max_priority_gas_price ≤ value tx.max_gas_price
  pub within_block : tx.gas_limit ≤ℤ block.block_gas_limit
  pub base_fee_covered : block.base_fee ≤ value tx.max_gas_price
  pub no_code : acc.code ≡ []
  pub nonce_left : acc.nonce ≢ nonce_max
  pub initcode_fits : is_creation tx.to ≡ true → length tx.tx_input ≤ max_initcode_size
  pub funded :
      (value (intx.of_int64 tx.gas_limit) * value tx.max_gas_price + value tx.tx_value) % 2 ^ 512
      ≤ value acc.balance
  pub intrinsic_covered : pos (compute_tx_intrinsic_cost tx) ≤ℤ tx.gas_limit

-- The tests of the code, in its order.
abbrev tests :
    (b1 b2 b3 b4 b5 b6 b7 b8 : Bool) (e1 e2 e3 e4 e5 e6 e7 e8 : ErrorCode) → ℤ → Validated
tests b1 b2 b3 b4 b5 b6 b7 b8 e1 e2 e3 e4 e5 e6 e7 e8 a =
    if b1
    then rejected e1
    else (if b2
        then rejected e2
        else (if b3
            then rejected e3
            else (if b4
                then rejected e4
                else (if b5
                    then rejected e5
                    else (if b6
                        then rejected e6
                        else (if b7
                            then rejected e7
                            else (if b8 then rejected e8 else accepted a)))))))

all_false :
    (b1 b2 b3 b4 b5 b6 b7 b8 : Bool) (e1 e2 e3 e4 e5 e6 e7 e8 : ErrorCode) (a g : ℤ)
    → tests b1 b2 b3 b4 b5 b6 b7 b8 e1 e2 e3 e4 e5 e6 e7 e8 a ≡ accepted g
    → (b1 ≡ false)
      × (b2 ≡ false)
      × (b3 ≡ false)
      × (b4 ≡ false)
      × (b5 ≡ false)
      × (b6 ≡ false)
      × (b7 ≡ false)
      × (b8 ≡ false)
      × (g ≡ a)
all_false true b2 b3 b4 b5 b6 b7 b8 e1 e2 e3 e4 e5 e6 e7 e8 a g h = absurd cc
all_false false true b3 b4 b5 b6 b7 b8 e1 e2 e3 e4 e5 e6 e7 e8 a g h = absurd cc
all_false false false true b4 b5 b6 b7 b8 e1 e2 e3 e4 e5 e6 e7 e8 a g h = absurd cc
all_false false false false true b5 b6 b7 b8 e1 e2 e3 e4 e5 e6 e7 e8 a g h = absurd cc
all_false false false false false true b6 b7 b8 e1 e2 e3 e4 e5 e6 e7 e8 a g h = absurd cc
all_false false false false false false true b7 b8 e1 e2 e3 e4 e5 e6 e7 e8 a g h = absurd cc
all_false false false false false false false true b8 e1 e2 e3 e4 e5 e6 e7 e8 a g h = absurd cc
all_false false false false false false false false true e1 e2 e3 e4 e5 e6 e7 e8 a g h = absurd cc
all_false false false false false false false false false e1 e2 e3 e4 e5 e6 e7 e8 a g h =
    (refl, refl, refl, refl, refl, refl, refl, refl, cc)

no_code_iff : (xs : List ℕ) → (ltb 0 (length xs) ≡ false) ↔ (xs ≡ [])
no_code_iff [] = ((λ h. refl), λ h. refl)
no_code_iff (x ∷ xs) = ((λ h. absurd (ground arith)), λ h. absurd cc)

pub ltb-false : (a b : ℕ) → ltb a b ≡ false → b ≤ a
ltb-false a b h = ground arith

ltb_ℤ-false : (a b : ℤ) → ltb_ℤ a b ≡ false → b ≤ℤ a
ltb_ℤ-false a b h = ground arith

pub le-ltb : (a b : ℕ) → b ≤ a → ltb a b ≡ false
le-ltb a b h = ground arith

initcode_lem :
    (c : Bool) (n : ℕ) → (c ≡ true → n ≤ max_initcode_size) → (c && ltb max_initcode_size n) ≡ false
initcode_lem true n h = le-ltb max_initcode_size n (h refl)
initcode_lem false n h = refl

initcode_fits_lem :
    (c : Bool) (n : ℕ) → (c && ltb max_initcode_size n) ≡ false → c ≡ true → n ≤ max_initcode_size
initcode_fits_lem true n h e = ltb-false max_initcode_size n h
initcode_fits_lem false n h e = absurd cc

-- What an accepted transaction has passed.
pub tests_passed :
    (intx : Intx) (acc : Account) (block : BlockInfo) (tx : Transaction) (g : ℤ)
    → validate_transaction intx acc block tx ≡ accepted g
    → (intx.ult tx.max_gas_price tx.max_priority_gas_price ≡ false)
      × (ltb_ℤ block.block_gas_limit tx.gas_limit ≡ false)
      × (intx.ult tx.max_gas_price (of_uint64 block.base_fee) ≡ false)
      × (ltb 0 (length acc.code) ≡ false)
      × ((acc.nonce == nonce_max) ≡ false)
      × ((is_creation tx.to && ltb max_initcode_size (length tx.tx_input)) ≡ false)
      × (ltb (value acc.balance) (
            (value (intx.of_int64 tx.gas_limit) * value tx.max_gas_price + value tx.tx_value)
            % 2 ^ 512)
          ≡ false)
      × (ltb_ℤ tx.gas_limit (pos (compute_tx_intrinsic_cost tx)) ≡ false)
      × (g ≡ tx.gas_limit -ℤ pos (compute_tx_intrinsic_cost tx))
unfolding validate_transaction
tests_passed intx acc block tx g h = all_false _ _ _ _ _ _ _ _ _ _ _ _ _ _ _ _ _ g h

pub validate_transaction-gas :
    (intx : Intx) (acc : Account) (block : BlockInfo) (tx : Transaction) (g : ℤ)
    → validate_transaction intx acc block tx ≡ accepted g
    → (g ≡ tx.gas_limit -ℤ pos (compute_tx_intrinsic_cost tx)) × (pos 0 ≤ℤ g)
validate_transaction-gas intx acc block tx g h =
    let (t1, t2, t3, t4, t5, t6, t7, t8, same) = tests_passed intx acc block tx g h in
    let cost = compute_tx_intrinsic_cost tx in
    let covered : pos cost ≤ℤ tx.gas_limit = ltb_ℤ-false tx.gas_limit (pos cost) t8 in
    (same, rw same (omega (int_laws, covered)))

-- With a comparison that is that of numbers, a transaction is accepted with the gas `g` exactly if
-- it passes all of the conditions, with its costs as numbers, and `g` is what its gas limit leaves
-- of the intrinsic cost.
pub validate_transaction-IsValid :
    (intx : Intx) (acc : Account) (block : BlockInfo) (tx : Transaction) (g : ℤ)
    → ((x y : Uint256) → intx.ult x y ≡ ltb (value x) (value y))
    → (validate_transaction intx acc block tx ≡ accepted g)
      ↔ (IsValid intx acc block tx × (g ≡ tx.gas_limit -ℤ pos (compute_tx_intrinsic_cost tx)))
unfolding validate_transaction
validate_transaction-IsValid intx acc block tx g ult =
    let e1 = ult tx.max_gas_price tx.max_priority_gas_price in
    let e3 = ult tx.max_gas_price (of_uint64 block.base_fee) in
    let cost =
      (value (intx.of_int64 tx.gas_limit) * value tx.max_gas_price + value tx.tx_value) % 2 ^ 512 in
    (
      (λ h.
          let (t1, t2, t3, t4, t5, t6, t7, t8, same) = tests_passed intx acc block tx g h in
          (
            record {
              tip_covered = ltb-false _ _ (sym e1 ∙ t1);
              within_block = ground arith;
              base_fee_covered =
                  (let fee = ltb-false _ (value (of_uint64 block.base_fee)) (sym e3 ∙ t3) in
                    omega (arith, fee));
              no_code = (no_code_iff acc.code).0 t4;
              nonce_left = λ e. (let t = (==_iff acc.nonce nonce_max).1 e in cc);
              initcode_fits = initcode_fits_lem (is_creation tx.to) (length tx.tx_input) t6;
              funded = ground arith;
              intrinsic_covered = ground arith;
            },
            same,
          )),
      (λ h.
          let v = h.0 in
          let t1 = e1 ∙ le-ltb _ _ v.tip_covered in
          let fee : value (of_uint64 block.base_fee) ≤ value tx.max_gas_price =
            omega (arith, v.base_fee_covered) in
          let t3 = e3 ∙ le-ltb _ _ fee in
          let t2 : ltb_ℤ block.block_gas_limit tx.gas_limit ≡ false =
            ground (arith, v.within_block) in
          let t4 = (no_code_iff acc.code).1 v.no_code in
          let t5 : (acc.nonce == nonce_max) ≡ false = ground (arith, v.nonce_left) in
          let t6 = initcode_lem (is_creation tx.to) (length tx.tx_input) v.initcode_fits in
          let t7 = le-ltb (value acc.balance) cost v.funded in
          let t8 : ltb_ℤ tx.gas_limit (pos (compute_tx_intrinsic_cost tx)) ≡ false =
            ground (arith, v.intrinsic_covered) in
          rw (t1, t2, t3, t4, t5, t6, t7, t8, h.1) refl),
    )
