-- ===== src/Instructions/Safety/Environment.antt =====
-- ADDRESS to GASLIMIT, CHAINID, SELFBALANCE and BASEFEE.
use zvmone.Prelude.{◌^◌, ◌<◌, inl, inr, Bool-cases, arith, length}
use zvmone.Uint256.{of_uint64}
use zvmone.Platform.{Platform, IsPlatform}
use zvmone.Exec.{Context}
use zvmone.Exec.Rules.{goes, bind-Safe}
use zvmone.Exec.HostRules.{tx_context-Safe, access_account-Safe, read_buffer-Safe}
use zvmone.Instructions.Environment.{
  address, balance, origin, caller, callvalue, calldataload, calldatasize, codesize, gasprice,
  basefee, extcodesize, returndatasize, extcodehash, blockhash, coinbase, timestamp, number,
  prevrandao, gaslimit, chainid, selfbalance,
}
use zvmone.Instructions.Safety.Done.{Meets, items1}

module _ {H : Type 0} (p : Platform H) (ctx : Context) where
  pub address-Meets : Meets 0 1 (address p ctx)
  unfolding address
  address-Meets n f v h = goes (ground arith)

  pub caller-Meets : Meets 0 1 (caller p ctx)
  unfolding caller
  caller-Meets n f v h = goes (ground arith)

  pub callvalue-Meets : Meets 0 1 (callvalue p ctx)
  unfolding callvalue
  callvalue-Meets n f v h = goes (ground arith)

  pub calldatasize-Meets : Meets 0 1 (calldatasize p ctx)
  unfolding calldatasize
  calldatasize-Meets n f v h = goes (ground arith)

  pub codesize-Meets : Meets 0 1 (codesize p ctx)
  unfolding codesize
  codesize-Meets n f v h = goes (ground arith)

  pub returndatasize-Meets : Meets 0 1 (returndatasize p ctx)
  unfolding returndatasize
  returndatasize-Meets n f v h = goes (ground arith)

  pub selfbalance-Meets : Meets 0 1 (selfbalance p ctx)
  unfolding selfbalance
  selfbalance-Meets n f v h = goes (ground arith)

  pub origin-Meets : Meets 0 1 (origin p ctx)
  unfolding origin
  origin-Meets n f v h = bind-Safe (tx_context-Safe p f (λ tx t. goes (ground arith)))

  pub gasprice-Meets : Meets 0 1 (gasprice p ctx)
  unfolding gasprice
  gasprice-Meets n f v h = bind-Safe (tx_context-Safe p f (λ tx t. goes (ground arith)))

  pub basefee-Meets : Meets 0 1 (basefee p ctx)
  unfolding basefee
  basefee-Meets n f v h = bind-Safe (tx_context-Safe p f (λ tx t. goes (ground arith)))

  pub coinbase-Meets : Meets 0 1 (coinbase p ctx)
  unfolding coinbase
  coinbase-Meets n f v h = bind-Safe (tx_context-Safe p f (λ tx t. goes (ground arith)))

  pub timestamp-Meets : Meets 0 1 (timestamp p ctx)
  unfolding timestamp
  timestamp-Meets n f v h = bind-Safe (tx_context-Safe p f (λ tx t. goes (ground arith)))

  pub number-Meets : Meets 0 1 (number p ctx)
  unfolding number
  number-Meets n f v h = bind-Safe (tx_context-Safe p f (λ tx t. goes (ground arith)))

  pub prevrandao-Meets : Meets 0 1 (prevrandao p ctx)
  unfolding prevrandao
  prevrandao-Meets n f v h = bind-Safe (tx_context-Safe p f (λ tx t. goes (ground arith)))

  pub gaslimit-Meets : Meets 0 1 (gaslimit p ctx)
  unfolding gaslimit
  gaslimit-Meets n f v h = bind-Safe (tx_context-Safe p f (λ tx t. goes (ground arith)))

  pub chainid-Meets : Meets 0 1 (chainid p ctx)
  unfolding chainid
  chainid-Meets n f v h = bind-Safe (tx_context-Safe p f (λ tx t. goes (ground arith)))

  pub balance-Meets : Meets 1 1 (balance p ctx)
  unfolding balance
  balance-Meets = items1 1 (balance p ctx) (λ a s n f v h.
      bind-Safe (access_account-Safe p _ _ (ground arith) (λ g k l m. goes (ground arith))))

  pub extcodesize-Meets : Meets 1 1 (extcodesize p ctx)
  unfolding extcodesize
  extcodesize-Meets = items1 1 (extcodesize p ctx) (λ a s n f v h.
      bind-Safe (access_account-Safe p _ _ (ground arith) (λ g k l m. goes (ground arith))))

  pub extcodehash-Meets : Meets 1 1 (extcodehash p ctx)
  unfolding extcodehash
  extcodehash-Meets = items1 1 (extcodehash p ctx) (λ a s n f v h.
      bind-Safe (access_account-Safe p _ _ (ground arith) (λ g k l m. goes (ground arith))))

  pub blockhash-Meets : Meets 1 1 (blockhash p ctx)
  unfolding blockhash
  blockhash-Meets =
      items1 1 (blockhash p ctx)
        (λ a s n f v h. bind-Safe (tx_context-Safe p _ (λ tx t. goes (ground arith))))

  pub calldataload-Meets :
      IsPlatform p → length ctx.msg.input < 2 ^ 63 → Meets 1 1 (calldataload p ctx)
  unfolding calldataload
  calldataload-Meets w small = items1 1 (calldataload p ctx) (λ a s n f v h.
      let size = length ctx.msg.input in
      let test = w.ult_value (of_uint64 size) a in
      elim (Bool-cases (p.intx.ult (of_uint64 size) a)) [
        | inl past ↦ rw past (goes (ground arith))
        | inr inside ↦ rw inside (
            bind-Safe (
              read_buffer-Safe p ctx.msg.input _ _ _ (ground (arith, test))
                (λ bytes e. goes (ground arith))))
      ])
