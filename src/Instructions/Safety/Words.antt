-- ===== src/Instructions/Safety/Words.antt =====
-- ADD to SAR (lib/zvmone/instructions.hpp).
use zvmone.Prelude.{inl, inr, Bool-cases, arith}
use zvmone.Uint256.{of_uint64}
use zvmone.Platform.{Platform}
use zvmone.Exec.Rules.{goes, bind-Safe, spend-Safe}
use zvmone.Instructions.Arithmetic.{
  add, mul, sub, div, sdiv, mod_, smod, addmod, mulmod, exp, signextend,
}
use zvmone.Instructions.Bitwise.{
  lt, gt, slt, sgt, eq, iszero, and_, or_, xor_, not_, byte, shl, shr, sar,
}
use zvmone.Instructions.Safety.Done.{Meets, items1, items2, items3}

module _ {H : Type 0} (p : Platform H) where
  pub add-Meets : Meets 2 1 (add p)
  unfolding add
  add-Meets = items2 1 (add p) (λ a b s n f v h. goes (ground arith))

  pub mul-Meets : Meets 2 1 (mul p)
  unfolding mul
  mul-Meets = items2 1 (mul p) (λ a b s n f v h. goes (ground arith))

  pub lt-Meets : Meets 2 1 (lt p)
  unfolding lt
  lt-Meets = items2 1 (lt p) (λ a b s n f v h. goes (ground arith))

  pub gt-Meets : Meets 2 1 (gt p)
  unfolding gt
  gt-Meets = items2 1 (gt p) (λ a b s n f v h. goes (ground arith))

  pub slt-Meets : Meets 2 1 (slt p)
  unfolding slt
  slt-Meets = items2 1 (slt p) (λ a b s n f v h. goes (ground arith))

  pub sgt-Meets : Meets 2 1 (sgt p)
  unfolding sgt
  sgt-Meets = items2 1 (sgt p) (λ a b s n f v h. goes (ground arith))

  pub and_-Meets : Meets 2 1 (and_ p)
  unfolding and_
  and_-Meets = items2 1 (and_ p) (λ a b s n f v h. goes (ground arith))

  pub or_-Meets : Meets 2 1 (or_ p)
  unfolding or_
  or_-Meets = items2 1 (or_ p) (λ a b s n f v h. goes (ground arith))

  pub xor_-Meets : Meets 2 1 (xor_ p)
  unfolding xor_
  xor_-Meets = items2 1 (xor_ p) (λ a b s n f v h. goes (ground arith))

  pub byte-Meets : Meets 2 1 (byte p)
  unfolding byte
  byte-Meets = items2 1 (byte p) (λ a b s n f v h. goes (ground arith))

  pub shl-Meets : Meets 2 1 (shl p)
  unfolding shl
  shl-Meets = items2 1 (shl p) (λ a b s n f v h. goes (ground arith))

  pub shr-Meets : Meets 2 1 (shr p)
  unfolding shr
  shr-Meets = items2 1 (shr p) (λ a b s n f v h. goes (ground arith))

  pub sar-Meets : Meets 2 1 (sar p)
  unfolding sar
  sar-Meets = items2 1 (sar p) (λ a b s n f v h. goes (ground arith))

  pub sub-Meets : Meets 2 2 (sub p)
  unfolding sub
  sub-Meets = items2 2 (sub p) (λ a b s n f v h. goes (ground arith))

  pub div-Meets : Meets 2 2 (div p)
  unfolding div
  div-Meets = items2 2 (div p) (λ a b s n f v h. goes (ground arith))

  pub sdiv-Meets : Meets 2 2 (sdiv p)
  unfolding sdiv
  sdiv-Meets = items2 2 (sdiv p) (λ a b s n f v h. goes (ground arith))

  pub mod_-Meets : Meets 2 2 (mod_ p)
  unfolding mod_
  mod_-Meets = items2 2 (mod_ p) (λ a b s n f v h. goes (ground arith))

  pub smod-Meets : Meets 2 2 (smod p)
  unfolding smod
  smod-Meets = items2 2 (smod p) (λ a b s n f v h. goes (ground arith))

  pub eq-Meets : Meets 2 2 (eq p)
  unfolding eq
  eq-Meets = items2 2 (eq p) (λ a b s n f v h. goes (ground arith))

  pub iszero-Meets : Meets 1 1 (iszero p)
  unfolding iszero
  iszero-Meets = items1 1 (iszero p) (λ a s n f v h. goes (ground arith))

  pub not_-Meets : Meets 1 1 (not_ p)
  unfolding not_
  not_-Meets = items1 1 (not_ p) (λ a s n f v h. goes (ground arith))

  pub addmod-Meets : Meets 3 1 (addmod p)
  unfolding addmod
  addmod-Meets = items3 1 (addmod p) (λ a b c s n f v h. goes (ground arith))

  pub mulmod-Meets : Meets 3 3 (mulmod p)
  unfolding mulmod
  mulmod-Meets = items3 3 (mulmod p) (λ a b c s n f v h. goes (ground arith))

  pub exp-Meets : Meets 2 1 (exp p)
  unfolding exp
  exp-Meets =
      items2 1 (exp p) (λ a b s n f v h.
        bind-Safe (spend-Safe _ _ (ground arith) (λ g e l m. goes (ground arith))))

  pub signextend-Meets : Meets 2 1 (signextend p)
  unfolding signextend
  signextend-Meets = items2 1 (signextend p) (λ a b s n f v h.
      elim (Bool-cases (p.intx.ult a (of_uint64 31))) [
        | inl e ↦ rw e (goes (ground arith))
        | inr e ↦ rw e (goes (ground arith))
      ])
