-- ===== src/Instructions/Bitwise.antt =====
-- LT to SAR.
use zvmone.Prelude.{ℕ, ◌-◌, ◌*◌, ◌/◌, ◌%◌, ◌^◌, Bool, leb, if◌then◌else◌, bit_and}
use zvmone.Uint256.{Uint256, of_uint64, word}
use zvmone.Platform.{Platform}
use zvmone.Exec.{Exec, ◌>>=◌, pop_item, item, set_item}

-- The conversion of a bool.
abbrev pub of_bool : Bool → Uint256
of_bool b = of_uint64 (if b then 1 else 0)

-- The byte of `x` that BYTE takes at an `n` that is below 32 (`n_valid`) or not.
unfoldable pub byte_at : Bool → ℕ → Uint256 → ℕ
byte_at n_valid n0 x =
    let byte_mask = if n_valid then 0xff else 0 in
    let index = 31 - n0 % 32 in
    let byte_index = index % 8 in bit_and (word x (index / 8) / 2 ^ (byte_index * 8)) byte_mask

module _ {H : Type 0} (p : Platform H) where
  open p use {intx}

  unfoldable pub lt : Exec H (Unit {0})
  lt = do x ← pop_item; y ← item 0; set_item 0 (of_bool (intx.ult x y))

  unfoldable pub gt : Exec H (Unit {0})
  gt = do x ← pop_item; y ← item 0; set_item 0 (of_bool (intx.ult y x))

  unfoldable pub slt : Exec H (Unit {0})
  slt = do x ← pop_item; y ← item 0; set_item 0 (of_bool (intx.slt x y))

  unfoldable pub sgt : Exec H (Unit {0})
  sgt = do x ← pop_item; y ← item 0; set_item 0 (of_bool (intx.slt y x))

  unfoldable pub eq : Exec H (Unit {0})
  eq = do x ← item 0; y ← item 1; set_item 1 (of_bool (intx.equal x y))

  unfoldable pub iszero : Exec H (Unit {0})
  iszero = do x ← item 0; set_item 0 (of_bool (intx.equal x (of_uint64 0)))

  unfoldable pub and_ : Exec H (Unit {0})
  and_ = do x ← pop_item; y ← item 0; set_item 0 (intx.and_ y x)

  unfoldable pub or_ : Exec H (Unit {0})
  or_ = do x ← pop_item; y ← item 0; set_item 0 (intx.or_ y x)

  unfoldable pub xor_ : Exec H (Unit {0})
  xor_ = do x ← pop_item; y ← item 0; set_item 0 (intx.xor_ y x)

  unfoldable pub not_ : Exec H (Unit {0})
  not_ = do x ← item 0; set_item 0 (intx.not_ x)

  unfoldable pub byte : Exec H (Unit {0})
  byte = do
    n ← pop_item
    x ← item 0
    set_item 0 (of_uint64 (byte_at (intx.ult n (of_uint64 32)) n.w0 x))

  unfoldable pub shl : Exec H (Unit {0})
  shl = do y ← pop_item; x ← item 0; set_item 0 (intx.shl x y)

  unfoldable pub shr : Exec H (Unit {0})
  shr = do y ← pop_item; x ← item 0; set_item 0 (intx.shr x y)

  unfoldable pub sar : Exec H (Unit {0})
  sar = do
    y ← pop_item
    x ← item 0
    let is_neg = leb (2 ^ 63) x.w3
    let sign_mask = if is_neg then intx.not_ (of_uint64 0) else of_uint64 0
    let mask_shift = if intx.ult y (of_uint64 256) then 256 - y.w0 else 0
    set_item 0 (intx.or_ (intx.shr x y) (intx.shl_by sign_mask mask_shift))
