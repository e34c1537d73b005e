-- ===== src/Instructions/Arithmetic.antt =====
-- ADD to SIGNEXTEND.
use zvmone.Prelude.{
  ℕ, zero, suc, ◌+◌, ◌-◌, ◌*◌, ◌/◌, ◌%◌, ◌^◌, Bool, not, ltb, if◌then◌else◌, bit_and, bit_or,
}
use zvmone.Prelude.Int.{pos}
use zvmone.Uint256.{Uint256, of_uint64, word, set_word}
use zvmone.Platform.{Platform}
use zvmone.Exec.{Exec, ◌>>=◌, ◌>>◌, pure, pop_item, item, set_item, spend}

-- (uint64_t)(int64_t)(int8_t)b
pub sign_extend_byte : ℕ → ℕ
sign_extend_byte b = let low = b % 256 in if ltb low 128 then low else 2 ^ 64 - 256 + low

-- (uint64_t)((int64_t)x >> k)
pub sar64 : ℕ → ℕ → ℕ
sar64 x k = if ltb x (2 ^ 63) then x / 2 ^ k else 2 ^ 64 - 1 - (2 ^ 64 - 1 - x) / 2 ^ k

-- `for (size_t i = 3; i > sign_word_index; --i) x[i] = sign_ex;`
pub extend_words : ℕ → ℕ → ℕ → Uint256 → Uint256
extend_words zero sign_word_index sign_ex x = x
extend_words (suc i) sign_word_index sign_ex x =
    if ltb sign_word_index (suc i)
    then extend_words i sign_word_index sign_ex (set_word x (suc i) sign_ex)
    else x

-- The value that `signextend` leaves for an `ext` whose low word is `e`, below 31.
pub sign_extended : ℕ → Uint256 → Uint256
sign_extended e x =
    let sign_word_index = e / 8 in
    let sign_byte_index = e % 8 in
    let sign_word = word x sign_word_index in
    let sign_byte_offset = sign_byte_index * 8 in
    let sign_byte = sign_word / 2 ^ sign_byte_offset in
    let sext_byte = sign_extend_byte sign_byte in
    let sext = sext_byte * 2 ^ sign_byte_offset % 2 ^ 64 in
    let sign_mask = (2 ^ 64 - 1) * 2 ^ sign_byte_offset % 2 ^ 64 in
    let value = bit_and sign_word (2 ^ 64 - 1 - sign_mask) in
    let sign_ex = sar64 sext_byte 8 in
    extend_words 3 sign_word_index sign_ex (set_word x sign_word_index (bit_or sext value))

module _ {H : Type 0} (p : Platform H) where
  open p use {intx}

  abbrev pub is_zero : Uint256 → Bool
  is_zero x = intx.equal x (of_uint64 0)

  unfoldable pub add : Exec H (Unit {0})
  add = do x ← pop_item; y ← item 0; set_item 0 (intx.add y x)

  unfoldable pub mul : Exec H (Unit {0})
  mul = do x ← pop_item; y ← item 0; set_item 0 (intx.mul y x)

  unfoldable pub sub : Exec H (Unit {0})
  sub = do x ← item 0; y ← item 1; set_item 1 (intx.sub x y)

  unfoldable pub div : Exec H (Unit {0})
  div = do
    v ← item 1
    x ← item 0
    set_item 1 (if not (is_zero v) then intx.udiv x v else of_uint64 0)

  unfoldable pub sdiv : Exec H (Unit {0})
  sdiv = do
    v ← item 1
    x ← item 0
    set_item 1 (if not (is_zero v) then intx.sdiv x v else of_uint64 0)

  unfoldable pub mod_ : Exec H (Unit {0})
  mod_ = do
    v ← item 1
    x ← item 0
    set_item 1 (if not (is_zero v) then intx.umod x v else of_uint64 0)

  unfoldable pub smod : Exec H (Unit {0})
  smod = do
    v ← item 1
    x ← item 0
    set_item 1 (if not (is_zero v) then intx.srem x v else of_uint64 0)

  unfoldable pub addmod : Exec H (Unit {0})
  addmod = do
    x ← pop_item
    y ← pop_item
    m ← item 0
    set_item 0 (if not (is_zero m) then intx.addmod x y m else of_uint64 0)

  unfoldable pub mulmod : Exec H (Unit {0})
  mulmod = do
    x ← item 0
    y ← item 1
    m ← item 2
    set_item 2 (if not (is_zero m) then intx.mulmod x y m else of_uint64 0)

  unfoldable pub exp : Exec H (Unit {0})
  exp = do
    base ← pop_item
    exponent ← item 0
    spend (pos (intx.count_significant_bytes exponent * 50))
    set_item 0 (intx.exp base exponent)

  unfoldable pub signextend : Exec H (Unit {0})
  signextend = do
    ext ← pop_item
    x ← item 0
    if intx.ult ext (of_uint64 31) then set_item 0 (sign_extended ext.w0 x) else pure tt
