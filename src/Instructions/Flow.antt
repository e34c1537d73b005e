-- ===== src/Instructions/Flow.antt =====
-- POP, JUMPDEST, STOP, INVALID, JUMP, JUMPI, PC, GAS and PUSH0 to SWAP16.
use zvmone.Prelude.{
  ℕ, zero, suc, ◌+◌, ◌-◌, ◌*◌, ◌/◌, ◌%◌, ◌^◌, false, not, ◌||◌, Option, none, some, List, length,
  get_or, ◌==◌, if◌then◌else◌,
}
use zvmone.Uint256.{Uint256, of_uint64, set_word}
use zvmone.Zvmc.{StatusCode, bad_jump_destination}
use zvmone.Platform.{Platform, Intx}
use zvmone.Exec.{
  Exec, Context, ◌>>=◌, ◌>>◌, pure, pop_item, push_item, item, set_item, get_state, set_state,
  get_gas, read_buffer,
}

module _ {H : Type 0} where
  -- `noop`, also `pop` and `jumpdest`
  unfoldable pub noop : Exec H (Unit {0})
  noop = pure tt

  -- `stop_impl`, of `stop` and `invalid`
  unfoldable pub stop_impl : StatusCode → Exec H StatusCode
  stop_impl status = pure status

  unfoldable pub push0 : Exec H (Unit {0})
  push0 = push_item (of_uint64 0)

  unfoldable pub dup : ℕ → Exec H (Unit {0})
  dup n = do x ← item (n - 1); push_item x

  unfoldable pub swap : ℕ → Exec H (Unit {0})
  swap n = do a ← item n; t ← item 0; set_item 0 a; set_item n t

-- `load_partial_push_data<Len>` reads up to 3 bytes more than it uses.
unfoldable pub load_partial_push_data : {H : Type 0} → Intx → List ℕ → ℕ → ℕ → Exec H ℕ
load_partial_push_data intx code len i =
    if len == 1
    then (do bytes ← read_buffer code i 1; pure (intx.be_load_uint bytes))
    else if len == 2
    then (do bytes ← read_buffer code i 2; pure (intx.be_load_uint bytes))
    else if len == 3
    then (do bytes ← read_buffer code i 4; pure (intx.be_load_uint bytes / 2 ^ 8))
    else if len == 4
    then (do bytes ← read_buffer code i 4; pure (intx.be_load_uint bytes))
    else (do bytes ← read_buffer code i 8; pure (intx.be_load_uint bytes / 2 ^ (8 * (8 - len))))

-- `for (i = 0; i < num_full_words; ++i) r[num_full_words - 1 - i] = load(data), data += 8;`, on the
-- number of words left.
unfoldable pub load_full_words : {H : Type 0} → Intx → List ℕ → ℕ → ℕ → Uint256 → Exec H Uint256
load_full_words intx code zero i r = pure r
load_full_words intx code (suc left) i r = do
  bytes ← read_buffer code i 8
  load_full_words intx code left (i + 8) (set_word r left (intx.be_load_uint bytes))

-- The word that `push<Len>` reads from the code at `i`.
unfoldable pub push_data : {H : Type 0} → Intx → List ℕ → ℕ → ℕ → Exec H Uint256
unfolding load_partial_push_data load_full_words
push_data intx code len i =
    let num_full_words = len / 8 in
    let num_partial_bytes = len % 8 in
    if num_partial_bytes == 0 then load_full_words intx code num_full_words i (of_uint64 0) else do
      w ← load_partial_push_data intx code num_partial_bytes i
      load_full_words intx code num_full_words (i + num_partial_bytes)
          (set_word (of_uint64 0) num_full_words w)

module _ {H : Type 0} (p : Platform H) (ctx : Context) where
  open p use {intx}
  open ctx use {jumpdest_map, padded_code}

  -- A position in the code; `none` for a null pointer.
  unfoldable pub jump_impl : Uint256 → Exec H (Option ℕ)
  jump_impl dst = do
    state ← get_state
    let is_bad =
        not (intx.ult dst (of_uint64 (length jumpdest_map)))
        || not (get_or jumpdest_map dst.w0 false)
    if is_bad
        then (do set_state (record state { status = bad_jump_destination }); pure none)
        else pure (some dst.w0)

  unfoldable pub jump : ℕ → Exec H (Option ℕ)
  unfolding jump_impl
  jump position = do dst ← pop_item; jump_impl dst

  unfoldable pub jumpi : ℕ → Exec H (Option ℕ)
  unfolding jump_impl
  jumpi position = do
    dst ← pop_item
    condition ← pop_item
    if not (intx.equal condition (of_uint64 0)) then jump_impl dst else pure (some (position + 1))

  unfoldable pub pc : ℕ → Exec H (Option ℕ)
  pc position = do push_item (of_uint64 position); pure (some (position + 1))

  unfoldable pub gas : Exec H (Unit {0})
  gas = do gas_left ← get_gas; push_item (intx.of_int64 gas_left)

  unfoldable pub push : ℕ → ℕ → Exec H (Option ℕ)
  unfolding push_data
  push len position = do
    x ← push_data intx padded_code len (position + 1)
    push_item x
    pure (some (position + (len + 1)))
