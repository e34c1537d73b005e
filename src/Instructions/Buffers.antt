-- ===== src/Instructions/Buffers.antt =====
-- KECCAK256, the copies into memory, MLOAD to MSTORE8, MSIZE, LOG0 to LOG4, RETURN and REVERT.
use zvmone.Prelude.{
  ℕ, zero, suc, ◌+◌, ◌-◌, ◌*◌, ◌%◌, ◌^◌, List, [], ◌∷◌, length, replicate, min, ltb, ◌==◌,
  if◌then◌else◌,
}
use zvmone.Prelude.Int.{pos}
use zvmone.Uint256.{of_uint64}
use zvmone.Memory.{num_words, max_buffer_size, size}
use zvmone.Zvmc.{StatusCode, invalid_memory_access, static_mode_violation, Bytes32}
use zvmone.Platform.{Platform}
use zvmone.Exec.{
  Exec, Context, ◌>>=◌, ◌>>◌, pure, return_with, pop_item, push_item, item, set_item, get_state,
  set_state, set_gas, get_host, set_host, spend, require_memory, require_memory_copy, read_memory,
  write_memory, read_buffer, access_account,
}
use zvmone.Instructions.Environment.{sub_size}

module _ {H : Type 0} (p : Platform H) (ctx : Context) where
  open p use {intx, host}
  open ctx use {msg, original_code}

  unfoldable pub keccak256 : Exec H (Unit {0})
  keccak256 = do
    index ← pop_item
    n ← item 0
    require_memory_copy index n
    let i = index.w0
    let s = n.w0
    spend (pos (num_words s * 6))
    bytes ← read_memory i s
    set_item 0 (intx.be_load (p.keccak256 bytes))

  -- The common body of CALLDATACOPY and CODECOPY: `buffer` is what they copy from.
  unfoldable pub copy_buffer : List ℕ → Exec H (Unit {0})
  copy_buffer buffer = do
    mem_index ← pop_item
    input_index ← pop_item
    n ← pop_item
    require_memory_copy mem_index n
    let dst = mem_index.w0
    let src =
        if intx.ult (of_uint64 (length buffer)) input_index then length buffer else input_index.w0
    let s = n.w0
    let copy_size = min s (sub_size (length buffer) src)
    spend (pos (num_words s * 3))
    bytes ← read_buffer buffer src copy_size
    write_memory dst bytes
    write_memory (dst + copy_size) (replicate (s - copy_size) 0)

  unfoldable pub calldatacopy : Exec H (Unit {0})
  unfolding copy_buffer
  calldatacopy = copy_buffer msg.input

  unfoldable pub codecopy : Exec H (Unit {0})
  unfolding copy_buffer
  codecopy = copy_buffer original_code

  unfoldable pub extcodecopy : Exec H (Unit {0})
  extcodecopy = do
    x ← pop_item
    let addr = intx.be_trunc x
    mem_index ← pop_item
    input_index ← pop_item
    n ← pop_item
    require_memory_copy mem_index n
    let s = n.w0
    spend (pos (num_words s * 3))
    access_account p addr
    h ← get_host
    let src =
        if intx.ult (of_uint64 max_buffer_size) input_index then max_buffer_size else input_index.w0
    let dst = mem_index.w0
    let bytes = host.copy_code h addr src s
    if s == 0 then pure tt else do
      write_memory dst bytes
      write_memory (dst + length bytes) (replicate (s - length bytes) 0)

  unfoldable pub returndatacopy : Exec H (Unit {0})
  returndatacopy = do
    mem_index ← pop_item
    input_index ← pop_item
    n ← pop_item
    require_memory_copy mem_index n
    state ← get_state
    let dst = mem_index.w0
    let s = n.w0
    let available = length state.return_data
    let src = input_index.w0
    if intx.ult (of_uint64 available) input_index
        then return_with invalid_memory_access
        else if ltb available ((src + s) % 2 ^ 64)
        then return_with invalid_memory_access
        else do
          spend (pos (num_words s * 3))
          bytes ← read_buffer state.return_data src s
          write_memory dst bytes

  unfoldable pub mload : Exec H (Unit {0})
  mload = do
    index ← item 0
    require_memory index 32
    bytes ← read_memory index.w0 32
    set_item 0 (intx.be_load bytes)

  unfoldable pub mstore : Exec H (Unit {0})
  mstore = do
    index ← pop_item
    value ← pop_item
    require_memory index 32
    write_memory index.w0 (intx.be_store value)

  unfoldable pub mstore8 : Exec H (Unit {0})
  mstore8 = do
    index ← pop_item
    value ← pop_item
    require_memory index 1
    write_memory index.w0 (value.w0 % 256 ∷ [])

  unfoldable pub msize : Exec H (Unit {0})
  msize = do state ← get_state; push_item (of_uint64 (size state.memory))

  -- `for (auto& topic : topics) topic = store(stack.pop());`
  unfoldable pub pop_topics : ℕ → Exec H (List Bytes32)
  pop_topics zero = pure []
  pop_topics (suc n) = do x ← pop_item; topics ← pop_topics n; pure (intx.be_store x ∷ topics)

  -- From the static mode check on.
  unfoldable pub log_dynamic : ℕ → Exec H (Unit {0})
  unfolding pop_topics
  log_dynamic num_topics = do
    offset ← pop_item
    n ← pop_item
    require_memory_copy offset n
    let o = offset.w0
    let s = n.w0
    spend (pos (s * 8))
    topics ← pop_topics num_topics
    bytes ← read_memory o s
    h ← get_host
    set_host (host.emit_log h msg.recipient bytes topics)

  unfoldable pub log : ℕ → Exec H (Unit {0})
  unfolding log_dynamic
  log num_topics =
      if msg.is_static
      then (do set_gas (pos 0); return_with static_mode_violation)
      else log_dynamic num_topics

  -- `return_impl`: the status that ends the execution.
  unfoldable pub return_impl : StatusCode → Exec H StatusCode
  return_impl status_code = do
    offset ← item 0
    n ← item 1
    require_memory_copy offset n
    state ← get_state
    set_state (record state {
      output_size = n.w0;
      output_offset = if n.w0 == 0 then state.output_offset else offset.w0;
    })
    pure status_code
