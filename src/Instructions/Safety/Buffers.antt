-- ===== src/Instructions/Safety/Buffers.antt =====
-- KECCAK256, the copies into memory, MLOAD to MSTORE8, MSIZE and LOG0 to LOG4.
use zvmone.Prelude.{
  if◌then◌else◌, false, ℕ, zero, suc, ◌+◌, ◌%◌, ◌^◌, ◌≤◌, ◌<◌, ◌≡◌, ◌⊎◌, List, [], ◌∷◌, inl, inr,
  Bool-cases, arith, length, ltb, ◌==◌,
}
use zvmone.Uint256.{Uint256, of_uint64, value}
use zvmone.Memory.{max_buffer_size, size}
use zvmone.Zvmc.{Bytes32}
use zvmone.Platform.{Platform, IsPlatform}
use zvmone.Exec.{Frame, Context, with_stack}
use zvmone.Exec.Rules.{
  IsFrame, Safe, goes, exits, bind-Safe, spend-Safe, require_memory-Safe, require_memory_copy-Safe,
  read_memory-Safe, write_memory-Safe, write_zeros-Safe, with_memory,
}
use zvmone.Exec.HostRules.{access_account-Safe, read_buffer-Safe}
use zvmone.Instructions.Buffers.{
  keccak256, copy_buffer, calldatacopy, codecopy, extcodecopy, returndatacopy, mload, mstore,
  mstore8, msize, pop_topics, log, log_dynamic,
}
use zvmone.Instructions.Safety.Done.{Finishes, Meets, items1, items2, items3, items4}

module _ {H : Type 0} (p : Platform H) (ctx : Context) where
  pub keccak256-Meets : Meets 2 1 (keccak256 p ctx)
  unfolding keccak256
  keccak256-Meets = items2 1 (keccak256 p ctx) (λ a b s n f v h. bind-Safe (
      require_memory_copy-Safe a b _ (ground arith) (λ g m mv l le inside grow. bind-Safe (
        spend-Safe _ _ (ground arith) (λ g' e' l' le'.
          bind-Safe (read_memory-Safe _ _ _ (ground arith) (λ bytes len. goes (ground arith))))))))

  pub msize-Meets : Meets 0 1 (msize p ctx)
  unfolding msize
  msize-Meets n f v h = goes (ground arith)

  pub mload-Meets : Meets 1 1 (mload p ctx)
  unfolding mload
  mload-Meets = items1 1 (mload p ctx) (λ a s n f v h. bind-Safe (
      require_memory-Safe a 32 _ (ground arith) (ground arith) (λ g m mv l le inside grow.
        bind-Safe (read_memory-Safe _ _ _ (ground arith) (λ bytes len. goes (ground arith))))))

  pub mstore-Meets : IsPlatform p → Meets 2 0 (mstore p ctx)
  unfolding mstore
  mstore-Meets w = items2 0 (mstore p ctx) (λ a b s n f v h. bind-Safe (
      require_memory-Safe a 32 _ (ground arith) (ground arith) (λ g m mv l le inside grow.
        write_memory-Safe _ _ _ (ground arith) (ground (arith, w.be_store_length b))
          (λ m' mv' e. ground arith))))

  pub mstore8-Meets : Meets 2 0 (mstore8 p ctx)
  unfolding mstore8
  mstore8-Meets = items2 0 (mstore8 p ctx) (λ a b s n f v h. bind-Safe (
      require_memory-Safe a 1 _ (ground arith) (ground arith) (λ g m mv l le inside grow.
        write_memory-Safe _ _ _ (ground arith) (ground arith) (λ m' mv' e. ground arith))))

  copy_buffer-Meets :
      IsPlatform p
      → (buffer : List ℕ) → length buffer < 2 ^ 63
      → Meets 3 0 (copy_buffer p ctx buffer)
  unfolding copy_buffer
  copy_buffer-Meets w buffer small = items3 0 (copy_buffer p ctx buffer) (λ a b c s n f v h.
      let test = w.ult_value (of_uint64 (length buffer)) b in
      bind-Safe (
        require_memory_copy-Safe a c _ (ground arith) (λ g m mv l le inside grow. bind-Safe (
          spend-Safe _ _ (ground arith) (λ g' e' l' le'. bind-Safe (
            read_buffer-Safe p buffer _ _ _ (ground (arith, test)) (λ bytes len. bind-Safe (
              write_memory-Safe _ _ _ (ground arith) (ground arith) (λ m' mv' e.
                write_zeros-Safe _ _ _ (ground arith) (ground (arith, test))
                  (λ m'' mv'' e''. ground arith))))))))))

  pub calldatacopy-Meets :
      IsPlatform p → length ctx.msg.input < 2 ^ 63 → Meets 3 0 (calldatacopy p ctx)
  unfolding calldatacopy
  calldatacopy-Meets w small = copy_buffer-Meets w ctx.msg.input small

  pub codecopy-Meets : IsPlatform p → length ctx.original_code < 2 ^ 63 → Meets 3 0 (codecopy p ctx)
  unfolding codecopy
  codecopy-Meets w small = copy_buffer-Meets w ctx.original_code small

  pub extcodecopy-Meets : IsPlatform p → Meets 4 0 (extcodecopy p ctx)
  unfolding extcodecopy
  extcodecopy-Meets w = items4 0 (extcodecopy p ctx) (λ x a b c s n f v h. bind-Safe (
      require_memory_copy-Safe a c _ (ground arith) (λ g m mv l le inside grow. bind-Safe (
        spend-Safe _ _ (ground arith) (λ g' e' l' le'. bind-Safe (
          access_account-Safe p _ _ (ground arith) (λ g'' k l'' le''.
            elim (Bool-cases (c.w0 == 0)) [
              | inl nothing ↦ rw nothing (goes (ground arith))
              | inr some_bytes ↦
                  let src =
                    if p.intx.ult (of_uint64 max_buffer_size) b then max_buffer_size else b.w0 in
                  let fits = w.copy_code_length k (p.intx.be_trunc x) src c.w0 in
                  rw some_bytes (
                    bind-Safe (
                      write_memory-Safe _ _ _ (ground arith) (ground (arith, fits)) (λ m' mv' e.
                        write_zeros-Safe _ _ _ (ground arith) (ground (arith, fits))
                          (λ m'' mv'' e''. ground arith))))
            ])))))))

  returned_cases :
      IsPlatform p
      → (a b c : Uint256) (f : Frame H) → IsFrame f
      → (value c ≡ 0) ⊎ ((value a + value c ≤ size f.state.memory) × (value c ≤ max_buffer_size))
      → p.intx.ult (of_uint64 (length f.state.return_data)) b ≡ false
      → ltb (length f.state.return_data) ((b.w0 + c.w0) % 2 ^ 64) ≡ false
      → (c.w0 ≡ 0) ⊎ (b.w0 + c.w0 ≤ length f.state.return_data)
  returned_cases w a b c f v inside t u =
      ground (arith, w.ult_value (of_uint64 (length f.state.return_data)) b, v.returned)

  pub returndatacopy-Meets : IsPlatform p → Meets 3 0 (returndatacopy p ctx)
  unfolding returndatacopy
  returndatacopy-Meets w = items3 0 (returndatacopy p ctx) (λ a b c s n f v h. bind-Safe (
      require_memory_copy-Safe a c _ (ground arith) (λ g m mv l le inside grow.
        elim (Bool-cases (p.intx.ult (of_uint64 (length f.state.return_data)) b)) [
          | inl past ↦ rw past (exits (ground arith))
          | inr before ↦
              rw before
                (elim (Bool-cases (ltb (length f.state.return_data) ((b.w0 + c.w0) % 2 ^ 64))) [
                  | inl long ↦ rw long (exits (ground arith))
                  | inr short ↦ rw short (
                      bind-Safe (
                        spend-Safe _ _ (ground arith) (λ g' e' l' le'. bind-Safe (
                          read_buffer-Safe p _ _ _ _
                            (ground (
                              arith,
                              w.ult_value (of_uint64 (length f.state.return_data)) b,
                              v.returned,
                            ))
                            (λ bytes len.
                              write_memory-Safe _ _ _ (ground arith) (ground arith)
                                (λ m' mv' e. ground arith))))))
                ])
        ])))

  -- `n` items are left under the topics.
  pop_topics-Safe :
      (k n : ℕ) (s : List Uint256) (f : Frame H) {Q : List Bytes32 → Frame H → Type 0}
      → n + k ≤ length s
      → ((topics : List Bytes32) (rest : List Uint256)
          → n ≤ length rest
          → Q topics (with_stack rest f))
      → Safe Q (pop_topics p ctx k (with_stack s f))
  unfolding pop_topics
  pop_topics-Safe zero n s f h q = goes (q [] s (omega arith))
  pop_topics-Safe (suc k) n [] f h q = absurd (omega arith)
  pop_topics-Safe (suc k) n (x ∷ s) f h q =
      bind-Safe (pop_topics-Safe k n s f (omega arith) (λ topics rest b. goes (q _ rest b)))

  log_on :
      (k n : ℕ) (s : List Uint256) (f : Frame H)
      → IsFrame f
      → n + (k + 2) ≤ length s
      → Finishes n f (log_dynamic p ctx k (with_stack s f))
  unfolding log_dynamic
  log_on k n [] f v h = absurd (omega arith)
  log_on k n (a ∷ []) f v h = absurd (omega arith)
  log_on k n (a ∷ b ∷ s) f v h =
      (bind-Safe (
        require_memory_copy-Safe a b _ (ground arith) (λ g m mv l le inside grow. bind-Safe (
          spend-Safe _ _ (ground arith) (λ g' e' l' le'. bind-Safe (
            pop_topics-Safe k n s (record (with_memory f g m) { gas_left = g' }) (omega arith)
              (λ topics rest d.
                bind-Safe
                  (read_memory-Safe _ _ _ (ground arith) (λ bytes len. goes (ground arith))))))))))

  pub log-Safe :
      (k n : ℕ) (f : Frame H)
      → IsFrame f
      → n + (k + 2) ≤ length f.stack
      → Finishes n f (log p ctx k f)
  unfolding log
  log-Safe k n f v h = elim (Bool-cases ctx.msg.is_static) [
    | inl static ↦ rw static (exits (ground arith))
    | inr dynamic ↦ rw dynamic (log_on k n f.stack f v h)
  ]
