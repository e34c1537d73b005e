-- ===== src/Instructions/Safety/Creations.antt =====
-- The gas and the stack of CREATE and CREATE2 (lib/zvmone/instructions_calls.cpp).
use zvmone.Prelude.{
  ℕ, ◌+◌, ◌≤◌, ◌≡◌, ◌⊎◌, refl, not, ◌&&◌, List, [], ◌∷◌, inl, inr, Bool-cases, arith, length, ltb,
  leb,
}
use zvmone.Prelude.Int.{ℤ, pos, ◌-ℤ◌, ◌≤ℤ◌}
use zvmone.Uint256.{Uint256, of_uint64}
use zvmone.Memory.{size}
use zvmone.Zvmc.{is_success}
use zvmone.Platform.{Platform, IsPlatform}
use zvmone.Exec.{Frame, Context, with_stack}
use zvmone.Exec.Rules.{
  IsFrame, goes, exits, bind-Safe, weaken-Safe, spend-Safe, require_memory_copy-Safe,
  read_memory-Safe,
}
use zvmone.Instructions.Calls.{
  CreateOp, by_create, by_create2, div64, clear_return_data, create_message, create_charged,
  create_operands, create_dynamic, create_impl,
}
use zvmone.Instructions.Safety.Done.{Finishes, Meets, items3, items4}
use zvmone.Instructions.Safety.Calls.{call_host-Safe}

module _ {H : Type 0} (p : Platform H) (w : IsPlatform p) (ctx : Context) where
  create_gas-bounds : (g : ℤ) → pos 0 ≤ℤ g → (pos 0 ≤ℤ g -ℤ div64 g) × (g -ℤ div64 g ≤ℤ g)
  unfolding ◌-ℤ◌
  create_gas-bounds g h = ground arith

  create_message-gas :
      (op : CreateOp) (u salt : Uint256) (input : List ℕ) (g : ℤ)
      → (create_message p ctx op u salt input g).gas ≡ g
  unfolding create_message
  create_message-gas op u salt input g = refl

  create_charged-Safe :
      (op : CreateOp) (u salt : Uint256) (i n : ℕ) (k : ℕ) (x : Uint256) (s : List Uint256)
      (f : Frame H)
      → IsFrame f
      → k ≤ length s
      → (n ≡ 0) ⊎ (i + n ≤ size f.state.memory)
      → Finishes (k + 1) f (create_charged p ctx op u salt i n (with_stack (x ∷ s) f))
  unfolding create_charged
  create_charged-Safe op u salt i n k x s f v b inside = bind-Safe (
      spend-Safe _ _ (ground arith) (λ g e l m.
        let f1 : Frame H = record f { gas_left = g } in
        let bounds = create_gas-bounds g l in
        elim (Bool-cases (leb 1024 ctx.msg.depth)) [
          | inl deep ↦ rw deep (goes (ground arith))
          | inr shallow ↦
              rw shallow
                (elim (Bool-cases (
                  not (p.intx.equal u (of_uint64 0))
                  && p.intx.ult (p.intx.be_load (p.host.get_balance f.state.host ctx.msg.recipient))
                      u)) [
                        | inl poor ↦ rw poor (goes (ground arith))
                        | inr rich ↦ rw rich (
                            bind-Safe (
                              read_memory-Safe i n _ inside (λ bytes len.
                                let same = create_message-gas op u salt bytes (g -ℤ div64 g) in
                                bind-Safe (
                                  call_host-Safe p w ctx
                                    (create_message p ctx op u salt bytes (g -ℤ div64 g))
                                    (with_stack (x ∷ s) f1) (ground arith) (rw same bounds.0)
                                    (rw same bounds.1)
                                    (λ r g' refund h' gl gu small.
                                      elim (Bool-cases (is_success r.status_code)) [
                                        | inl made ↦ rw made (goes (ground arith))
                                        | inr failed ↦ rw failed (goes (ground arith))
                                      ])))))
                      ])
        ]))

  create_operands-Safe :
      (op : CreateOp) (u a b salt : Uint256) (k : ℕ) (s : List Uint256) (f : Frame H)
      → IsFrame f
      → k ≤ length s
      → Finishes (k + 1) f (create_operands p ctx op u a b salt (with_stack s f))
  unfolding create_operands clear_return_data
  create_operands-Safe op u a b salt k s f v h = bind-Safe (
      require_memory_copy-Safe a b _ (ground arith) (λ g m mv l le inside grow.
        elim (Bool-cases (ltb 0xc000 b.w0)) [
          | inl long ↦ rw long (exits (ground arith))
          | inr short ↦ rw short (
              let f1 : Frame H = record f {
                gas_left = g;
                state = record (f.state) { return_data = []; memory = m };
              } in
              weaken-Safe
                (create_charged-Safe op u salt a.w0 b.w0 k (of_uint64 0) s f1 (ground arith) h
                  (ground arith))
                (λ x f' done. ground arith))
        ]))

  create_dynamic-Meets : Meets 3 1 (create_dynamic p ctx by_create)
  unfolding create_dynamic
  create_dynamic-Meets =
      items3 1 (create_dynamic p ctx by_create)
        (λ u a b s n f v h. create_operands-Safe by_create u a b (of_uint64 0) n s f v h)

  pub create-Meets : Meets 3 1 (create_impl p ctx by_create)
  unfolding create_impl
  create-Meets n f v h = elim (Bool-cases ctx.msg.is_static) [
    | inl static ↦ rw static (exits (ground arith))
    | inr dynamic ↦ simp dynamic (create_dynamic-Meets n f v h)
  ]

  create2_dynamic-Meets : Meets 4 1 (create_dynamic p ctx by_create2)
  unfolding create_dynamic
  create2_dynamic-Meets =
      items4 1 (create_dynamic p ctx by_create2)
        (λ u a b salt s n f v h. create_operands-Safe by_create2 u a b salt n s f v h)

  pub create2-Meets : Meets 4 1 (create_impl p ctx by_create2)
  unfolding create_impl
  create2-Meets n f v h = elim (Bool-cases ctx.msg.is_static) [
    | inl static ↦ rw static (exits (ground arith))
    | inr dynamic ↦ simp dynamic (create2_dynamic-Meets n f v h)
  ]
