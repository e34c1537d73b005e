-- ===== src/Instructions/Safety/Calls.antt =====
-- The gas and the stack of CALL, DELEGATECALL and STATICCALL (lib/zvmone/instructions_calls.cpp).
use zvmone.Prelude.{
  ℕ, ◌+◌, ◌-◌, ◌^◌, ◌≤◌, ◌<◌, ◌≡◌, ◌⊎◌, refl, Bool, true, false, not, ◌&&◌, List, [], ◌∷◌, inl, inr,
  ap, Bool-cases, arith, length, min, take, length-take, leb, if◌then◌else◌,
}
use zvmone.Prelude.Int.{ℤ, pos, ◌+ℤ◌, ◌-ℤ◌, ◌≤ℤ◌, int_laws, pos_part, neg_part}
use zvmone.Uint256.{Uint256, of_uint64, value}
use zvmone.Memory.{max_buffer_size, size}
use zvmone.Zvmc.{is_success, Message, CallResult, Address}
use zvmone.Platform.{Platform, IsPlatform}
use zvmone.Exec.{Frame, Context, with_stack}
use zvmone.Exec.Rules.{
  IsFrame, Safe, goes, exits, bind-Safe, weaken-Safe, spend-Safe, require_memory_copy-Safe,
  read_memory-Safe, write_memory-Safe,
}
use zvmone.Exec.HostRules.{access_account-Safe}
use zvmone.Instructions.Calls.{
  CallOp, by_call, by_delegatecall, by_staticcall, is_call, call_gas, clear_return_data, call_host,
  call_message, call_execute, call_charged, call_operands, call_impl,
}
use zvmone.Instructions.Safety.Done.{Finishes, Meets, items6, items7}

module _ {H : Type 0} (p : Platform H) (w : IsPlatform p) (ctx : Context) where
  -- For a platform that keeps its laws, from gas that is not negative a call asks for an amount
  -- that is not negative and at most the gas left.
  pub call_gas-bounds :
      (gas : Uint256) (g : ℤ)
      → pos 0 ≤ℤ g
      → (pos 0 ≤ℤ call_gas p.intx gas g) × (call_gas p.intx gas g ≤ℤ g)
  unfolding call_gas ◌-ℤ◌
  call_gas-bounds gas g h =
      ground
        (arith, w.ult_value gas (p.intx.of_int64 (pos (2 ^ 63 - 1))), w.of_int64_value (2 ^ 63 - 1))

  pub call_host-Safe :
      (m : Message) {Q : CallResult → Frame H → Type 0} (f : Frame H)
      → IsFrame f
      → pos 0 ≤ℤ m.gas
      → m.gas ≤ℤ f.gas_left
      → ((r : CallResult) (g refund : ℤ) (h : H)
          → pos 0 ≤ℤ g
          → g ≤ℤ f.gas_left
          → length r.output < 2 ^ 63
          → Q r (record f {
            gas_left = g;
            state = record (f.state) { host = h; return_data = r.output; gas_refund = refund };
          }))
      → Safe Q (call_host p ctx m f)
  unfolding call_host
  call_host-Safe m f v l u q =
      let law = w.call_gas f.state.host m l in
      goes (q _ _ _ _ (omega int_laws) (omega int_laws) (w.call_output f.state.host m))

  call_execute-Safe :
      (m : Message) (offset n : Uint256) (k : ℕ) (x : Uint256) (s : List Uint256) (f : Frame H)
      → IsFrame f
      → pos 0 ≤ℤ m.gas
      → m.gas ≤ℤ f.gas_left
      → k ≤ length s
      → (value n ≡ 0)
        ⊎ ((value offset + value n ≤ size f.state.memory) × (value n ≤ max_buffer_size))
      → Finishes (k + 1) f (call_execute p ctx m offset n (with_stack (x ∷ s) f))
  unfolding call_execute
  call_execute-Safe m offset n k x s f v l u b inside = bind-Safe (
      call_host-Safe m (with_stack (x ∷ s) f) (ground arith) l u (λ r g refund h gl gu small.
        let f' : Frame H = record f {
          stack = of_uint64 (if is_success r.status_code then 1 else 0) ∷ s;
          gas_left = g;
          state = record (f.state) { host = h; return_data = r.output; gas_refund = refund };
        } in
        write_memory-Safe offset.w0 (take (min n.w0 (length r.output)) r.output) f' (ground arith)
          (ground (arith, length-take (min n.w0 (length r.output)) r.output))
          (λ mm mv e. ground arith)))

  paid_above :
      (l g g' : ℤ) (fee c stipend : ℕ)
      → g ≡ l -ℤ pos (fee + c)
      → stipend ≤ fee
      → g' ≤ℤ g +ℤ pos stipend
      → g' ≤ℤ l
  paid_above l g g' fee c stipend e low h = omega (int_laws, ap pos_part e, ap neg_part e)

  -- The charge for a value covers the stipend.
  stipend_paid :
      (l g g' : ℤ) (c : ℕ) (has_value : Bool)
      → g ≡ l -ℤ pos ((if has_value then 9000 else 0) + c)
      → g' ≤ℤ g +ℤ pos (if has_value then 2300 else 0)
      → g' ≤ℤ l
  stipend_paid l g g' c true e h = paid_above l g g' 9000 c 2300 e (omega arith) h
  stipend_paid l g g' c false e h = paid_above l g g' 0 c 0 e (omega arith) h

  call_message-gas :
      (op : CallOp) (dst : Address) (u : Uint256) (input : List ℕ) (g : ℤ)
      → (call_message p ctx op dst u input g).gas ≡ g
  unfolding call_message
  call_message-gas op dst u input g = refl

  -- For a platform that keeps its laws, a CALL, DELEGATECALL or STATICCALL on a valid frame with
  -- its output range checked never faults from its charge for the value on. It fails, or leaves a
  -- valid frame with no more gas than before, the stipend included.
  pub call_charged-Safe :
      (op : CallOp) (gas : Uint256) (dst : Address) (u : Uint256) (input : List ℕ)
      (offset n : Uint256) (k : ℕ) (x : Uint256) (s : List Uint256) (f : Frame H)
      → IsFrame f
      → k ≤ length s
      → (value n ≡ 0)
        ⊎ ((value offset + value n ≤ size f.state.memory) × (value n ≤ max_buffer_size))
      → Finishes (k + 1) f (call_charged p ctx op gas dst u input offset n (with_stack (x ∷ s) f))
  unfolding call_charged
  call_charged-Safe op gas dst u input offset n k x s f v b inside =
      let has_value = not (p.intx.equal u (of_uint64 0)) in
      let stipend : ℕ = if has_value then 2300 else 0 in
      bind-Safe (
        spend-Safe _ _ (ground arith) (λ g e l m.
          let bounds = call_gas-bounds gas g l in
          let paid = stipend_paid f.gas_left g (g +ℤ pos stipend) _ has_value e (omega arith) in
          let asked : ℤ = call_gas p.intx gas g +ℤ pos stipend in
          let left : pos 0 ≤ℤ g +ℤ pos stipend = omega int_laws in
          let same = call_message-gas op dst u input asked in
          elim (Bool-cases (leb 1024 ctx.msg.depth)) [
            | inl deep ↦ rw deep (goes (ground arith))
            | inr shallow ↦
                rw shallow
                  (elim (Bool-cases (
                    has_value
                    && p.intx.ult
                        (p.intx.be_load (p.host.get_balance f.state.host ctx.msg.recipient)) u)) [
                          | inl poor ↦ rw poor (goes (ground arith))
                          | inr rich ↦ rw rich (
                              weaken-Safe
                                (call_execute-Safe (call_message p ctx op dst u input asked) offset
                                  n k x s (record f { gas_left = g +ℤ pos stipend }) (ground arith)
                                  (rw same (omega int_laws)) (rw same (omega int_laws)) b inside)
                                (λ a f' d. ground arith))
                        ])
          ]))

  call_operands-Safe :
      (op : CallOp) (gas : Uint256) (dst : Address) (u a b c d : Uint256) (k : ℕ) (s : List Uint256)
      (f : Frame H)
      → IsFrame f
      → k ≤ length s
      → Finishes (k + 1) f (call_operands p ctx op gas dst u a b c d (with_stack s f))
  unfolding call_operands clear_return_data
  call_operands-Safe op gas dst u a b c d k s f v h =
      let has_value = not (p.intx.equal u (of_uint64 0)) in
      bind-Safe (
        access_account-Safe p dst _ (ground arith) (λ g h' l m. bind-Safe (
          require_memory_copy-Safe a b _ (ground arith) (λ g1 m1 v1 l1 le1 i1 s1. bind-Safe (
            require_memory_copy-Safe c d _ (ground arith) (λ g2 m2 v2 l2 le2 i2 s2. bind-Safe (
              read_memory-Safe _ _ _ (ground arith) (λ bytes len.
                elim (Bool-cases (is_call op && has_value && ctx.msg.is_static)) [
                  | inl static ↦ rw static (exits (ground arith))
                  | inr dynamic ↦ rw dynamic (
                      let f2 : Frame H = record f {
                        gas_left = g2;
                        state = record (f.state) { host = h'; return_data = []; memory = m2 };
                      } in
                      weaken-Safe
                        (call_charged-Safe op gas dst u bytes c d k (of_uint64 0) s f2
                          (ground arith) h i2)
                        (λ x f' done. ground arith))
                ]))))))))

  pub call-Meets : Meets 7 1 (call_impl p ctx by_call)
  unfolding call_impl
  call-Meets = items7 1 (call_impl p ctx by_call) (λ g x u a b c d s n f v h.
      call_operands-Safe by_call g (p.intx.be_trunc x) u a b c d n s f v h)

  pub delegatecall-Meets : Meets 6 1 (call_impl p ctx by_delegatecall)
  unfolding call_impl
  delegatecall-Meets = items6 1 (call_impl p ctx by_delegatecall) (λ g x a b c d s n f v h.
      call_operands-Safe by_delegatecall g (p.intx.be_trunc x) (of_uint64 0) a b c d n s f v h)

  pub staticcall-Meets : Meets 6 1 (call_impl p ctx by_staticcall)
  unfolding call_impl
  staticcall-Meets = items6 1 (call_impl p ctx by_staticcall) (λ g x a b c d s n f v h.
      call_operands-Safe by_staticcall g (p.intx.be_trunc x) (of_uint64 0) a b c d n s f v h)
