-- ===== src/State/Precompiles/Identity.antt =====
-- The number at which the identity contract runs (test/state/precompiles.cpp and precompiles.hpp).
use zvmone.Prelude.{
  ◌∙◌, Option, some, inl, ℕ, ◌≤◌, ◌≡◌, refl, inl, inr, arith, Bool-cases, false, none, List, [],
  ◌∷◌, ◌++◌, length, get_or, replicate, ltb,
}
use zvmone.Prelude.Int.{ℤ, pos, ◌-ℤ◌, ◌≤ℤ◌, ltb_ℤ, int_laws}
use zvmone.Zvmc.{
  success, is_success, out_of_gas, internal_error, Address, Bytes32, Message, CallResult,
}
use zvmone.Platform.{Intx}
use zvmone.State.Maps.{lookup}
use zvmone.State.Precompiles.Bounds.{IsUnsafe, expmod_analyze-reserved, run_precompile-some}
use zvmone.State.Precompiles.{
  run_analysed, PrecompileAnalysis, PrecompileTraits, identity_id, cost_per_input_word,
  precompile_traits, identity_analyze, identity_execute, dummy_execute, expmod_analyze, make,
  cache_find, cache_insert, Cache, precompiled, run_precompile, call_precompile,
}

-- The address with this number.
abbrev pub numbered : ℕ → Address
numbered n = replicate 19 0 ++ (n ∷ [])

pub not_negative : (z : ℤ) → pos 0 ≤ℤ z → ltb_ℤ z (pos 0) ≡ false
not_negative z h = ground arith

-- With no result in the cache for the input, for at most 256 bytes of input, which are not unsafe
-- for expmod_analyze (its exponent does not start behind the input and its modulus has at most 256
-- bytes, or it returns early), and for gas that covers the cost of the identity contract, the
-- contract with number 3 gives the input back for that cost. The contract with the number of
-- `PrecompileId::identity`, 4, gives a result that is not a success.
pub call_precompile-identity :
    (intx : Intx) (keccak256 : List ℕ → Bytes32) (msg : Message) (cache : Cache)
    → lookup (keccak256 msg.input) (get_or cache 3 []) ≡ none
    → lookup (keccak256 msg.input) (get_or cache identity_id []) ≡ none
    → length msg.input ≤ 256
    → (IsUnsafe intx msg.input → ⊥)
    → pos 0 ≤ℤ msg.gas -ℤ pos (cost_per_input_word 15 3 (length msg.input))
    → (let left = msg.gas -ℤ pos (cost_per_input_word 15 3 (length msg.input)) in
        let given = make success left msg.input in
        call_precompile intx keccak256 (record msg { code_address = numbered 3 }) cache
        ≡ precompiled given (cache_insert keccak256 3 msg.input given cache))
      × ((r : CallResult) × (cache' : Cache) × (call_precompile intx keccak256
              (record msg { code_address = numbered identity_id })
              cache
            ≡ precompiled r cache')
          × (is_success r.status_code ≡ false))
unfolding call_precompile precompile_traits run_precompile run_analysed identity_analyze
    identity_execute dummy_execute cache_find
call_precompile-identity intx keccak256 msg cache e3 e4 l safe g =
    let enough : ltb_ℤ (msg.gas -ℤ pos (cost_per_input_word 15 3 (length msg.input))) (pos 0)
        ≡ false =
      ground arith in
    let fits : ltb 256 (length msg.input) ≡ false = ground arith in
    let some_gas : pos 0 ≤ℤ msg.gas = omega int_laws in
    let positive : ltb_ℤ msg.gas (pos 0) ≡ false = not_negative msg.gas some_gas in
    (rw (positive, enough, e3, fits) refl, at_four positive (expmod_analyze intx msg.input) refl)
  where
    at_four :
        ltb_ℤ msg.gas (pos 0) ≡ false
        → (o : Option PrecompileAnalysis) → expmod_analyze intx msg.input ≡ o
        → (r : CallResult) × (cache' : Cache) × (call_precompile intx keccak256
              (record msg { code_address = numbered identity_id })
              cache
            ≡ precompiled r cache')
          × (is_success r.status_code ≡ false)
    at_four positive none e =
        absurd (safe (expmod_analyze-reserved intx msg.input (rw e (omega arith))))
    at_four positive (some a) e =
        let left = msg.gas -ℤ pos a.gas_cost in
        let t : PrecompileTraits = record { analyze = expmod_analyze; execute = dummy_execute } in
        let m : Message = record msg { code_address = numbered identity_id } in
        let run : call_precompile intx keccak256 m cache ≡ run_analysed keccak256 4 t m cache a =
          rw positive (run_precompile-some intx keccak256 t m cache 4 a e) in
        elim (Bool-cases (ltb_ℤ left (pos 0))) [
          | inl poor ↦ (make out_of_gas (pos 0) [], cache, run ∙ rw poor refl, refl)
          | inr paid ↦ elim (Bool-cases (ltb 256 a.max_output_size)) [
            | inl large ↦
                absurd (safe (expmod_analyze-reserved intx msg.input (rw e (ground arith))))
            | inr small ↦
                let r = make internal_error (pos 0) [] in
                (
                  r,
                  cache_insert keccak256 4 msg.input r cache,
                  run ∙ rw (paid, e4, small) refl,
                  refl,
                )
          ]
        ]
