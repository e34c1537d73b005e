-- ===== src/State/Precompiles/Bounds.antt =====
-- The results of call_precompile (test/state/precompiles.cpp).
use zvmone.Prelude.{
  ℕ, zero, suc, ◌+◌, ◌*◌, ◌≤◌, ◌<◌, ◌≡◌, ◌⊎◌, refl, inl, inr, arith, false, Bool-cases,
  Option-cases, sym, Option, none, some, List, [], ◌∷◌, length, get_or, ltb, leb, ◌==◌,
}
use zvmone.Prelude.Int.{ℤ, pos, ◌-ℤ◌, ◌≤ℤ◌, ltb_ℤ, int_laws}
use zvmone.Zvmc.{success, precompile_failure, is_success, Bytes32, Message, CallResult}
use zvmone.Platform.{Intx, big_endian_from, big_endian}
use zvmone.Baseline.Execution.{kept_gas}
use zvmone.State.Maps.{lookup}
use zvmone.State.Precompiles.{
  num_precompiles, precompile_traits, PrecompileTraits, Cache, cache_find, cached_result, make,
  Precompiled, not_precompiled, precompiled, undefined_call, run_precompile, call_precompile,
  identity_execute, dummy_execute, PrecompileAnalysis, run_analysed, expmod_analyze, adjusted_len,
  nothing_to_do, over_limit, exp_offset, mod_len, depositroot_analyze, sha256_analyze,
  identity_analyze, ecadd_analyze, ecmul_analyze, ecpairing_analyze,
}

-- The last byte is what the number leaves when it is divided by 256.
last_byte :
    (acc n : ℕ) (bytes : List ℕ)
    → length bytes ≡ suc n
    → (q : ℕ) × (big_endian_from acc bytes ≡ q * 256 + get_or bytes n 0)
last_byte acc n [] h = absurd (omega arith)
last_byte acc zero (b ∷ []) h = (acc, refl)
last_byte acc zero (b ∷ c ∷ bytes) h = absurd (omega arith)
last_byte acc (suc n) (b ∷ bytes) h = last_byte (acc * 256 + b) n bytes (omega arith)

-- The gas that a result gives back, and what it holds if it is not a success.
pub record IsPaid (gas : ℤ) (r : CallResult) : Type 0 where
  pub gas_positive : pos 0 ≤ℤ r.gas_left
  pub gas_below : r.gas_left ≤ℤ gas
  pub failed_gas : is_success r.status_code ≡ false → r.gas_left ≡ pos 0
  pub failed_output : is_success r.status_code ≡ false → r.output ≡ []

-- The input of `expmod_analyze` that leads to a read at an offset outside of it, or to an output
-- that is larger than the buffer.
pub record IsUnsafe (intx : Intx) (input : List ℕ) : Type 0 where
  pub has_work : nothing_to_do intx input ≡ false
  pub within_limit : over_limit intx input ≡ false
  pub too_far : (length input ≤ exp_offset intx input) ⊎ (256 < (mod_len intx input).w0)

-- The messages whose behaviour may be undefined.
abbrev pub MayFail : Intx → Message → Type 0
MayFail intx msg =
    ((8 ≤ big_endian msg.code_address) × (big_endian msg.code_address < 10))
    ⊎ (((big_endian msg.code_address ≡ 3) × (256 < length msg.input))
        ⊎ ((big_endian msg.code_address ≡ 4) × IsUnsafe intx msg.input))

-- By the number of the address: not a precompile, a paid result, or undefined behaviour.
unfoldable pub IsOutcome : Intx → Message → Precompiled → Type 0
IsOutcome intx msg not_precompiled =
    (big_endian msg.code_address ≡ 0) ⊎ (num_precompiles ≤ big_endian msg.code_address)
IsOutcome intx msg (precompiled r cache) = IsPaid msg.gas r
IsOutcome intx msg undefined_call = MayFail intx msg

-- The output that an analysis reserves; more than the buffer where its behaviour is undefined.
abbrev pub reserved : Option PrecompileAnalysis → ℕ
reserved none = 257
reserved (some a) = a.max_output_size

pub expmod_analyze-reserved :
    (intx : Intx) (input : List ℕ)
    → 256 < reserved (expmod_analyze intx input)
    → IsUnsafe intx input
unfolding expmod_analyze adjusted_len
expmod_analyze-reserved intx input h = elim (Bool-cases (nothing_to_do intx input)) [
  | inl idle ↦ absurd (let z = (rw (expmod_analyze, idle) at h) in omega arith)
  | inr work ↦ elim (Bool-cases (over_limit intx input)) [
    | inl over ↦ absurd (let z = (rw (expmod_analyze, work, over) at h) in omega arith)
    | inr within ↦ elim (Bool-cases (ltb (exp_offset intx input) (length input))) [
      | inl inside ↦
          let large = (rw (expmod_analyze, work, within, adjusted_len, inside) at h) in
          record { has_work = work; within_limit = within; too_far = inr large }
      | inr outside ↦ record {
        has_work = work;
        within_limit = within;
        too_far = inl (ground arith);
      }
    ]
  ]
]

by_entry :
    (l g : ℤ) (o : Option (Option (List ℕ))) (r : CallResult)
    → pos 0 ≤ℤ l
    → l ≤ℤ g
    → cached_result l o ≡ some r
    → IsPaid g r
by_entry l g none r h k e = absurd cc
by_entry l g (some none) r h k e =
    let same : make precompile_failure (pos 0) [] ≡ r = cc in
    rw (sym same) (record {
      gas_positive = omega arith;
      gas_below = omega arith;
      failed_gas = λ f. refl;
      failed_output = λ f. refl;
    })
by_entry l g (some (some output)) r h k e =
    let same : make success l output ≡ r = cc in
    rw (sym same)
      (record { gas_positive = h; gas_below = k; failed_gas = λ f. cc; failed_output = λ f. cc })

cached_IsPaid :
    (keccak256 : List ℕ → Bytes32) (id : ℕ) (input : List ℕ) (l g : ℤ) (cache : Cache)
    (r : CallResult)
    → pos 0 ≤ℤ l
    → l ≤ℤ g
    → cache_find keccak256 id input l cache ≡ some r
    → IsPaid g r
unfolding cache_find
cached_IsPaid keccak256 id input l g cache r h k e =
    by_entry l g (lookup (keccak256 input) (get_or cache id [])) r h k e

run_analysed-IsOutcome :
    (intx : Intx) (keccak256 : List ℕ → Bytes32) (t : PrecompileTraits) (msg : Message)
    (cache : Cache) (id : ℕ) (a : PrecompileAnalysis)
    → (is_success (t.execute msg.input).0 ≡ false → (t.execute msg.input).1 ≡ [])
    → (256 < a.max_output_size → MayFail intx msg)
    → pos 0 ≤ℤ msg.gas
    → IsOutcome intx msg (run_analysed keccak256 id t msg cache a)
unfolding IsOutcome run_analysed
run_analysed-IsOutcome intx keccak256 t msg cache id a none_left fits g =
    let left = msg.gas -ℤ pos a.gas_cost in
    let (status, output) = t.execute msg.input in
    elim (Bool-cases (ltb_ℤ left (pos 0))) [
      | inl poor ↦ rw poor (record {
        gas_positive = omega arith;
        gas_below = g;
        failed_gas = λ f. refl;
        failed_output = λ f. refl;
      })
      | inr paid ↦
          let positive : pos 0 ≤ℤ left = ground arith in
          let below : left ≤ℤ msg.gas = omega int_laws in
          rw paid (elim (Option-cases (cache_find keccak256 id msg.input left cache)) [
            | inr (r, e) ↦
                rw e (cached_IsPaid keccak256 id msg.input left msg.gas cache r positive below e)
            | inl e ↦ rw e (elim (Bool-cases (ltb 256 a.max_output_size)) [
              | inl long ↦ rw long (fits (ground arith))
              | inr short ↦ rw short (record {
                gas_positive =
                    (kept_gas (is_success status) left msg.gas (λ t. (positive, below)) g).0;
                gas_below =
                    (kept_gas (is_success status) left msg.gas (λ t. (positive, below)) g).1;
                failed_gas = λ f. rw f refl;
                failed_output = none_left;
              })
            ])
          ])
    ]

pub run_precompile-some :
    (intx : Intx) (keccak256 : List ℕ → Bytes32) (t : PrecompileTraits) (msg : Message)
    (cache : Cache) (id : ℕ) (a : PrecompileAnalysis)
    → t.analyze intx msg.input ≡ some a
    → run_precompile intx keccak256 id t msg cache ≡ run_analysed keccak256 id t msg cache a
unfolding run_precompile run_analysed
run_precompile-some intx keccak256 t msg cache id a e = rw (run_precompile, e) refl

run_precompile-IsOutcome :
    (intx : Intx) (keccak256 : List ℕ → Bytes32) (t : PrecompileTraits) (msg : Message)
    (cache : Cache) (id : ℕ)
    → (is_success (t.execute msg.input).0 ≡ false → (t.execute msg.input).1 ≡ [])
    → (256 < reserved (t.analyze intx msg.input) → MayFail intx msg)
    → pos 0 ≤ℤ msg.gas
    → IsOutcome intx msg (run_precompile intx keccak256 id t msg cache)
unfolding run_precompile IsOutcome
run_precompile-IsOutcome intx keccak256 t msg cache id none_left fits g =
    analysed (t.analyze intx msg.input) fits
  where
    analysed :
        (o : Option PrecompileAnalysis)
        → (256 < reserved o → MayFail intx msg)
        → IsOutcome intx msg (elim o as (λ _. Precompiled) [
          | none ↦ undefined_call
          | some a ↦ run_analysed keccak256 id t msg cache a
        ])
    analysed none h = h (omega arith)
    analysed (some a) h = run_analysed-IsOutcome intx keccak256 t msg cache id a none_left h g

by_id :
    (intx : Intx) (keccak256 : List ℕ → Bytes32) (msg : Message) (cache : Cache) (id : ℕ)
    → big_endian msg.code_address ≡ id
    → (id == 0) ≡ false
    → id < 10
    → pos 0 ≤ℤ msg.gas
    → IsOutcome intx msg (elim (get_or precompile_traits id none) as (λ _. Precompiled) [
      | none ↦ undefined_call
      | some t ↦ run_precompile intx keccak256 id t msg cache
    ])
unfolding precompile_traits IsOutcome dummy_execute identity_execute depositroot_analyze
    sha256_analyze identity_analyze ecadd_analyze ecmul_analyze ecpairing_analyze
by_id intx keccak256 msg cache zero e n b g = absurd cc
by_id intx keccak256 msg cache (suc zero) e n b g =
    run_precompile-IsOutcome intx keccak256 _ msg cache 1 (λ f. refl) (λ h. absurd (omega arith)) g
by_id intx keccak256 msg cache (suc (suc zero)) e n b g =
    run_precompile-IsOutcome intx keccak256 _ msg cache 2 (λ f. refl) (λ h. absurd (omega arith)) g
by_id intx keccak256 msg cache (suc (suc (suc zero))) e n b g =
    run_precompile-IsOutcome intx keccak256 _ msg cache 3 (λ f. cc) (λ h. inr (inl (e, h))) g
by_id intx keccak256 msg cache (suc (suc (suc (suc zero)))) e n b g =
    run_precompile-IsOutcome intx keccak256 _ msg cache 4 (λ f. refl)
      (λ h. inr (inr (e, expmod_analyze-reserved intx msg.input h))) g
by_id intx keccak256 msg cache (suc (suc (suc (suc (suc zero))))) e n b g =
    run_precompile-IsOutcome intx keccak256 _ msg cache 5 (λ f. refl) (λ h. absurd (omega arith)) g
by_id intx keccak256 msg cache (suc (suc (suc (suc (suc (suc zero)))))) e n b g =
    run_precompile-IsOutcome intx keccak256 _ msg cache 6 (λ f. refl) (λ h. absurd (omega arith)) g
by_id intx keccak256 msg cache (suc (suc (suc (suc (suc (suc (suc zero))))))) e n b g =
    run_precompile-IsOutcome intx keccak256 _ msg cache 7 (λ f. refl) (λ h. absurd (omega arith)) g
by_id intx keccak256 msg cache (suc (suc (suc (suc (suc (suc (suc (suc zero)))))))) e n b g =
    inl (omega arith, omega arith)
by_id intx keccak256 msg cache (suc (suc (suc (suc (suc (suc (suc (suc (suc zero))))))))) e n b g =
    inl (omega arith, omega arith)
by_id intx keccak256 msg cache (suc (suc (suc (suc (suc (suc (suc (suc (suc (suc id)))))))))) e n b
      g =
    absurd (omega arith)

pub call_precompile-IsOutcome :
    (intx : Intx) (keccak256 : List ℕ → Bytes32) (msg : Message) (cache : Cache)
    → length msg.code_address ≡ 20
    → pos 0 ≤ℤ msg.gas
    → IsOutcome intx msg (call_precompile intx keccak256 msg cache)
unfolding call_precompile IsOutcome
call_precompile-IsOutcome intx keccak256 msg cache l g =
    let n = big_endian msg.code_address in
    let (q, e) = last_byte 0 19 msg.code_address l in
    elim (Bool-cases (n == 0)) [
      | inl z ↦ rw z (inl (ground arith))
      | inr nz ↦ rw nz (elim (Bool-cases (leb num_precompiles n)) [
        | inl big ↦ rw big (inr (ground arith))
        | inr small ↦
            let id = get_or msg.code_address 19 0 in
            let at : n ≡ id = ground arith in
            let positive : ltb_ℤ msg.gas (pos 0) ≡ false = ground arith in
            rw (small, positive)
              (by_id intx keccak256 msg cache id at (ground arith) (ground arith) g)
      ])
    ]
