-- ===== src/State/Precompiles.antt =====
-- The precompiled contracts of test/state/precompiles.cpp and their cache of results in
-- test/state/precompiles_cache.cpp. Gas costs do not overflow for an input that fits into the memory.
pub mod Bounds
pub mod Identity
use zvmone.Prelude.{
  ℕ, zero, suc, ◌+◌, ◌-◌, ◌*◌, ◌/◌, ◌%◌, ◌^◌, min, max, Bool, true, false, ◌&&◌, ◌||◌, Option, none,
  some, List, [], ◌∷◌, ◌++◌, length, take, drop, get_elem?, set, get_or, replicate, ltb, leb, ◌==◌,
  if◌then◌else◌,
}
use mathlib.Core.Option
use zvmone.Prelude.Int.{ℤ, pos, ◌-ℤ◌, ltb_ℤ}
use zvmone.Uint256.{Uint256, of_uint64}
use zvmone.Zvmc.{
  StatusCode, success, is_success, out_of_gas, precompile_failure, internal_error, Bytes32, Message,
  CallResult,
}
use zvmone.Platform.{Intx, big_endian}
use zvmone.State.Maps.{Map, lookup}

abbrev pub num_precompiles : ℕ
num_precompiles = 10

-- The enumerators of `PrecompileId`.
abbrev pub identity_id : ℕ
identity_id = 0x04

abbrev pub gas_cost_max : ℕ
gas_cost_max = 2 ^ 63 - 1

pub record PrecompileAnalysis : Type 0 where
  pub gas_cost : ℕ
  pub max_output_size : ℕ

-- What an analysis function gives, `none` where its behaviour is undefined.
abbrev pub analysis : ℕ → ℕ → Option PrecompileAnalysis
analysis cost size = some (record { gas_cost = cost; max_output_size = size })

abbrev pub num_words : ℕ → ℕ
num_words size_in_bytes = (size_in_bytes + 31) % 2 ^ 64 / 32

abbrev pub cost_per_input_word : ℕ → ℕ → ℕ → ℕ
cost_per_input_word base_cost word_cost input_size = base_cost + word_cost * num_words input_size

unfoldable pub depositroot_analyze : Intx → List ℕ → Option PrecompileAnalysis
depositroot_analyze intx input = analysis 19992 32

unfoldable pub sha256_analyze : Intx → List ℕ → Option PrecompileAnalysis
sha256_analyze intx input = analysis (cost_per_input_word 60 12 (length input)) 32

unfoldable pub identity_analyze : Intx → List ℕ → Option PrecompileAnalysis
identity_analyze intx input = analysis (cost_per_input_word 15 3 (length input)) (length input)

unfoldable pub ecadd_analyze : Intx → List ℕ → Option PrecompileAnalysis
ecadd_analyze intx input = analysis 150 64

unfoldable pub ecmul_analyze : Intx → List ℕ → Option PrecompileAnalysis
ecmul_analyze intx input = analysis 6000 64

unfoldable pub ecpairing_analyze : Intx → List ℕ → Option PrecompileAnalysis
ecpairing_analyze intx input = analysis (45000 + length input / 192 * 34000) 32

-- `std::bit_width` of a byte
pub bits_below : ℕ → ℕ → ℕ
bits_below zero b = 0
bits_below (suc n) b = if b == 0 then 0 else suc (bits_below n (b / 2))

abbrev pub bit_width : ℕ → ℕ
unfolding bits_below
bit_width = bits_below 8

abbrev pub find_first_not_zero : List ℕ → Option ℕ
find_first_not_zero [] = none
find_first_not_zero (b ∷ bytes) =
    if b == 0 then Option.map suc (find_first_not_zero bytes) else some 0

-- The lambda of `expmod_analyze`. `&input[offset]` is undefined for an offset that is not inside.
unfoldable pub adjusted_len : List ℕ → ℕ → ℕ → Option ℕ
adjusted_len input offset len =
    let head_len = min len 32 in
    let head_explicit_len =
      max (min ((offset + head_len) % 2 ^ 64) (length input)) offset - offset in
    let head_explicit_bytes = take head_explicit_len (drop offset input) in
    let exp_bit_width : ℕ = elim (find_first_not_zero head_explicit_bytes) [
      | none ↦ 0
      | some i ↦ (head_len - i - 1) * 8 + bit_width (get_or head_explicit_bytes i 0)
    ] in
    if ltb offset (length input)
    then some (max ((8 * (max len 32 - 32) + (max exp_bit_width 1 - 1)) % 2 ^ 64) 1)
    else none

abbrev pub mult_complexity_eip2565 : Intx → Uint256 → Uint256
mult_complexity_eip2565 intx x = let w = intx.shr_by (intx.add x (of_uint64 7)) 3 in intx.mul w w

abbrev pub input_header : List ℕ → List ℕ
input_header input = take 96 input ++ replicate (96 - length input) 0

abbrev pub base_len : Intx → List ℕ → Uint256
base_len intx input = intx.be_load (take 32 (input_header input))

abbrev pub exp_len : Intx → List ℕ → Uint256
exp_len intx input = intx.be_load (take 32 (drop 32 (input_header input)))

abbrev pub mod_len : Intx → List ℕ → Uint256
mod_len intx input = intx.be_load (take 32 (drop 64 (input_header input)))

-- The tests of the two early returns.
abbrev pub nothing_to_do : Intx → List ℕ → Bool
nothing_to_do intx input =
    intx.equal (base_len intx input) (of_uint64 0) && intx.equal (mod_len intx input) (of_uint64 0)

abbrev pub over_limit : Intx → List ℕ → Bool
over_limit intx input =
    let len_limit = of_uint64 (2 ^ 64 - 1) in
    intx.ult len_limit (base_len intx input)
    || intx.ult len_limit (exp_len intx input)
    || intx.ult len_limit (mod_len intx input)

-- Where the exponent starts.
abbrev pub exp_offset : Intx → List ℕ → ℕ
exp_offset intx input = (96 + (base_len intx input).w0) % 2 ^ 64

abbrev pub expmod_cost : Intx → List ℕ → ℕ → ℕ
expmod_cost intx input adjusted_exp_len =
    let base = base_len intx input in
    let modulus = mod_len intx input in
    let max_len = if intx.ult modulus base then base else modulus in
    let product = intx.mul (mult_complexity_eip2565 intx max_len) (of_uint64 adjusted_exp_len) in
    let gas = intx.udiv product (of_uint64 3) in
    let limit = of_uint64 gas_cost_max in
    let gas_limited = if intx.ult limit gas then limit else gas in max 200 gas_limited.w0

unfoldable pub expmod_analyze : Intx → List ℕ → Option PrecompileAnalysis
unfolding adjusted_len
expmod_analyze intx input =
    if nothing_to_do intx input
    then analysis 200 0
    else if over_limit intx input
    then analysis gas_cost_max 0
    else elim (adjusted_len input (exp_offset intx input) (exp_len intx input).w0) [
      | none ↦ none
      | some adjusted_exp_len ↦
          analysis (expmod_cost intx input adjusted_exp_len) (mod_len intx input).w0
    ]

-- The status, and the output that is written.
unfoldable pub identity_execute : List ℕ → StatusCode × List ℕ
identity_execute input = (success, input)

unfoldable pub dummy_execute : List ℕ → StatusCode × List ℕ
dummy_execute input = (internal_error, [])

pub record PrecompileTraits : Type 0 where
  pub analyze : Intx → List ℕ → Option PrecompileAnalysis
  pub execute : List ℕ → StatusCode × List ℕ

abbrev pub entry :
    (Intx → List ℕ → Option PrecompileAnalysis)
    → (List ℕ → StatusCode × List ℕ)
    → Option PrecompileTraits
entry analyze execute = some (record { analyze = analyze; execute = execute })

-- The table by the precompile's number; `none` for an entry with null pointers.
unfoldable pub precompile_traits : List (Option PrecompileTraits)
precompile_traits =
    none
    ∷ entry depositroot_analyze dummy_execute
    ∷ entry sha256_analyze dummy_execute
    ∷ entry identity_analyze identity_execute
    ∷ entry expmod_analyze dummy_execute
    ∷ entry ecadd_analyze dummy_execute
    ∷ entry ecmul_analyze dummy_execute
    ∷ entry ecpairing_analyze dummy_execute
    ∷ none
    ∷ none
    ∷ []

-- The maps of the cache, by the precompile's number: the output under the hash of the input, `none`
-- for a failure. An entry that comes first is the one that is found, as `insert` keeps it.
abbrev pub CacheMap : Type 0
CacheMap = Map (Option (List ℕ))

abbrev pub Cache : Type 0
Cache = List CacheMap

-- `zvmc::Result` of a status, a gas left and an output
abbrev pub make : StatusCode → ℤ → List ℕ → CallResult
make s gas output = record {
  status_code = s;
  gas_left = gas;
  gas_refund = pos 0;
  output = output;
  create_address = replicate 20 0;
}

-- The result for an entry.
abbrev pub cached_result : ℤ → Option (Option (List ℕ)) → Option CallResult
cached_result gas_left none = none
cached_result gas_left (some none) = some (make precompile_failure (pos 0) [])
cached_result gas_left (some (some output)) = some (make success gas_left output)

unfoldable pub cache_find : (List ℕ → Bytes32) → ℕ → List ℕ → ℤ → Cache → Option CallResult
cache_find keccak256 id input gas_left cache =
    cached_result gas_left (lookup (keccak256 input) (get_or cache id []))

unfoldable pub cache_insert : (List ℕ → Bytes32) → ℕ → List ℕ → CallResult → Cache → Cache
cache_insert keccak256 id input result cache =
    if id == identity_id
    then cache
    else (let cached_output = if is_success result.status_code then some result.output else none in
        set cache id (get_or cache id [] ++ ((keccak256 input, cached_output) ∷ [])))

-- `undefined_call` for a call of a null pointer, a read outside of the input and a failed assertion.
pub data Precompiled : Type 0 where
  not_precompiled : Precompiled
  precompiled : CallResult → Cache → Precompiled
  undefined_call : Precompiled

-- The call of a precompile that has functions, after its analysis. No function writes more than
-- `max_output_size` bytes, and the assertion says that they fit into the buffer of 256.
abbrev pub run_analysed :
    (List ℕ → Bytes32) → ℕ → PrecompileTraits → Message → Cache → PrecompileAnalysis → Precompiled
unfolding cache_find cache_insert
run_analysed keccak256 id t msg cache a =
    let gas_left = msg.gas -ℤ pos a.gas_cost in
    let (status_code, output) = t.execute msg.input in
    if ltb_ℤ gas_left (pos 0)
    then precompiled (make out_of_gas (pos 0) []) cache
    else elim (cache_find keccak256 id msg.input gas_left cache) [
      | some r ↦ precompiled r cache
      | none ↦
          if ltb 256 a.max_output_size
          then undefined_call
          else (let result =
                make status_code (if is_success status_code then gas_left else pos 0) output in
              precompiled result (cache_insert keccak256 id msg.input result cache))
    ]

unfoldable pub run_precompile :
    Intx → (List ℕ → Bytes32) → ℕ → PrecompileTraits → Message → Cache → Precompiled
run_precompile intx keccak256 id t msg cache = elim (t.analyze intx msg.input) [
  | none ↦ undefined_call
  | some a ↦ run_analysed keccak256 id t msg cache a
]

-- An address of 20 bytes is compared as a number. The gas is asserted not to be negative.
unfoldable pub call_precompile : Intx → (List ℕ → Bytes32) → Message → Cache → Precompiled
unfolding precompile_traits run_precompile
call_precompile intx keccak256 msg cache =
    let boundary = big_endian msg.code_address in
    if (boundary == 0) || leb num_precompiles boundary
    then not_precompiled
    else if ltb_ℤ msg.gas (pos 0)
    then undefined_call
    else (let id = get_or msg.code_address 19 0 in
        elim (get_or precompile_traits id none) [
          | none ↦ undefined_call
          | some t ↦ run_precompile intx keccak256 id t msg cache
        ])
