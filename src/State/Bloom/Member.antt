-- ===== src/State/Bloom/Member.antt =====
-- What the bloom filter of test/state/bloom_filter.cpp says of the logs it was computed from.
use zvmone.Prelude.{
  ℕ, zero, suc, ◌-◌, ◌/◌, ◌%◌, ◌^◌, ◌<◌, ◌≡◌, ◌⊎◌, refl, sym, ◌∙◌, inl, inr, arith, false,
  Bool-cases, bit_or, some, List, [], ◌∷◌, length, length-set, length-replicate, set, get_or,
  get_elem?, replicate, ◌==◌,
}
use zvmone.Prelude.Bits.{bit_or_keeps, bit_or_twice}
use zvmone.Zvmc.{Bytes32}
use zvmone.State.Host.{Log}
use zvmone.State.Bloom.{
  BloomFilter, bit_index, set_bit, add_to, add_all, add_logs, compute_bloom_filter,
}

get_or-set_self : (xs : List ℕ) (i v : ℕ) → i < length xs → get_or (set xs i v) i 0 ≡ v
get_or-set_self [] i v h = absurd (omega arith)
get_or-set_self (x ∷ xs) zero v h = refl
get_or-set_self (x ∷ xs) (suc i) v h = get_or-set_self xs i v (omega arith)

get_or-set_other :
    (xs : List ℕ) (i j v : ℕ) → (i == j) ≡ false → get_or (set xs i v) j 0 ≡ get_or xs j 0
get_or-set_other [] i j v h = refl
get_or-set_other (x ∷ xs) zero zero v h = absurd (ground arith)
get_or-set_other (x ∷ xs) zero (suc j) v h = refl
get_or-set_other (x ∷ xs) (suc i) zero v h = refl
get_or-set_other (x ∷ xs) (suc i) (suc j) v h = get_or-set_other xs i j v (ground arith)

-- The bit with this number is set.
abbrev HasBit : ℕ → BloomFilter → Type 0
HasBit index bf = bit_or (get_or bf (index / 8) 0) (2 ^ (7 - index % 8)) ≡ get_or bf (index / 8) 0

set_bit-HasBit : (i : ℕ) (bf : BloomFilter) → i / 8 < length bf → HasBit i (set_bit i bf)
set_bit-HasBit i bf h =
    let bit_pos = 2 ^ (7 - i % 8) in
    let old = get_or bf (i / 8) 0 in
    rw (get_or-set_self bf (i / 8) (bit_or old bit_pos) h) (bit_or_twice old bit_pos)

-- No other bit is cleared.
HasBit-set_bit :
    (i j : ℕ) (bf : BloomFilter) → j / 8 < length bf → HasBit i bf → HasBit i (set_bit j bf)
HasBit-set_bit i j bf h e =
    let old = get_or bf (j / 8) 0 in
    let bit_pos = 2 ^ (7 - j % 8) in
    elim (Bool-cases (j / 8 == i / 8)) [
      | inl same ↦
          let at : i / 8 ≡ j / 8 = ground arith in
          let e' : bit_or old (2 ^ (7 - i % 8)) ≡ old = rw (sym at) e in
          rw (at, get_or-set_self bf (j / 8) (bit_or old bit_pos) h)
            (bit_or_keeps old bit_pos (2 ^ (7 - i % 8)) e')
      | inr other ↦ rw (get_or-set_other bf (j / 8) (i / 8) (bit_or old bit_pos) other) e
    ]

-- The three bits of an entry.
unfoldable pub Contains : (List ℕ → Bytes32) → List ℕ → BloomFilter → Type 0
Contains keccak256 entry bf =
    let hash = keccak256 entry in
    HasBit (bit_index hash 0) bf × HasBit (bit_index hash 2) bf × HasBit (bit_index hash 4) bf

inside :
    (hash : Bytes32) (i : ℕ) (bf : BloomFilter) → length bf ≡ 256 → bit_index hash i / 8 < length bf
inside hash i bf l = omega (arith, l)

length-set_bit : (i : ℕ) (bf : BloomFilter) → length (set_bit i bf) ≡ length bf
length-set_bit i bf = length-set bf (i / 8) _

length-add_to :
    (keccak256 : List ℕ → Bytes32) (entry : List ℕ) (bf : BloomFilter)
    → length (add_to keccak256 entry bf) ≡ length bf
unfolding add_to
length-add_to keccak256 entry bf =
    let hash = keccak256 entry in
    let b0 = set_bit (bit_index hash 0) bf in
    let b2 = set_bit (bit_index hash 2) b0 in
    length-set_bit (bit_index hash 4) b2
    ∙ length-set_bit (bit_index hash 2) b0
    ∙ length-set_bit (bit_index hash 0) bf

-- A bit that is set stays set.
HasBit-add_to :
    (keccak256 : List ℕ → Bytes32) (entry : List ℕ) (i : ℕ) (bf : BloomFilter)
    → length bf ≡ 256
    → HasBit i bf
    → HasBit i (add_to keccak256 entry bf)
unfolding add_to
HasBit-add_to keccak256 entry i bf l e =
    let hash = keccak256 entry in
    let b0 = set_bit (bit_index hash 0) bf in
    let b2 = set_bit (bit_index hash 2) b0 in
    let l0 = length-set_bit (bit_index hash 0) bf ∙ l in
    let l2 = length-set_bit (bit_index hash 2) b0 ∙ l0 in
    HasBit-set_bit i (bit_index hash 4) b2 (inside hash 4 b2 l2) (
      HasBit-set_bit i (bit_index hash 2) b0 (inside hash 2 b0 l0)
        (HasBit-set_bit i (bit_index hash 0) bf (inside hash 0 bf l) e))

add_to-Contains :
    (keccak256 : List ℕ → Bytes32) (entry : List ℕ) (bf : BloomFilter)
    → length bf ≡ 256
    → Contains keccak256 entry (add_to keccak256 entry bf)
unfolding add_to Contains
add_to-Contains keccak256 entry bf l =
    let hash = keccak256 entry in
    let b0 = set_bit (bit_index hash 0) bf in
    let b2 = set_bit (bit_index hash 2) b0 in
    let l0 = length-set_bit (bit_index hash 0) bf ∙ l in
    let l2 = length-set_bit (bit_index hash 2) b0 ∙ l0 in
    let in4 = inside hash 4 b2 l2 in
    let in2 = inside hash 2 b0 l0 in
    (
      HasBit-set_bit (bit_index hash 0) (bit_index hash 4) b2 in4 (
          HasBit-set_bit (bit_index hash 0) (bit_index hash 2) b0 in2
            (set_bit-HasBit (bit_index hash 0) bf (inside hash 0 bf l))),
      HasBit-set_bit (bit_index hash 2) (bit_index hash 4) b2 in4
          (set_bit-HasBit (bit_index hash 2) b0 in2),
      set_bit-HasBit (bit_index hash 4) b2 in4,
    )

Contains-add_to :
    (keccak256 : List ℕ → Bytes32) (entry other : List ℕ) (bf : BloomFilter)
    → length bf ≡ 256
    → Contains keccak256 entry bf
    → Contains keccak256 entry (add_to keccak256 other bf)
unfolding Contains
Contains-add_to keccak256 entry other bf l (a, b, c) = (
  HasBit-add_to keccak256 other _ bf l a,
  HasBit-add_to keccak256 other _ bf l b,
  HasBit-add_to keccak256 other _ bf l c,
)

module _ (keccak256 : List ℕ → Bytes32) where
  length-add_all :
      (entries : List (List ℕ)) (bf : BloomFilter)
      → length (add_all keccak256 entries bf) ≡ length bf
  length-add_all [] bf = refl
  length-add_all (x ∷ entries) bf =
      length-add_all entries (add_to keccak256 x bf) ∙ length-add_to keccak256 x bf

  Contains-add_all :
      (entries : List (List ℕ)) (entry : List ℕ) (bf : BloomFilter)
      → length bf ≡ 256
      → Contains keccak256 entry bf
      → Contains keccak256 entry (add_all keccak256 entries bf)
  Contains-add_all [] entry bf l c = c
  Contains-add_all (x ∷ entries) entry bf l c =
      Contains-add_all entries entry (add_to keccak256 x bf) (length-add_to keccak256 x bf ∙ l)
        (Contains-add_to keccak256 entry x bf l c)

  add_all-Contains :
      (entries : List (List ℕ)) (j : ℕ) (entry : List ℕ) (bf : BloomFilter)
      → length bf ≡ 256
      → get_elem? entries j ≡ some entry
      → Contains keccak256 entry (add_all keccak256 entries bf)
  add_all-Contains [] j entry bf l e = absurd cc
  add_all-Contains (x ∷ entries) zero entry bf l e =
      let same : x ≡ entry = cc in
      Contains-add_all entries entry (add_to keccak256 x bf) (length-add_to keccak256 x bf ∙ l)
        (rw same (add_to-Contains keccak256 entry bf l))
  add_all-Contains (x ∷ entries) (suc j) entry bf l e =
      add_all-Contains entries j entry (add_to keccak256 x bf) (length-add_to keccak256 x bf ∙ l) e

  -- The filter after one log.
  abbrev with_log : Log → BloomFilter → BloomFilter
  with_log log bf = add_all keccak256 log.topics (add_to keccak256 log.addr bf)

  length-with_log : (log : Log) (bf : BloomFilter) → length (with_log log bf) ≡ length bf
  length-with_log log bf =
      length-add_all log.topics (add_to keccak256 log.addr bf) ∙ length-add_to keccak256 log.addr bf

  Contains-add_logs :
      (logs : List Log) (entry : List ℕ) (bf : BloomFilter)
      → length bf ≡ 256
      → Contains keccak256 entry bf
      → Contains keccak256 entry (add_logs keccak256 logs bf)
  Contains-add_logs [] entry bf l c = c
  Contains-add_logs (log ∷ logs) entry bf l c =
      Contains-add_logs logs entry (with_log log bf) (length-with_log log bf ∙ l) (
        Contains-add_all log.topics entry (add_to keccak256 log.addr bf)
          (length-add_to keccak256 log.addr bf ∙ l)
          (Contains-add_to keccak256 entry log.addr bf l c))

  add_logs-Contains :
      (logs : List Log) (i : ℕ) (log : Log) (entry : List ℕ) (bf : BloomFilter)
      → length bf ≡ 256
      → get_elem? logs i ≡ some log
      → (entry ≡ log.addr) ⊎ ((j : ℕ) × (get_elem? log.topics j ≡ some entry))
      → Contains keccak256 entry (add_logs keccak256 logs bf)
  add_logs-Contains [] i log entry bf l e m = absurd cc
  add_logs-Contains (x ∷ logs) zero log entry bf l e m =
      let same : x ≡ log = cc in
      let l1 = length-add_to keccak256 log.addr bf ∙ l in
      rw same (
        Contains-add_logs logs entry (with_log log bf) (length-with_log log bf ∙ l) (elim m [
          | inl a ↦
              Contains-add_all log.topics entry (add_to keccak256 log.addr bf) l1
                (rw a (add_to-Contains keccak256 log.addr bf l))
          | inr (j, t) ↦ add_all-Contains log.topics j entry (add_to keccak256 log.addr bf) l1 t
        ]))
  add_logs-Contains (x ∷ logs) (suc i) log entry bf l e m =
      add_logs-Contains logs i log entry (with_log x bf) (length-with_log x bf ∙ l) e m

-- The filter of logs contains the three bits of the address and of each topic of each log.
pub compute_bloom_filter-Contains :
    (keccak256 : List ℕ → Bytes32) (logs : List Log) (i : ℕ) (log : Log) (entry : List ℕ)
    → get_elem? logs i ≡ some log
    → (entry ≡ log.addr) ⊎ ((j : ℕ) × (get_elem? log.topics j ≡ some entry))
    → Contains keccak256 entry (compute_bloom_filter keccak256 logs)
unfolding compute_bloom_filter
compute_bloom_filter-Contains keccak256 logs i log entry e m =
    add_logs-Contains keccak256 logs i log entry (replicate 256 0) (length-replicate {A = ℕ} 256 0)
      e m
