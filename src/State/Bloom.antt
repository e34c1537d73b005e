-- ===== src/State/Bloom.antt =====
-- The bloom filter of test/state/bloom_filter.cpp, as its 256 bytes.
pub mod Member
use zvmone.Prelude.{
  ℕ, ◌+◌, ◌-◌, ◌*◌, ◌/◌, ◌%◌, ◌^◌, bit_and, bit_or, List, [], ◌∷◌, set, get_or, replicate,
}
use zvmone.Zvmc.{Bytes32}
use zvmone.State.Host.{Log}

abbrev pub BloomFilter : Type 0
BloomFilter = List ℕ

-- The bits of the filter have their numbers from the last to the first.
abbrev pub bit_index : Bytes32 → ℕ → ℕ
bit_index hash i = 0x07ff - bit_or (bit_and (get_or hash i 0) 0x07 * 2 ^ 8) (get_or hash (i + 1) 0)

abbrev pub set_bit : ℕ → BloomFilter → BloomFilter
set_bit index bf =
    let byte_index = index / 8 in
    let bit_pos = 2 ^ (7 - index % 8) in set bf byte_index (bit_or (get_or bf byte_index 0) bit_pos)

unfoldable pub add_to : (List ℕ → Bytes32) → List ℕ → BloomFilter → BloomFilter
add_to keccak256 entry bf =
    let hash = keccak256 entry in
    set_bit (bit_index hash 4) (set_bit (bit_index hash 2) (set_bit (bit_index hash 0) bf))

abbrev pub add_all : (List ℕ → Bytes32) → List (List ℕ) → BloomFilter → BloomFilter
add_all keccak256 [] bf = bf
add_all keccak256 (entry ∷ entries) bf = add_all keccak256 entries (add_to keccak256 entry bf)

abbrev pub add_logs : (List ℕ → Bytes32) → List Log → BloomFilter → BloomFilter
add_logs keccak256 [] bf = bf
add_logs keccak256 (log ∷ logs) bf =
    add_logs keccak256 logs (add_all keccak256 log.topics (add_to keccak256 log.addr bf))

-- The filter of a transaction's logs.
unfoldable pub compute_bloom_filter : (List ℕ → Bytes32) → List Log → BloomFilter
compute_bloom_filter keccak256 logs = add_logs keccak256 logs (replicate 256 0)

abbrev pub or_bytes : BloomFilter → BloomFilter → BloomFilter
or_bytes [] bf = []
or_bytes (x ∷ xs) [] = x ∷ xs
or_bytes (x ∷ xs) (y ∷ ys) = bit_or x y ∷ or_bytes xs ys

abbrev pub combine_from : BloomFilter → List BloomFilter → BloomFilter
combine_from res [] = res
combine_from res (bf ∷ filters) = combine_from (or_bytes res bf) filters

-- The filter of a block, from those of its receipts.
unfoldable pub combine_bloom_filters : List BloomFilter → BloomFilter
combine_bloom_filters filters = combine_from (replicate 256 0) filters
