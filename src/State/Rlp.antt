-- ===== src/State/Rlp.antt =====
-- The RLP encoding of test/state/rlp.hpp.
pub mod Decode
use zvmone.Prelude.{
  ℕ, ◌+◌, ◌/◌, ◌%◌, ◌^◌, Bool, ◌&&◌, List, [], ◌∷◌, ◌++◌, map, length, get_or, ltb, leb, ◌==◌,
  if◌then◌else◌,
}
use zvmone.Uint256.{Uint256}
use zvmone.Platform.{Intx}

-- For lengths up to 0xffffff, which the source asserts.
unfoldable pub encode_length : ℕ → ℕ → ℕ → List ℕ
encode_length short_base long_base l =
    let l0 = l % 256 in
    let l1 = l / 2 ^ 8 % 256 in
    if leb l 55
    then ((short_base + l) % 256) ∷ []
    else if leb l 0xff
    then (long_base + 1) ∷ l0 ∷ []
    else if leb l 0xffff
    then (long_base + 2) ∷ l1 ∷ l0 ∷ []
    else (long_base + 3) ∷ l / 2 ^ 16 % 256 ∷ l1 ∷ l0 ∷ []

unfoldable pub wrap_list : List ℕ → List ℕ
unfolding encode_length
wrap_list content = encode_length 192 247 (length content) ++ content

-- Without the zeros at the start.
unfoldable pub trim : List ℕ → List ℕ
trim [] = []
trim (b ∷ bytes) = if b == 0 then trim bytes else b ∷ bytes

-- `encode(bytes_view)`
unfoldable pub encode_bytes : List ℕ → List ℕ
unfolding encode_length
encode_bytes bytes =
    if (length bytes == 1) && ltb (get_or bytes 0 0) 128
    then get_or bytes 0 0 ∷ []
    else encode_length 128 183 (length bytes) ++ bytes

unfoldable pub encode_uint64 : Intx → ℕ → List ℕ
unfolding encode_bytes trim
encode_uint64 intx x = encode_bytes (trim (intx.be_store_uint64 x))

unfoldable pub encode_uint256 : Intx → Uint256 → List ℕ
unfolding encode_bytes trim
encode_uint256 intx x = encode_bytes (trim (intx.be_store x))

abbrev pub concat : List (List ℕ) → List ℕ
concat [] = []
concat (x ∷ xs) = x ++ concat xs

-- From the encodings of the elements.
unfoldable pub encode_tuple : List (List ℕ) → List ℕ
unfolding wrap_list
encode_tuple elements = wrap_list (concat elements)

unfoldable pub encode_container {ℓ} : {A : Type ℓ} → (A → List ℕ) → List A → List ℕ
unfolding wrap_list
encode_container encode xs = wrap_list (concat (map encode xs))
