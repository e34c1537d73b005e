-- ===== src/State/Rlp/Decode.antt =====
-- Reading the encoding of test/state/rlp.hpp back.
use zvmone.Prelude.{
  ℕ, ◌+◌, ◌-◌, ◌≤◌, ◌<◌, ◌%◌, ◌^◌, ◌/◌, length-append, take-append, drop-append, ◌≡◌, refl, inl,
  inr, arith, Bool, true, false, ◌&&◌, Bool-cases, Option, none, some, List, [], ◌∷◌, ◌++◌, length,
  take, drop, get_or, ltb, leb, ◌==◌, if◌then◌else◌,
}
use mathlib.Core.List.{append_assoc}
use zvmone.Platform.{big_endian}
use zvmone.State.Rlp.{encode_length, wrap_list, encode_bytes}

-- The length that a first byte and the bytes after it tell, and what follows.
abbrev pub read_length : ℕ → ℕ → ℕ → List ℕ → ℕ × List ℕ
read_length short_base long_base b rest =
    if leb b long_base
    then (b - short_base, rest)
    else (big_endian (take (b - long_base) rest), drop (b - long_base) rest)

abbrev pub split : Bool → ℕ × List ℕ → Option (Bool × List ℕ × List ℕ)
split is_list (n, rest) =
    if leb n (length rest) then some (is_list, take n rest, drop n rest) else none

-- The first item: whether it is a list, its content, and the bytes behind it.
unfoldable pub decode_item : List ℕ → Option (Bool × List ℕ × List ℕ)
decode_item [] = none
decode_item (b ∷ rest) =
    if ltb b 128
    then some (false, b ∷ [], rest)
    else if ltb b 192
    then split false (read_length 128 183 b rest)
    else split true (read_length 192 247 b rest)

split-content :
    (is_list : Bool) (content rest : List ℕ)
    → split is_list (length content, content ++ rest) ≡ some (is_list, content, rest)
split-content is_list content rest =
    let long = length-append content rest in
    let inside : leb (length content) (length (content ++ rest)) ≡ true = ground (arith, long) in
    rw (inside, take-append content rest, drop-append content rest) refl

-- What the first byte of a length and the others say.
record Reads (short_base long_base l : ℕ) (rest : List ℕ) : Type 0 where
  first : ℕ
  others : List ℕ
  encoded : encode_length short_base long_base l ≡ first ∷ others
  above : short_base ≤ first
  below : first ≤ long_base + 3
  read : read_length short_base long_base first (others ++ rest) ≡ (l, rest)

read_others :
    (short_base long_base l : ℕ) (others rest : List ℕ)
    → 0 < length others
    → big_endian others ≡ l
    → read_length short_base long_base (long_base + length others) (others ++ rest) ≡ (l, rest)
read_others short_base long_base l others rest h e =
    let n = length others in
    let above : leb (long_base + n) long_base ≡ false = ground arith in
    let minus : long_base + n - long_base ≡ n = omega arith in
    rw (above, minus, take-append others rest, drop-append others rest, e) refl

with_others :
    (short_base long_base l : ℕ) (others rest : List ℕ)
    → encode_length short_base long_base l ≡ (long_base + length others) ∷ others
    → short_base ≤ long_base
    → 0 < length others
    → length others ≤ 3
    → big_endian others ≡ l
    → Reads short_base long_base l rest
with_others short_base long_base l others rest e s h k same = record {
  first = long_base + length others;
  others = others;
  encoded = e;
  above = omega arith;
  below = omega arith;
  read = read_others short_base long_base l others rest h same;
}

encode_length-Reads :
    (short_base l : ℕ) (rest : List ℕ)
    → short_base ≤ 192
    → l ≤ 0xffffff
    → Reads short_base (short_base + 55) l rest
unfolding encode_length
encode_length-Reads short_base l rest s h =
    let long_base = short_base + 55 in
    elim (Bool-cases (leb l 55)) [
      | inl short ↦
          let fits : (short_base + l) % 256 ≡ short_base + l = ground arith in
          let inside : leb (short_base + l) long_base ≡ true = ground arith in
          let minus : short_base + l - short_base ≡ l = omega arith in
          record {
            first = short_base + l;
            others = [];
            encoded = rw (encode_length, short, fits) refl;
            above = omega arith;
            below = ground arith;
            read = rw (inside, minus) refl;
          }
      | inr n1 ↦ elim (Bool-cases (leb l 0xff)) [
        | inl one ↦
            with_others short_base long_base l (l % 256 ∷ []) rest
              (rw (encode_length, n1, one) refl) (omega arith) (omega arith) (omega arith)
              (ground arith)
        | inr n2 ↦ elim (Bool-cases (leb l 0xffff)) [
          | inl two ↦
              with_others short_base long_base l (l / 2 ^ 8 % 256 ∷ l % 256 ∷ []) rest
                (rw (encode_length, n1, n2, two) refl) (omega arith) (omega arith) (omega arith)
                (ground arith)
          | inr n3 ↦
              with_others short_base long_base l (l / 2 ^ 16 % 256 ∷ l / 2 ^ 8 % 256 ∷ l % 256 ∷ [])
                rest (rw (encode_length, n1, n2, n3) refl) (omega arith) (omega arith) (omega arith)
                (omega arith)
        ]
      ]
    ]

single_byte :
    (content rest : List ℕ)
    → ((length content == 1) && ltb (get_or content 0 0) 128) ≡ true
    → decode_item (get_or content 0 0 ∷ rest) ≡ some (false, content, rest)
unfolding decode_item
single_byte [] rest h = cc
single_byte (b ∷ []) rest h = rw h refl
single_byte (b ∷ c ∷ content) rest h = absurd (ground arith)

-- The encoding of a byte string and that of a list, of at most 2^24 - 1 bytes, are read back by a
-- decoder that is told nothing else, whatever bytes follow: it gives the kind, the content and the
-- bytes behind.
pub decode_item-encode :
    (content rest : List ℕ)
    → length content ≤ 0xffffff
    → (decode_item (encode_bytes content ++ rest) ≡ some (false, content, rest))
      × (decode_item (wrap_list content ++ rest) ≡ some (true, content, rest))
unfolding decode_item encode_bytes wrap_list
decode_item-encode content rest h = (
  elim (Bool-cases ((length content == 1) && ltb (get_or content 0 0) 128)) [
    | inl single ↦ rw single (single_byte content rest single)
    | inr plain ↦ rw plain (
        let r = encode_length-Reads 128 (length content) (content ++ rest) (omega arith) h in
        let not_single : ltb r.first 128 ≡ false = ground (arith, r.above) in
        let string : ltb r.first 192 ≡ true = ground (arith, r.below) in
        rw (r.encoded, append_assoc r.others content rest, not_single, string, r.read)
          (split-content false content rest))
  ],
  (let r = encode_length-Reads 192 (length content) (content ++ rest) (omega arith) h in
      let not_single : ltb r.first 128 ≡ false = ground (arith, r.above) in
      let list : ltb r.first 192 ≡ false = ground (arith, r.above) in
      rw (r.encoded, append_assoc r.others content rest, not_single, list, r.read)
        (split-content true content rest)),
)
