-- ===== src/Baseline/Pushes/Numbers.antt =====
-- The numbers that runs of bytes spell.
use zvmone.Prelude.{
  ℕ, zero, suc, ◌+◌, ◌*◌, ◌≤◌, ◌<◌, ◌≡◌, refl, ◌∙◌, ap, List, [], ◌∷◌, ◌++◌, arith, length,
  length-take, length-drop, take, drop,
}
use zvmone.Platform.{big_endian, big_endian_from}
use zvmone.Baseline.Analysis.Boundary.{AreBytes}

abbrev pub pow256 : ℕ → ℕ
pow256 zero = 1
pow256 (suc n) = 256 * pow256 n

-- The number that the `n` bytes from index `i` on spell.
abbrev pub number_at : List ℕ → ℕ → ℕ → ℕ
number_at code i n = big_endian (take n (drop i code))

big_endian_from_lem :
    (acc : ℕ) (bytes : List ℕ)
    → big_endian_from acc bytes ≡ acc * pow256 (length bytes) + big_endian bytes
big_endian_from_lem acc [] = omega arith
big_endian_from_lem acc (b ∷ bytes) =
    rw (big_endian_from_lem (acc * 256 + b) bytes, big_endian_from_lem (0 * 256 + b) bytes)
      (grind arith)

big_endian-append :
    (acc : ℕ) (xs ys : List ℕ)
    → big_endian_from acc (xs ++ ys) ≡ big_endian_from (big_endian_from acc xs) ys
big_endian-append acc [] ys = refl
big_endian-append acc (x ∷ xs) ys = big_endian-append (acc * 256 + x) xs ys

take-add : (m n : ℕ) (xs : List ℕ) → take (m + n) xs ≡ take m xs ++ take n (drop m xs)
take-add zero n xs = let e : 0 + n ≡ n = omega arith in rw e refl
take-add (suc m) n [] = let e : suc m + n ≡ suc (m + n) = omega arith in rw e (take_nil n)
  where
    take_nil : (n : ℕ) → ◌≡◌ {A = List ℕ} [] (take n [])
    take_nil zero = refl
    take_nil (suc n) = refl
take-add (suc m) n (x ∷ xs) =
    let e : suc m + n ≡ suc (m + n) = omega arith in rw e (ap (λ l. x ∷ l) (take-add m n xs))

drop-add : (i m : ℕ) (xs : List ℕ) → drop (i + m) xs ≡ drop m (drop i xs)
drop-add zero m xs = let e : 0 + m ≡ m = omega arith in rw e refl
drop-add (suc i) m [] = let e : suc i + m ≡ suc (i + m) = omega arith in rw e (drop_nil m)
  where
    drop_nil : (n : ℕ) → ◌≡◌ {A = List ℕ} [] (drop n [])
    drop_nil zero = refl
    drop_nil (suc n) = refl
drop-add (suc i) m (x ∷ xs) =
    let e : suc i + m ≡ suc (i + m) = omega arith in rw e (drop-add i m xs)

-- A number is cut in two between its bytes.
pub number_at_split :
    (code : List ℕ) (i m n : ℕ)
    → i + (m + n) ≤ length code
    → number_at code i (m + n) ≡ number_at code i m * pow256 n + number_at code (i + m) n
number_at_split code i m n h =
    let l : length (take n (drop m (drop i code))) ≡ n = ground (
      arith,
      length-take n (drop m (drop i code)),
      length-drop m (drop i code),
      length-drop i code,
    ) in
    ap big_endian (take-add m n (drop i code))
    ∙ big_endian-append 0 (take m (drop i code)) (take n (drop m (drop i code)))
    ∙ big_endian_from_lem (number_at code i m) (take n (drop m (drop i code)))
    ∙ rw (l, drop-add i m code) refl

drop-AreBytes : (i : ℕ) (code : List ℕ) → AreBytes code → AreBytes (drop i code)
drop-AreBytes zero code v = v
drop-AreBytes (suc i) [] v = v
drop-AreBytes (suc i) (b ∷ code) v = drop-AreBytes i code v.1

take-AreBytes : (i : ℕ) (code : List ℕ) → AreBytes code → AreBytes (take i code)
take-AreBytes zero code v = tt
take-AreBytes (suc i) [] v = v
take-AreBytes (suc i) (b ∷ code) v = (v.0, take-AreBytes i code v.1)

big_endian-lt : (bytes : List ℕ) → AreBytes bytes → big_endian bytes < pow256 (length bytes)
big_endian-lt [] v = omega arith
big_endian-lt (b ∷ bytes) v =
    rw (big_endian_from_lem (0 * 256 + b) bytes)
      (below b (pow256 (length bytes)) (big_endian bytes) v.0 (big_endian-lt bytes v.1))
  where
    below : (b p r : ℕ) → b < 256 → r < p → (0 * 256 + b) * p + r < 256 * p
    below b p r h k = grind arith

pub number_at-lt :
    (code : List ℕ) (i n : ℕ) → AreBytes code → i + n ≤ length code → number_at code i n < pow256 n
number_at-lt code i n v h =
    let l : length (take n (drop i code)) ≡ n =
      ground (arith, length-take n (drop i code), length-drop i code) in
    let b = big_endian-lt (take n (drop i code)) (take-AreBytes n _ (drop-AreBytes i code v)) in
    (rw l at b)
