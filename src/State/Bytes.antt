-- ===== src/State/Bytes.antt =====
-- Addresses, keys and hashes as bytes (zvmc::address and zvmc::bytes32).
use zvmone.Prelude.{
  ℕ, ◌≡◌, refl, Bool, true, false, ◌&&◌, Bool-cases, inl, inr, List, [], ◌∷◌, ==_iff, ◌==◌,
}

-- `==` on bytes
abbrev pub same_bytes : List ℕ → List ℕ → Bool
same_bytes [] [] = true
same_bytes [] (y ∷ ys) = false
same_bytes (x ∷ xs) [] = false
same_bytes (x ∷ xs) (y ∷ ys) = (x == y) && same_bytes xs ys

pub same_bytes_refl : (xs : List ℕ) → same_bytes xs xs ≡ true
same_bytes_refl [] = refl
same_bytes_refl (x ∷ xs) =
    let same = (==_iff x x).1 refl in let rest = same_bytes_refl xs in rw (same, rest) refl

pub same_bytes-eq : (xs ys : List ℕ) → same_bytes xs ys ≡ true → xs ≡ ys
same_bytes-eq [] [] h = refl
same_bytes-eq [] (y ∷ ys) h = cc
same_bytes-eq (x ∷ xs) [] h = cc
same_bytes-eq (x ∷ xs) (y ∷ ys) h = elim (Bool-cases (x == y)) [
  | inl e ↦
      let rest : same_bytes xs ys ≡ true = cc in
      let head = (==_iff x y).0 e in let tail = same_bytes-eq xs ys rest in cc
  | inr e ↦ absurd cc
]
