-- ===== src/State/Maps.antt =====
-- The unordered maps of test/state, as association lists over bytes. A key stands in them once.
use zvmone.Prelude.{
  ◌≡◌, refl, sym, inl, inr, Bool, false, Bool-cases, ℕ, Option, none, some, List, [], ◌∷◌,
  if◌then◌else◌,
}
use zvmone.State.Bytes.{same_bytes, same_bytes_refl, same_bytes-eq}

abbrev pub Map : Type 0 → Type 0
Map A = List (List ℕ × A)

module _ {A : Type 0} where
  -- `find`
  abbrev pub lookup : List ℕ → Map A → Option A
  lookup k [] = none
  lookup k ((key, v) ∷ m) = if same_bytes key k then some v else lookup k m

  -- The value under the key is written, in place or as a new entry.
  abbrev pub update : List ℕ → A → Map A → Map A
  update k v [] = (k, v) ∷ []
  update k v ((key, w) ∷ m) =
      let rest = update k v m in if same_bytes key k then (key, v) ∷ m else (key, w) ∷ rest

  -- `std::erase_if`
  abbrev pub erase_if : (A → Bool) → Map A → Map A
  erase_if test [] = []
  erase_if test ((key, v) ∷ m) =
      let rest = erase_if test m in if test v then rest else (key, v) ∷ rest

  pub lookup-update_same : (k : List ℕ) (v : A) (m : Map A) → lookup k (update k v m) ≡ some v
  lookup-update_same k v [] = rw (same_bytes_refl k) refl
  lookup-update_same k v ((key, w) ∷ m) = elim (Bool-cases (same_bytes key k)) [
    | inl e ↦ rw (update, e, e) refl
    | inr e ↦ rw (update, e, e) (lookup-update_same k v m)
  ]

  pub lookup-update_other :
      (k l : List ℕ) (v : A) (m : Map A)
      → same_bytes k l ≡ false
      → lookup l (update k v m) ≡ lookup l m
  lookup-update_other k l v [] h = rw h refl
  lookup-update_other k l v ((key, w) ∷ m) h = elim (Bool-cases (same_bytes key k)) [
    | inl e ↦
        let same = same_bytes-eq key k e in
        let other : same_bytes key l ≡ false = rw same h in rw (update, e, other) refl
    | inr e ↦
        rw (update, e)
          (elim (Bool-cases (same_bytes key l)) [
            | inl f ↦ rw f refl
            | inr f ↦ rw f (lookup-update_other k l v m h)
          ])
  ]

-- There is an entry under the key.
abbrev pub Exists : {A : Type 0} → List ℕ → Map A → Type 0
Exists {A} k m = (v : A) × (lookup k m ≡ some v)

pub Exists-update :
    {A : Type 0} (k l : List ℕ) (v : A) (m : Map A) → Exists l m → Exists l (update k v m)
Exists-update k l v m (w, e) = elim (Bool-cases (same_bytes k l)) [
  | inl same ↦ let at = same_bytes-eq k l same in (v, rw (sym at) (lookup-update_same k v m))
  | inr other ↦ (w, rw (lookup-update_other k l v m other) e)
]
