-- ===== src/Baseline/Analysis/Padding.antt =====
-- `pad_code` and the map of `analyze` (lib/zvmone/baseline.cpp), as the interpreter uses them.
use zvmone.Prelude.{
  ℕ, zero, suc, ◌+◌, ◌≤◌, ◌<◌, ◌^◌, ◌≡◌, refl, ◌∙◌, Bool, true, false, Option, none, some, List, [],
  ◌∷◌, ◌++◌, inl, inr, Bool-cases, arith, length, length-append, length-replicate, length-set,
  replicate, get_elem?, ◌==◌,
}
use zvmone.Zvmc.{Message}
use zvmone.Instructions.Safety.Conforming.{IsContext}
use zvmone.Baseline.Analysis.{
  analyze_from, analyze_jumpdests, pad_code, analyze, is_push, skip_data, mark, op_jumpdest_byte,
}

pub length-mark : (op i : ℕ) (map : List Bool) → length (mark op i map) ≡ length map
length-mark op i map = elim (Bool-cases (is_push op)) [
  | inl push ↦ rw push refl
  | inr other ↦ rw other (elim (Bool-cases (op == op_jumpdest_byte)) [
    | inl dest ↦ rw dest (length-set map i true)
    | inr none_ ↦ rw none_ refl
  ])
]

length-analyze_from :
    (rounds : ℕ) (code : List ℕ) (i : ℕ) (map : List Bool)
    → length (analyze_from rounds code i map) ≡ length map
unfolding analyze_from
length-analyze_from zero code i map = refl
length-analyze_from (suc rounds) code i map =
    by_byte (λ op. length-analyze_from rounds code (skip_data op i + 1) (mark op i map))
      (get_elem? code i)
  where
    by_byte :
        ((op : ℕ)
          → length (analyze_from rounds code (skip_data op i + 1) (mark op i map))
            ≡ length (mark op i map))
        → (o : Option ℕ)
        → length (elim o [
          | none ↦ map
          | some op ↦ analyze_from rounds code (skip_data op i + 1) (mark op i map)
        ])
          ≡ length map
    by_byte rest none = refl
    by_byte rest (some op) = rest op ∙ length-mark op i map

pub length-analyze_jumpdests : (code : List ℕ) → length (analyze_jumpdests code) ≡ length code
unfolding analyze_jumpdests
length-analyze_jumpdests code =
    length-analyze_from (length code) code 0 _ ∙ length-replicate {A = Bool} (length code) false

get_elem?-replicate : (n a i : ℕ) → i < n → get_elem? (replicate n a) i ≡ some a
get_elem?-replicate zero a i h = absurd (omega arith)
get_elem?-replicate (suc n) a zero h = refl
get_elem?-replicate (suc n) a (suc i) h = get_elem?-replicate n a i (omega arith)

padding-get :
    (code : List ℕ) (n i : ℕ)
    → length code ≤ i
    → i < length code + n
    → get_elem? (code ++ replicate n 0) i ≡ some 0
padding-get [] n i h b = get_elem?-replicate n 0 i (omega arith)
padding-get (c ∷ code) n zero h b = absurd (omega arith)
padding-get (c ∷ code) n (suc i) h b = padding-get code n i (omega arith) (omega arith)

length-padded : (code : List ℕ) → length (code ++ replicate 33 0) ≡ length code + 33
length-padded code = length-append code (replicate 33 0)

-- For a code and an input shorter than 2^63 bytes, the padded code has 33 bytes more than the
-- code, all of them STOP, and the map of the jump destinations has the length of the code.
pub analyze-IsContext :
    (msg : Message) (code : List ℕ)
    → length code < 2 ^ 63
    → length msg.input < 2 ^ 63
    → IsContext (analyze msg code)
unfolding analyze pad_code analyze_jumpdests
analyze-IsContext msg code a b = record {
  padded_length = length-padded code;
  stops = λ i h k. padding-get code 33 i h (omega (arith, length-padded code));
  map_length = length-analyze_jumpdests code;
  code_small = a;
  input_small = b;
}
