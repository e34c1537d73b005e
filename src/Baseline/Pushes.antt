-- ===== src/Baseline/Pushes.antt =====
-- The word that PUSH reads from the code.
pub mod Numbers
use zvmone.Prelude.{
  ℕ, zero, suc, ◌+◌, ◌-◌, ◌*◌, ◌/◌, ◌%◌, ◌^◌, ◌≤◌, ◌<◌, ◌≡◌, ◌≢◌, refl, sym, ◌∙◌, ap, Bool, true,
  false, none, some, List, [], ◌∷◌, ◌++◌, inl, inr, Bool-cases, arith, length, length-take,
  length-drop, take, drop, leb, min, ◌==◌, if◌then◌else◌,
}
use zvmone.Uint256.{Uint256, of_uint64, set_word, value}
use zvmone.Platform.{Platform, IsPlatform, Intx, big_endian, big_endian_from}
use zvmone.Exec.{Frame, Exec, Context, with_stack, Outcome, ok, read_buffer, ◌>>=◌, pure}
use zvmone.Instructions.Flow.{load_partial_push_data, load_full_words, push_data, push}
use zvmone.Baseline.Analysis.Boundary.{AreBytes}
use Numbers.{pow256, number_at, number_at_split, number_at-lt}

read_buffer-eq_ok :
    {H : Type 0} (code : List ℕ) (i n : ℕ) (f : Frame H)
    → 1 ≤ n
    → i + n ≤ length code
    → read_buffer code i n f ≡ ok (take n (drop i code)) f
unfolding read_buffer
read_buffer-eq_ok code i n f h b =
    let e : (n == 0) ≡ false = ground arith in
    let fits : leb (i + n) (length code) ≡ true = ground arith in rw (e, fits) refl

bind-eq_ok :
    {H A B : Type 0} (m : Exec H A) (k : A → Exec H B) (f : Frame H) (a : A) (f' : Frame H)
    (o : Outcome H B)
    → m f ≡ ok a f'
    → k a f' ≡ o
    → (m >>= k) f ≡ o
bind-eq_ok m k f a f' o e h = rw (◌>>=◌, e) h

module _ {H : Type 0} (p : Platform H) (w : IsPlatform p) (code : List ℕ) where
  load_number : (i n : ℕ) → n ≤ 8 → p.intx.be_load_uint (take n (drop i code)) ≡ number_at code i n
  load_number i n h =
      w.be_load_uint_value (take n (drop i code)) (omega (arith, length-take n (drop i code)))

  -- The word that the bytes left fill up from the word `left - 1` down.
  full_words : ℕ → ℕ → Uint256 → Uint256
  full_words zero i r = r
  full_words (suc left) i r = full_words left (i + 8) (set_word r left (number_at code i 8))

  load_full_words-eq_ok :
      (left i : ℕ) (r : Uint256) (f : Frame H)
      → i + left * 8 ≤ length code
      → load_full_words p.intx code left i r f ≡ ok (full_words left i r) f
  unfolding load_full_words full_words
  load_full_words-eq_ok zero i r f h = refl
  load_full_words-eq_ok (suc left) i r f h =
      bind-eq_ok (read_buffer code i 8) _ f _ f _
        (read_buffer-eq_ok code i 8 f (omega arith) (omega arith))
        (rw (load_number i 8 (omega arith)) (
          load_full_words-eq_ok left (i + 8) (set_word r left (number_at code i 8)) f
            (omega arith)))

  -- The words below `left` are zero.
  abbrev IsFree : ℕ → Uint256 → Type 0
  IsFree left r =
      ((1 ≤ left) → r.w0 ≡ 0)
      × ((2 ≤ left) → r.w1 ≡ 0)
      × ((3 ≤ left) → r.w2 ≡ 0)
      × ((4 ≤ left) → r.w3 ≡ 0)

  set_word-IsFree :
      (left : ℕ) (r : Uint256) (b : ℕ)
      → left < 4
      → IsFree (suc left) r
      → (value (set_word r left b) ≡ value r + b * pow256 (left * 8))
        × IsFree left (set_word r left b)
  set_word-IsFree zero r b h z = (
    omega (arith, z.0 (omega arith)),
    (
      (λ k. absurd (omega arith)),
      (λ k. absurd (omega arith)),
      (λ k. absurd (omega arith)),
      (λ k. absurd (omega arith)),
    ),
  )
  set_word-IsFree (suc zero) r b h z = (
    omega (arith, z.1 (omega arith)),
    (
      (λ k. z.0 (omega arith)),
      (λ k. absurd (omega arith)),
      (λ k. absurd (omega arith)),
      (λ k. absurd (omega arith)),
    ),
  )
  set_word-IsFree (suc (suc zero)) r b h z = (
    omega (arith, z.2 (omega arith)),
    (
      (λ k. z.0 (omega arith)),
      (λ k. z.1 (omega arith)),
      (λ k. absurd (omega arith)),
      (λ k. absurd (omega arith)),
    ),
  )
  set_word-IsFree (suc (suc (suc zero))) r b h z = (
    omega (arith, z.3 (omega arith)),
    (
      (λ k. z.0 (omega arith)),
      (λ k. z.1 (omega arith)),
      (λ k. z.2 (omega arith)),
      (λ k. absurd (omega arith)),
    ),
  )
  set_word-IsFree (suc (suc (suc (suc left)))) r b h z = absurd (omega arith)

  full_words-value :
      (left i : ℕ) (r : Uint256)
      → left ≤ 4
      → IsFree left r
      → i + left * 8 ≤ length code
      → value (full_words left i r) ≡ value r + number_at code i (left * 8)
  unfolding full_words
  full_words-value zero i r s z h = omega arith
  full_words-value (suc left) i r s z h =
      let (set, free) = set_word-IsFree left r (number_at code i 8) (omega arith) z in
      let split = number_at_split code i 8 (left * 8) (omega arith) in
      let e : suc left * 8 ≡ 8 + left * 8 = omega arith in
      let rest =
        full_words-value left (i + 8) (set_word r left (number_at code i 8)) (omega arith) free
          (omega arith) in
      rw e (omega (arith, split, set, rest))

  -- A load of `n` bytes, of which `g` makes the number `x`.
  read_part :
      (n i : ℕ) (g : ℕ → ℕ) {x : ℕ} (f : Frame H)
      → 1 ≤ n
      → n ≤ 8
      → i + 8 ≤ length code
      → g (number_at code i n) ≡ x
      → (do bytes ← read_buffer code i n; pure (g (p.intx.be_load_uint bytes))) f ≡ ok x f
  read_part n i g f h k b e =
      bind-eq_ok (read_buffer code i n) _ f _ f _ (read_buffer-eq_ok code i n f h (omega arith))
        (rw (load_number i n k, e) refl)

  load_partial-eq_ok :
      (r i : ℕ) (f : Frame H)
      → AreBytes code
      → 1 ≤ r
      → r ≤ 7
      → i + 8 ≤ length code
      → load_partial_push_data p.intx code r i f ≡ ok (number_at code i r) f
  unfolding load_partial_push_data
  load_partial-eq_ok (suc zero) i f v h k b =
      read_part 1 i (λ x. x) f (omega arith) (omega arith) b refl
  load_partial-eq_ok (suc (suc zero)) i f v h k b =
      read_part 2 i (λ x. x) f (omega arith) (omega arith) b refl
  load_partial-eq_ok (suc (suc (suc zero))) i f v h k b =
      read_part 4 i (λ x. x / 2 ^ 8) f (omega arith) (omega arith) b
        (omega (
          arith,
          number_at_split code i 3 1 (omega arith),
          number_at-lt code (i + 3) 1 v (omega arith),
        ))
  load_partial-eq_ok (suc (suc (suc (suc zero)))) i f v h k b =
      read_part 4 i (λ x. x) f (omega arith) (omega arith) b refl
  load_partial-eq_ok (suc (suc (suc (suc (suc zero))))) i f v h k b =
      read_part 8 i (λ x. x / 2 ^ 24) f (omega arith) (omega arith) b
        (omega (
          arith,
          number_at_split code i 5 3 (omega arith),
          number_at-lt code (i + 5) 3 v (omega arith),
        ))
  load_partial-eq_ok (suc (suc (suc (suc (suc (suc zero)))))) i f v h k b =
      read_part 8 i (λ x. x / 2 ^ 16) f (omega arith) (omega arith) b
        (omega (
          arith,
          number_at_split code i 6 2 (omega arith),
          number_at-lt code (i + 6) 2 v (omega arith),
        ))
  load_partial-eq_ok (suc (suc (suc (suc (suc (suc (suc zero))))))) i f v h k b =
      read_part 8 i (λ x. x / 2 ^ 8) f (omega arith) (omega arith) b
        (omega (
          arith,
          number_at_split code i 7 1 (omega arith),
          number_at-lt code (i + 7) 1 v (omega arith),
        ))
  load_partial-eq_ok zero i f v h k b = absurd (omega arith)
  load_partial-eq_ok (suc (suc (suc (suc (suc (suc (suc (suc r)))))))) i f v h k b =
      absurd (omega arith)

  -- The word of a PUSH with `len` bytes of data at index `i`.
  pushed : ℕ → ℕ → Uint256
  pushed len i =
      if len % 8 == 0
      then full_words (len / 8) i (of_uint64 0)
      else full_words (len / 8) (i + len % 8)
          (set_word (of_uint64 0) (len / 8) (number_at code i (len % 8)))

  push_data-eq_ok :
      (len i : ℕ) (f : Frame H)
      → AreBytes code
      → len ≤ 32
      → i + 32 ≤ length code
      → push_data p.intx code len i f ≡ ok (pushed len i) f
  unfolding push_data pushed
  push_data-eq_ok len i f v h b = elim (Bool-cases (len % 8 == 0)) [
    | inl whole ↦ rw whole (load_full_words-eq_ok (len / 8) i (of_uint64 0) f (omega arith))
    | inr part ↦ rw part (
        bind-eq_ok (load_partial_push_data p.intx code (len % 8) i) _ f _ f _
          (load_partial-eq_ok (len % 8) i f v (ground arith) (omega arith) (omega arith))
          (load_full_words-eq_ok (len / 8) (i + len % 8)
            (set_word (of_uint64 0) (len / 8) (number_at code i (len % 8))) f (omega arith)))
  ]

  zero-IsFree : (k : ℕ) → IsFree k (of_uint64 0)
  zero-IsFree k = ((λ h. refl), (λ h. refl), (λ h. refl), (λ h. refl))

  pushed-value :
      (len i : ℕ) → len ≤ 32 → i + 32 ≤ length code → value (pushed len i) ≡ number_at code i len
  unfolding pushed
  pushed-value len i h b = elim (Bool-cases (len % 8 == 0)) [
    | inl whole ↦
        let e : len / 8 * 8 ≡ len = ground arith in
        let words =
          full_words-value (len / 8) i (of_uint64 0) (omega arith) (zero-IsFree (len / 8))
            (omega arith) in
        rw whole (omega (arith, words, ap (number_at code i) e))
    | inr part ↦
        let k = len / 8 in
        let r = len % 8 in
        let some_bytes : r ≢ 0 = ground arith in
        let e : r + k * 8 ≡ len = omega arith in
        let (set, free) =
          set_word-IsFree k (of_uint64 0) (number_at code i r) (omega arith)
            (zero-IsFree (suc k)) in
        let words =
          full_words-value k (i + r) (set_word (of_uint64 0) k (number_at code i r)) (omega arith)
            free (omega arith) in
        let split = number_at_split code i r (k * 8) (omega arith) in
        rw part (omega (arith, words, set, split, ap (number_at code i) e))
  ]

module _ {H : Type 0} (p : Platform H) (w : IsPlatform p) (ctx : Context) where
  -- For a platform that keeps its laws, on a padded code of bytes with 33 bytes or more from the
  -- position on, PUSH1 to PUSH32 push the number that the data after the opcode spells, the most
  -- significant byte first, change nothing else and move behind the data.
  pub push-number_at :
      (len position : ℕ) (f : Frame H)
      → AreBytes ctx.padded_code
      → len ≤ 32
      → position + 33 ≤ length ctx.padded_code
      → (x : Uint256) × (push p ctx len position f
          ≡ ok (some (position + (len + 1))) (with_stack (x ∷ f.stack) f))
        × (value x ≡ number_at ctx.padded_code (position + 1) len)
  unfolding push
  push-number_at len position f v h b =
      let code = ctx.padded_code in
      let x = pushed p w code len (position + 1) in
      (
        x,
        bind-eq_ok (push_data p.intx code len (position + 1)) _ f x f _
            (push_data-eq_ok p w code len (position + 1) f v h (omega arith)) refl,
        pushed-value p w code len (position + 1) h (omega arith),
      )
