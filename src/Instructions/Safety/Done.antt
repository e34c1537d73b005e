-- ===== src/Instructions/Safety/Done.antt =====
-- What an instruction that goes on leaves, and the rules for the steps that instructions share.
use zvmone.Prelude.{ℕ, ◌+◌, ◌≤◌, List, [], ◌∷◌, arith, length}
use zvmone.Prelude.Int.{ℤ, ◌≤ℤ◌}
use zvmone.Uint256.{Uint256}
use zvmone.Exec.{Frame, Outcome, Exec, with_stack}
use zvmone.Exec.Rules.{IsFrame, Safe}

module _ {H : Type 0} where
  -- A frame with at least `n` stack items and at most the gas `g`.
  pub record IsDone (n : ℕ) (g : ℤ) (f : Frame H) : Type 0 where
    pub frame : IsFrame f
    pub height : n ≤ length f.stack
    pub paid : f.gas_left ≤ℤ g

  -- The outcome of an instruction run on `f` that should leave `n` stack items.
  abbrev pub Finishes : ℕ → Frame H → Outcome H (Unit {0}) → Type 0
  Finishes n f o = Safe (λ u f'. IsDone n f.gas_left f') o

  -- An instruction that reads `k` items and leaves `j` in their place.
  abbrev pub Meets : ℕ → ℕ → Exec H (Unit {0}) → Type 0
  Meets k j fn =
      (n : ℕ) (f : Frame H) → IsFrame f → n + k ≤ length f.stack → Finishes (n + j) f (fn f)

  items1_on :
      (j : ℕ) (fn : Exec H (Unit {0}))
      → ((a : Uint256) (s : List Uint256) (n : ℕ) (f : Frame H)
          → IsFrame f
          → n ≤ length s
          → Finishes (n + j) f (fn (with_stack (a ∷ s) f)))
      → (n : ℕ) (s : List Uint256) (f : Frame H) → IsFrame f
      → n + 1 ≤ length s
      → Finishes (n + j) f (fn (with_stack s f))
  items1_on j fn step n [] f v h = absurd (omega arith)
  items1_on j fn step n (a ∷ s) f v h = step a s n f v (omega arith)

  pub items1 :
      (j : ℕ) (fn : Exec H (Unit {0}))
      → ((a : Uint256) (s : List Uint256) (n : ℕ) (f : Frame H)
          → IsFrame f
          → n ≤ length s
          → Finishes (n + j) f (fn (with_stack (a ∷ s) f)))
      → Meets 1 j fn
  items1 j fn step n f v h = items1_on j fn step n f.stack f v h

  items2_on :
      (j : ℕ) (fn : Exec H (Unit {0}))
      → ((a b : Uint256) (s : List Uint256) (n : ℕ) (f : Frame H)
          → IsFrame f
          → n ≤ length s
          → Finishes (n + j) f (fn (with_stack (a ∷ b ∷ s) f)))
      → (n : ℕ) (s : List Uint256) (f : Frame H) → IsFrame f
      → n + 2 ≤ length s
      → Finishes (n + j) f (fn (with_stack s f))
  items2_on j fn step n [] f v h = absurd (omega arith)
  items2_on j fn step n (a ∷ []) f v h = absurd (omega arith)
  items2_on j fn step n (a ∷ b ∷ s) f v h = step a b s n f v (omega arith)

  pub items2 :
      (j : ℕ) (fn : Exec H (Unit {0}))
      → ((a b : Uint256) (s : List Uint256) (n : ℕ) (f : Frame H)
          → IsFrame f
          → n ≤ length s
          → Finishes (n + j) f (fn (with_stack (a ∷ b ∷ s) f)))
      → Meets 2 j fn
  items2 j fn step n f v h = items2_on j fn step n f.stack f v h

  items3_on :
      (j : ℕ) (fn : Exec H (Unit {0}))
      → ((a b c : Uint256) (s : List Uint256) (n : ℕ) (f : Frame H)
          → IsFrame f
          → n ≤ length s
          → Finishes (n + j) f (fn (with_stack (a ∷ b ∷ c ∷ s) f)))
      → (n : ℕ) (s : List Uint256) (f : Frame H) → IsFrame f
      → n + 3 ≤ length s
      → Finishes (n + j) f (fn (with_stack s f))
  items3_on j fn step n [] f v h = absurd (omega arith)
  items3_on j fn step n (a ∷ []) f v h = absurd (omega arith)
  items3_on j fn step n (a ∷ b ∷ []) f v h = absurd (omega arith)
  items3_on j fn step n (a ∷ b ∷ c ∷ s) f v h = step a b c s n f v (omega arith)

  pub items3 :
      (j : ℕ) (fn : Exec H (Unit {0}))
      → ((a b c : Uint256) (s : List Uint256) (n : ℕ) (f : Frame H)
          → IsFrame f
          → n ≤ length s
          → Finishes (n + j) f (fn (with_stack (a ∷ b ∷ c ∷ s) f)))
      → Meets 3 j fn
  items3 j fn step n f v h = items3_on j fn step n f.stack f v h

  items4_on :
      (j : ℕ) (fn : Exec H (Unit {0}))
      → ((a b c d : Uint256) (s : List Uint256) (n : ℕ) (f : Frame H)
          → IsFrame f
          → n ≤ length s
          → Finishes (n + j) f (fn (with_stack (a ∷ b ∷ c ∷ d ∷ s) f)))
      → (n : ℕ) (s : List Uint256) (f : Frame H) → IsFrame f
      → n + 4 ≤ length s
      → Finishes (n + j) f (fn (with_stack s f))
  items4_on j fn step n [] f v h = absurd (omega arith)
  items4_on j fn step n (a ∷ []) f v h = absurd (omega arith)
  items4_on j fn step n (a ∷ b ∷ []) f v h = absurd (omega arith)
  items4_on j fn step n (a ∷ b ∷ c ∷ []) f v h = absurd (omega arith)
  items4_on j fn step n (a ∷ b ∷ c ∷ d ∷ s) f v h = step a b c d s n f v (omega arith)

  pub items4 :
      (j : ℕ) (fn : Exec H (Unit {0}))
      → ((a b c d : Uint256) (s : List Uint256) (n : ℕ) (f : Frame H)
          → IsFrame f
          → n ≤ length s
          → Finishes (n + j) f (fn (with_stack (a ∷ b ∷ c ∷ d ∷ s) f)))
      → Meets 4 j fn
  items4 j fn step n f v h = items4_on j fn step n f.stack f v h

  items6_on :
      (j : ℕ) (fn : Exec H (Unit {0}))
      → ((a b c d e q : Uint256) (s : List Uint256) (n : ℕ) (f : Frame H)
          → IsFrame f
          → n ≤ length s
          → Finishes (n + j) f (fn (with_stack (a ∷ b ∷ c ∷ d ∷ e ∷ q ∷ s) f)))
      → (n : ℕ) (s : List Uint256) (f : Frame H) → IsFrame f
      → n + 6 ≤ length s
      → Finishes (n + j) f (fn (with_stack s f))
  items6_on j fn step n [] f v h = absurd (omega arith)
  items6_on j fn step n (a ∷ []) f v h = absurd (omega arith)
  items6_on j fn step n (a ∷ b ∷ []) f v h = absurd (omega arith)
  items6_on j fn step n (a ∷ b ∷ c ∷ []) f v h = absurd (omega arith)
  items6_on j fn step n (a ∷ b ∷ c ∷ d ∷ []) f v h = absurd (omega arith)
  items6_on j fn step n (a ∷ b ∷ c ∷ d ∷ e ∷ []) f v h = absurd (omega arith)
  items6_on j fn step n (a ∷ b ∷ c ∷ d ∷ e ∷ q ∷ s) f v h = step a b c d e q s n f v (omega arith)

  pub items6 :
      (j : ℕ) (fn : Exec H (Unit {0}))
      → ((a b c d e q : Uint256) (s : List Uint256) (n : ℕ) (f : Frame H)
          → IsFrame f
          → n ≤ length s
          → Finishes (n + j) f (fn (with_stack (a ∷ b ∷ c ∷ d ∷ e ∷ q ∷ s) f)))
      → Meets 6 j fn
  items6 j fn step n f v h = items6_on j fn step n f.stack f v h

  items7_on :
      (j : ℕ) (fn : Exec H (Unit {0}))
      → ((a b c d e q r : Uint256) (s : List Uint256) (n : ℕ) (f : Frame H)
          → IsFrame f
          → n ≤ length s
          → Finishes (n + j) f (fn (with_stack (a ∷ b ∷ c ∷ d ∷ e ∷ q ∷ r ∷ s) f)))
      → (n : ℕ) (s : List Uint256) (f : Frame H) → IsFrame f
      → n + 7 ≤ length s
      → Finishes (n + j) f (fn (with_stack s f))
  items7_on j fn step n [] f v h = absurd (omega arith)
  items7_on j fn step n (a ∷ []) f v h = absurd (omega arith)
  items7_on j fn step n (a ∷ b ∷ []) f v h = absurd (omega arith)
  items7_on j fn step n (a ∷ b ∷ c ∷ []) f v h = absurd (omega arith)
  items7_on j fn step n (a ∷ b ∷ c ∷ d ∷ []) f v h = absurd (omega arith)
  items7_on j fn step n (a ∷ b ∷ c ∷ d ∷ e ∷ []) f v h = absurd (omega arith)
  items7_on j fn step n (a ∷ b ∷ c ∷ d ∷ e ∷ q ∷ []) f v h = absurd (omega arith)
  items7_on j fn step n (a ∷ b ∷ c ∷ d ∷ e ∷ q ∷ r ∷ s) f v h =
      step a b c d e q r s n f v (omega arith)

  pub items7 :
      (j : ℕ) (fn : Exec H (Unit {0}))
      → ((a b c d e q r : Uint256) (s : List Uint256) (n : ℕ) (f : Frame H)
          → IsFrame f
          → n ≤ length s
          → Finishes (n + j) f (fn (with_stack (a ∷ b ∷ c ∷ d ∷ e ∷ q ∷ r ∷ s) f)))
      → Meets 7 j fn
  items7 j fn step n f v h = items7_on j fn step n f.stack f v h
