-- ===== src/Advanced/Safety/Runs.antt =====
-- The loop and the result of `execute` (lib/zvmone/advanced_execution.cpp).
use zvmone.Prelude.{
  ℕ, zero, suc, ◌+◌, ◌-◌, ◌*◌, ◌^◌, ◌≤◌, ◌<◌, ◌≡◌, refl, some, List, [], ◌∷◌, arith, length, drop,
}
use zvmone.Prelude.Int.{ℤ, pos, ◌-ℤ◌, ◌≤ℤ◌, pos_part, int_laws}
use zvmone.Memory.Grow.{new_memory-IsMemory}
use zvmone.Zvmc.{Message, CallResult}
use zvmone.Platform.{Platform, IsPlatform}
use zvmone.Baseline.{start}
use zvmone.Baseline.Invariant.{IsFinal}
use zvmone.Baseline.Execution.{IsResult, IsFinal-weaken, make_result-IsResult}
use zvmone.Advanced.Analysis.{BlockInfo, Instruction, AdvancedCodeAnalysis, analyze}
use zvmone.Advanced.Blocks.Chains.{analyze-Chain}
use zvmone.Advanced.Safety.{IsAt, within, Entering, IsNext, goes_on, jumps, ends}
use zvmone.Advanced.Safety.Blocks.{Begun, refused, begun}
use zvmone.Advanced.Safety.Jumps.{TargetsOpen, analyze-TargetsOpen}
use zvmone.Advanced.Safety.Rounds.{step-IsNext, step-Begun}
use zvmone.Advanced.Execution.{
  AdvancedState, Pointer, at, null, undefined, ended, run, step, advanced_context, start_advanced,
  enough_rounds, execute,
}

drop-inside :
    (xs ys : List Instruction) (x : Instruction) (i : ℕ) → drop i xs ≡ x ∷ ys → i < length xs
drop-inside [] ys x zero e = absurd cc
drop-inside [] ys x (suc i) e = absurd cc
drop-inside (z ∷ zs) ys x zero e = omega arith
drop-inside (z ∷ zs) ys x (suc i) e = let ih = drop-inside zs ys x i e in omega arith

product-lt : (a b k : ℕ) → a + 1 ≤ b → a * k + k ≤ b * k
product-lt a b k h = grind arith

-- Less gas leaves fewer rounds.
rounds-le : (a b : ℤ) (k : ℕ) → a ≤ℤ b → pos_part a * k ≤ pos_part b * k
rounds-le a b k h =
    let less : pos_part a ≤ pos_part b = ground arith in product (pos_part a) (pos_part b) less
  where
    product : (c d : ℕ) → c ≤ d → c * k ≤ d * k
    product c d l = grind arith

-- A charge of at least 1 does for the rounds of a block.
rounds-lt :
    (a b : ℤ) (c k : ℕ) → pos 0 ≤ℤ a → a ≡ b -ℤ pos c → 1 ≤ c → pos_part a * k + k ≤ pos_part b * k
unfolding ◌-ℤ◌
rounds-lt a b c k positive e h =
    let less : pos_part a + 1 ≤ pos_part b = ground arith in
    product-lt (pos_part a) (pos_part b) k less

module _ {H : Type 0} where
  IsAt-inside :
      (a : AdvancedCodeAnalysis) (i : ℕ) (st : AdvancedState H) → IsAt a i st → i < length a.instrs
  IsAt-inside a i st (within {xs = []} e ch v) = elim ch [ ]
  IsAt-inside a i st (within {xs = x ∷ xs} e ch v) = drop-inside a.instrs xs x i e

  -- The number of rounds that is enough from a state of the loop.
  data Ready (a : AdvancedCodeAnalysis) (i : ℕ) (st : AdvancedState H) (n : ℕ) : Type 0 where
    ready :
        IsAt a i st
        → pos_part st.frame.gas_left * (length a.instrs + 2) + (length a.instrs - i) < n
        → Ready a i st n
    ready_to_enter :
        (e : Entering a i st)
        → 1 ≤ e.its_block.gas_cost
        → pos_part st.frame.gas_left * (length a.instrs + 2) < n
        → Ready a i st n

module _ {H : Type 0} (p : Platform H) (w : IsPlatform p) (msg : Message) (code : List ℕ)
    (small : length code < 2 ^ 63) (input : length msg.input < 2 ^ 63) (a : AdvancedCodeAnalysis)
    (open_targets : TargetsOpen a) where
  abbrev Ends : ℕ → ℕ → AdvancedState H → Type 0
  Ends n i st =
      (st' : AdvancedState H) × (run n p (advanced_context msg code) a i st ≡ ended st')
      × IsFinal st.frame.gas_left st'.frame

  -- What the runs from the next state give.
  abbrev Later : ℕ → Type 0
  Later n = (i : ℕ) (st : AdvancedState H) → Ready a i st n → Ends n i st

  continued :
      (n i j : ℕ) (st st' : AdvancedState H)
      → step p (advanced_context msg code) a i st ≡ at j st'
      → Ends n j st'
      → st'.frame.gas_left ≤ℤ st.frame.gas_left
      → Ends (suc n) i st
  unfolding run
  continued n i j st st' e (st2, e2, f) l = rw (run, e) (st2, e2, IsFinal-weaken _ _ _ f l)

  stopped :
      (n i : ℕ) (st st' : AdvancedState H)
      → step p (advanced_context msg code) a i st ≡ null st'
      → IsFinal st.frame.gas_left st'.frame
      → Ends (suc n) i st
  unfolding run
  stopped n i st st' e f = rw (run, e) (st', refl, f)

  next-Ends :
      (n i : ℕ) (st : AdvancedState H) (q : Pointer H)
      → step p (advanced_context msg code) a i st ≡ q
      → i < length a.instrs
      → pos_part st.frame.gas_left * (length a.instrs + 2) + (length a.instrs - i) < suc n
      → Later n
      → IsNext a i st.frame.gas_left q
      → Ends (suc n) i st
  next-Ends n i st (at j st') e inside h later (goes_on v l) =
      let fewer = rounds-le st'.frame.gas_left st.frame.gas_left (length a.instrs + 2) l in
      continued n i j st st' e (later (i + 1) st' (ready v (omega arith))) l
  next-Ends n i st (at j st') e inside h later (jumps enter c l) =
      let fewer = rounds-le st'.frame.gas_left st.frame.gas_left (length a.instrs + 2) l in
      continued n i j st st' e (later j st' (ready_to_enter enter c (omega arith))) l
  next-Ends n i st (null st') e inside h later (ends f) = stopped n i st st' e f
  next-Ends n i st undefined e inside h later v = elim v [ ]

  begun-Ends :
      (n i : ℕ) (st : AdvancedState H) (b : BlockInfo) (q : Pointer H)
      → step p (advanced_context msg code) a i st ≡ q
      → ((left : ℤ)
          → pos 0 ≤ℤ left
          → left ≡ st.frame.gas_left -ℤ pos b.gas_cost
          → pos_part left * (length a.instrs + 2) + (length a.instrs - (i + 1)) < n)
      → Later n
      → Begun a i b st.frame.gas_left q
      → Ends (suc n) i st
  begun-Ends n i st b (at j st') e h later (begun v positive paid) =
      continued n i j st st' e (later (i + 1) st' (ready v (h st'.frame.gas_left positive paid)))
        (rw paid (omega int_laws))
  begun-Ends n i st b (null st') e h later (refused f) = stopped n i st st' e f
  begun-Ends n i st b undefined e h later v = elim v [ ]

  run-Ends : (n i : ℕ) (st : AdvancedState H) → Ready a i st n → Ends n i st
  run-Ends zero i st (ready v h) = absurd (omega arith)
  run-Ends zero i st (ready_to_enter e c h) = absurd (omega arith)
  run-Ends (suc n) i st (ready v h) =
      next-Ends n i st _ refl (IsAt-inside a i st v) h (λ j st'. run-Ends n j st')
        (step-IsNext p w msg code small input a open_targets i st v)
  run-Ends (suc n) i st (ready_to_enter enter c h) =
      begun-Ends n i st enter.its_block _ refl
        (λ left positive paid.
          let fewer =
            rounds-lt left st.frame.gas_left enter.its_block.gas_cost (length a.instrs + 2) positive
              paid c in
          omega arith)
        (λ j st'. run-Ends n j st') (step-Begun p w msg code small input a open_targets i st enter)

  -- The first block may cost nothing.
  first-Ends :
      (n : ℕ) (st : AdvancedState H)
      → Entering a 0 st
      → pos_part st.frame.gas_left * (length a.instrs + 2) + (length a.instrs + 1) < n
      → Ends n 0 st
  first-Ends zero st enter h = absurd (omega arith)
  first-Ends (suc n) st enter h =
      begun-Ends n 0 st enter.its_block _ refl
        (λ left positive paid.
          let less : left ≤ℤ st.frame.gas_left = rw paid (omega int_laws) in
          let fewer = rounds-le left st.frame.gas_left (length a.instrs + 2) less in omega arith)
        (run-Ends n) (step-Begun p w msg code small input a open_targets 0 st enter)

module _ {H : Type 0} (p : Platform H) (w : IsPlatform p) where
  start-Entering :
      (h : H) (msg : Message) (code : List ℕ)
      → pos 0 ≤ℤ msg.gas
      → 32000 * length code < 2 ^ 32
      → Entering (analyze code) 0 (start_advanced h msg)
  unfolding start
  start-Entering h msg code g small =
      let (b, rest, shape, ch) = analyze-Chain code small in
      record {
        first = _;
        others = rest;
        found = shape;
        begins = refl;
        its_block = b;
        its_arg = refl;
        its_chain = ch;
        enters_frame = record {
          memory_ok = new_memory-IsMemory;
          gas_ok = g;
          running = refl;
          no_output = refl;
          returned = omega arith;
        };
        enters_stack = omega arith;
      }

  -- For a platform that keeps its laws, from gas that is not negative, with a code whose length
  -- times 32000 is less than 2^32 and an input shorter than 2^63 bytes, the Advanced interpreter's
  -- `execute` returns a result: its loop neither runs out of rounds nor reaches undefined
  -- behaviour. The gas left is between 0 and the message's gas. Unless the status is success or
  -- revert the gas left is 0 and there is no output, and unless it is success there is no refund.
  pub advanced-IsResult :
      (h : H) (msg : Message) (code : List ℕ)
      → pos 0 ≤ℤ msg.gas
      → 32000 * length code < 2 ^ 32
      → length msg.input < 2 ^ 63
      → (r : CallResult) × (h' : H) × (execute p h msg code ≡ some (r, h')) × IsResult msg.gas r
  unfolding execute start
  advanced-IsResult h msg code g a b =
      let enter = start-Entering h msg code g a in
      let more =
        product-lt (pos_part msg.gas) (suc (pos_part msg.gas)) (length (analyze code).instrs + 2)
          (omega arith) in
      let (st, e, f) =
        first-Ends p w msg code (omega arith) b (analyze code) (analyze-TargetsOpen code a)
          (enough_rounds msg (analyze code)) (start_advanced h msg) enter (omega arith) in
      let (r, e', v') = make_result-IsResult p w msg.gas st.frame f g in
      (r, st.frame.state.host, rw (e, e') refl, v')
