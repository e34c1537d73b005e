-- ===== src/Advanced/Analysis/Rounds.antt =====
-- The rounds of `analyze` (lib/zvmone/advanced_analysis.cpp), one for each case of the `switch`.
use zvmone.Prelude.{
  ℕ, zero, suc, ◌+◌, ◌-◌, ◌<◌, ◌≡◌, refl, ap, sym, ◌∙◌, arith, List, [], ◌∷◌, ◌++◌, length,
  length-append,
}
use mathlib.Core.List.{append-nil, append_assoc}
use zvmone.Advanced.Table.{OpTableEntry}
use zvmone.Advanced.Analysis.{
  InstructionArgument, block, Instruction, AdvancedCodeAnalysis, new_instruction, new_block, close,
  count, set_arg, Case, default, ends, branches, keeps_gas, keeps_pc, small_push, large_push,
  Progress, start_jumpdest, add_instruction, switch,
}
use zvmone.Advanced.Analysis.Compile.{
  Rest, large_values, next_pos, argument, block_after, info_before, link_jumpdest, link,
}

-- What has been done so far, with what follows.
abbrev pub assemble : Progress → Rest → AdvancedCodeAnalysis
assemble s r = record {
  instrs = set_arg s.analysis.instrs s.current.begin_block_index (block r.info) ++ r.following;
  push_values = s.analysis.push_values ++ r.pushed;
  jumpdest_offsets = s.analysis.jumpdest_offsets ++ r.offsets;
  jumpdest_targets = s.analysis.jumpdest_targets ++ r.targets;
}

length-set_arg :
    (xs : List Instruction) (i : ℕ) (arg : InstructionArgument)
    → length (set_arg xs i arg) ≡ length xs
length-set_arg [] i arg = refl
length-set_arg (x ∷ xs) zero arg = refl
length-set_arg (x ∷ xs) (suc i) arg = ap suc (length-set_arg xs i arg)

set_arg-append :
    (xs ys : List Instruction) (i : ℕ) (arg : InstructionArgument)
    → i < length xs
    → set_arg (xs ++ ys) i arg ≡ set_arg xs i arg ++ ys
set_arg-append [] ys i arg h = absurd (omega arith)
set_arg-append (x ∷ xs) ys zero arg h = refl
set_arg-append (x ∷ xs) ys (suc i) arg h =
    ap (λ l. x ∷ l) (set_arg-append xs ys i arg (omega arith))

set_arg-last :
    (xs : List Instruction) (x : Instruction) (arg : InstructionArgument)
    → set_arg (xs ++ (x ∷ [])) (length xs) arg ≡ xs ++ (record { fn = x.fn; arg = arg } ∷ [])
set_arg-last [] x arg = refl
set_arg-last (y ∷ xs) x arg = ap (λ l. y ∷ l) (set_arg-last xs x arg)

-- `arg` of the block's first instruction is written again when the block closes.
set_arg-twice :
    (xs : List Instruction) (i : ℕ) (arg arg' : InstructionArgument)
    → set_arg (set_arg xs i arg) i arg' ≡ set_arg xs i arg'
set_arg-twice [] i arg arg' = refl
set_arg-twice (x ∷ xs) zero arg arg' = refl
set_arg-twice (x ∷ xs) (suc i) arg arg' = ap (λ l. x ∷ l) (set_arg-twice xs i arg arg')

last_index : (xs : List Instruction) (x : Instruction) → length (xs ++ (x ∷ [])) - 1 ≡ length xs
last_index xs x = omega (arith, length-append xs (x ∷ []))

pub same_analysis :
    (a b : AdvancedCodeAnalysis)
    → a.instrs ≡ b.instrs
    → a.push_values ≡ b.push_values
    → a.jumpdest_offsets ≡ b.jumpdest_offsets
    → a.jumpdest_targets ≡ b.jumpdest_targets
    → a ≡ b
same_analysis a b h1 h2 h3 h4 = cc

-- What a round leaves, against what `compile` goes on with.
pub record IsRound (code : List ℕ) (e : OpTableEntry) (c : Case) (s s' : Progress) : Type 0 where
  pub position : s'.code_pos ≡ next_pos code c s.code_pos
  pub block_kept : s'.current ≡ block_after c (length s.analysis.instrs) (count e s.current)
  pub more_instrs : length s'.analysis.instrs ≡ length s.analysis.instrs + 1
  pub more_pushes :
      length s'.analysis.push_values
      ≡ length s.analysis.push_values + length (large_values code c s.code_pos)
  pub begin_inside : s'.current.begin_block_index < length s'.analysis.instrs
  pub assembled :
      (r : Rest)
      → assemble s' r
        ≡ assemble s
            (link code e c s.code_pos (length s.analysis.push_values) (count e s.current) r)

-- An instruction at the end, whose argument is written at once.
argument_written :
    (xs : List Instruction) (x : Instruction) (arg : InstructionArgument)
    → set_arg (xs ++ (x ∷ [])) (length (xs ++ (x ∷ [])) - 1) arg
      ≡ xs ++ (record { fn = x.fn; arg = arg } ∷ [])
argument_written xs x arg = rw (last_index xs x) (set_arg-last xs x arg)

-- The block is closed with an instruction more before what follows.
block_closed :
    (xs ys : List Instruction) (x : Instruction) (i : ℕ) (arg : InstructionArgument)
    → i < length xs
    → set_arg (xs ++ (x ∷ [])) i arg ++ ys ≡ set_arg xs i arg ++ (x ∷ ys)
block_closed xs ys x i arg h =
    rw (set_arg-append xs (x ∷ []) i arg h) (append_assoc (set_arg xs i arg) (x ∷ []) ys)

-- The instruction at the end opens a block, which is closed later.
opener_closed :
    (xs ys : List Instruction) (x : Instruction) (n : ℕ) (arg : InstructionArgument)
    → n ≡ length xs
    → set_arg (xs ++ (x ∷ [])) n arg ++ ys ≡ xs ++ (record { fn = x.fn; arg = arg } ∷ ys)
opener_closed xs ys x n arg h = rw (h, set_arg-last xs x arg) (append_assoc xs (_ ∷ []) ys)

-- A case that keeps the block open.
open-IsRound :
    (code : List ℕ) (e : OpTableEntry) (c : Case) (s s' : Progress) (arg : InstructionArgument)
    → s.current.begin_block_index < length s.analysis.instrs
    → s'.analysis.instrs ≡ s.analysis.instrs ++ (record { fn = e.fn; arg = arg } ∷ [])
    → s'.analysis.push_values ≡ s.analysis.push_values ++ large_values code c s.code_pos
    → s'.analysis.jumpdest_offsets ≡ s.analysis.jumpdest_offsets
    → s'.analysis.jumpdest_targets ≡ s.analysis.jumpdest_targets
    → s'.current ≡ count e s.current
    → s'.code_pos ≡ next_pos code c s.code_pos
    → block_after c (length s.analysis.instrs) (count e s.current) ≡ count e s.current
    → ((r : Rest) → info_before c (count e s.current) r.info ≡ r.info)
    → ((r : Rest)
        → argument code c s.code_pos (count e s.current) (length s.analysis.push_values) r.info
          ≡ arg)
    → IsRound code e c s s'
open-IsRound code e c s s' arg h h1 h2 h3 h4 h5 h6 h7 h8 h9 =
    let xs = s.analysis.instrs in
    let x : Instruction = record { fn = e.fn; arg = arg } in
    let l = length-append xs (x ∷ []) in
    record {
      position = h6;
      block_kept = h5 ∙ sym h7;
      more_instrs = rw h1 (omega (arith, l));
      more_pushes = rw h2 (length-append s.analysis.push_values (large_values code c s.code_pos));
      begin_inside = rw (h1, h5) (omega (arith, l));
      assembled = λ r.
          same_analysis _ _
            (rw (h1, h5, h8 r, h9 r)
              (block_closed xs r.following x s.current.begin_block_index (block r.info) h))
            (rw h2 (append_assoc s.analysis.push_values (large_values code c s.code_pos) r.pushed))
            (rw h3 refl) (rw h4 refl);
    }

branch-IsRound :
    (code : List ℕ) (e : OpTableEntry) (s : Progress)
    → s.current.begin_block_index < length s.analysis.instrs
    → IsRound code e branches s (switch code branches (add_instruction e s))
unfolding switch
branch-IsRound code e s h =
    let xs = s.analysis.instrs in
    let i = s.current.begin_block_index in
    let x = new_instruction e.fn in
    let closed = block (close (count e s.current)) in
    let l = length-append xs (x ∷ []) in
    let k = length-set_arg (xs ++ (x ∷ [])) i closed in
    record {
      position = refl;
      block_kept = ap new_block (last_index xs x);
      more_instrs = omega (arith, l, k);
      more_pushes = omega arith;
      begin_inside = omega (arith, l, k);
      assembled = λ r.
          same_analysis _ _
            (rw (last_index xs x, set_arg-append xs (x ∷ []) i closed h)
              (opener_closed (set_arg xs i closed) r.following x (length xs) (block r.info)
                (sym (length-set_arg xs i closed))))
            refl refl refl;
    }

pub switch-IsRound :
    (code : List ℕ) (e : OpTableEntry) (c : Case) (s : Progress)
    → s.current.begin_block_index < length s.analysis.instrs
    → IsRound code e c s (switch code c (add_instruction e s))
unfolding switch
switch-IsRound code e default s h =
    open-IsRound code e default s _ _ h refl (sym (append-nil _)) refl refl refl refl refl
      (λ r. refl) (λ r. refl)
switch-IsRound code e ends s h =
    open-IsRound code e ends s _ _ h refl (sym (append-nil _)) refl refl refl refl refl (λ r. refl)
      (λ r. refl)
switch-IsRound code e branches s h = branch-IsRound code e s h
switch-IsRound code e keeps_gas s h =
    open-IsRound code e keeps_gas s _ _ h (argument_written _ _ _) (sym (append-nil _)) refl refl
      refl refl refl (λ r. refl) (λ r. refl)
switch-IsRound code e keeps_pc s h =
    open-IsRound code e keeps_pc s _ _ h (argument_written _ _ _) (sym (append-nil _)) refl refl
      refl refl refl (λ r. refl) (λ r. refl)
switch-IsRound code e (small_push n) s h =
    open-IsRound code e (small_push n) s _ _ h (argument_written _ _ _) (sym (append-nil _)) refl
      refl refl refl refl (λ r. refl) (λ r. refl)
switch-IsRound code e (large_push n) s h =
    open-IsRound code e (large_push n) s _ _ h (argument_written _ _ _) refl refl refl refl refl
      refl (λ r. refl) (λ r. refl)

-- The same for a JUMPDEST.
pub record IsStarted (code : List ℕ) (e : OpTableEntry) (s s' : Progress) : Type 0 where
  pub position : s'.code_pos ≡ s.code_pos
  pub block_started : s'.current ≡ count e (new_block (length s.analysis.instrs))
  pub more_instrs : length s'.analysis.instrs ≡ length s.analysis.instrs + 1
  pub same_pushes : length s'.analysis.push_values ≡ length s.analysis.push_values
  pub begin_inside : s'.current.begin_block_index < length s'.analysis.instrs
  pub assembled :
      (r : Rest)
      → assemble s' r
        ≡ assemble s (link_jumpdest e (s.code_pos - 1) (length s.analysis.instrs) s.current r)

pub jumpdest-IsStarted :
    (code : List ℕ) (e : OpTableEntry) (s : Progress)
    → IsStarted code e s (add_instruction e (start_jumpdest s))
jumpdest-IsStarted code e s =
    let xs = s.analysis.instrs in
    let i = s.current.begin_block_index in
    let x = new_instruction e.fn in
    let closed = block (close s.current) in
    let ys = set_arg xs i closed in
    let l = length-append ys (x ∷ []) in
    let k = length-set_arg xs i closed in
    record {
      position = refl;
      block_started = refl;
      more_instrs = omega (arith, l, k);
      same_pushes = refl;
      begin_inside = omega (arith, l, k);
      assembled = λ r.
          same_analysis _ _ (opener_closed ys r.following x (length xs) (block r.info) (sym k)) refl
            (append_assoc s.analysis.jumpdest_offsets (_ ∷ []) r.offsets)
            (append_assoc s.analysis.jumpdest_targets (_ ∷ []) r.targets);
    }
