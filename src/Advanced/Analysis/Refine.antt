-- ===== src/Advanced/Analysis/Refine.antt =====
-- `analyze` of lib/zvmone/advanced_analysis.cpp against the definition without back-patching.
use zvmone.Prelude.{
  ℕ, zero, suc, ◌+◌, ◌-◌, ◌<◌, ◌≡◌, refl, ap, sym, ◌∙◌, false, Bool-cases, Option-cases, inl, inr,
  arith, none, some, List, ◌∷◌, length, get_elem?, ◌==◌,
}
use mathlib.Core.List.{append-nil}
use zvmone.Opcodes.{decode, find_opcode}
use zvmone.Advanced.Table.{fn_beginblock, get_op_table}
use zvmone.Advanced.Analysis.{
  block, BlockAnalysis, new_block, count, switch_case, Progress, start_jumpdest, add_instruction,
  switch, round, analyze_from, first_block, last_block, analyze,
}
use zvmone.Advanced.Analysis.Compile.{
  Rest, large_values, next_pos, block_after, link_jumpdest, link, end_of_code, compile,
}
use zvmone.Advanced.Analysis.Rounds.{assemble, same_analysis, switch-IsRound, jumpdest-IsStarted}

end-assemble :
    (s : Progress)
    → s.current.begin_block_index < length s.analysis.instrs
    → last_block s ≡ assemble s (end_of_code s.current)
end-assemble s h =
    same_analysis _ _ refl (sym (append-nil _)) (sym (append-nil _)) (sym (append-nil _))

-- What `compile` gives for a position of the loop.
abbrev rest_of : ℕ → List ℕ → Progress → Rest
rest_of rounds code s =
    compile rounds code s.code_pos s.current (length s.analysis.instrs)
      (length s.analysis.push_values)

-- One round, not at the end of the code.
pub compile-dest :
    (rounds : ℕ) (code : List ℕ) (i index pushes : ℕ) (b : BlockAnalysis)
    → get_elem? code i ≡ some 0x5b
    → compile (suc rounds) code i b index pushes
      ≡ link_jumpdest (get_op_table 0x5b) i index b (
          compile rounds code
            (i + 1)
            (count (get_op_table 0x5b) (new_block index))
            (index + 1)
            pushes)
unfolding compile
compile-dest rounds code i index pushes b e = rw (compile, e) refl

pub compile-plain :
    (rounds : ℕ) (code : List ℕ) (i index pushes opcode : ℕ) (b : BlockAnalysis)
    → get_elem? code i ≡ some opcode
    → (opcode == 0x5b) ≡ false
    → compile (suc rounds) code i b index pushes ≡ (
        let e = get_op_table opcode in
        let c = switch_case (decode opcode) in
        link code e c (i + 1) pushes (count e b) (
          compile rounds code
            (next_pos code c (i + 1))
            (block_after c index (count e b))
            (index + 1)
            (pushes + length (large_values code c (i + 1)))))
unfolding compile
compile-plain rounds code i index pushes opcode b e h = rw (compile, e, h) refl

pub compile-end :
    (rounds : ℕ) (code : List ℕ) (i index pushes : ℕ) (b : BlockAnalysis)
    → get_elem? code i ≡ none
    → compile rounds code i b index pushes ≡ end_of_code b
unfolding compile
compile-end zero code i index pushes b e = refl
compile-end (suc rounds) code i index pushes b e = rw (compile, e) refl

abbrev advance : Progress → Progress
advance s = record s { code_pos = s.code_pos + 1 }

analyze_from-some :
    (rounds : ℕ) (code : List ℕ) (s : Progress) (opcode : ℕ)
    → get_elem? code s.code_pos ≡ some opcode
    → analyze_from (suc rounds) code s ≡ analyze_from rounds code (round code opcode (advance s))
unfolding analyze_from
analyze_from-some rounds code s opcode e = rw (analyze_from, e) refl

analyze_from-none :
    (rounds : ℕ) (code : List ℕ) (s : Progress)
    → get_elem? code s.code_pos ≡ none
    → analyze_from rounds code s ≡ s
unfolding analyze_from
analyze_from-none zero code s e = refl
analyze_from-none (suc rounds) code s e = rw (analyze_from, e) refl

round-dest :
    (code : List ℕ) (s : Progress)
    → round code 0x5b s ≡ add_instruction (get_op_table 0x5b) (start_jumpdest s)
unfolding round switch switch_case decode find_opcode
round-dest code s = refl

round-plain :
    (code : List ℕ) (opcode : ℕ) (s : Progress)
    → (opcode == 0x5b) ≡ false
    → round code opcode s
      ≡ switch code (switch_case (decode opcode)) (add_instruction (get_op_table opcode) s)
unfolding round
round-plain code opcode s h = rw (round, h) refl

-- A round, given what `compile` says of the ones after it.
dest_round :
    (rounds : ℕ) (code : List ℕ) (s : Progress)
    → get_elem? code s.code_pos ≡ some 0x5b
    → (let s1 = add_instruction (get_op_table 0x5b) (start_jumpdest (advance s)) in
        assemble s1 (rest_of rounds code s1) ≡ assemble s (rest_of (suc rounds) code s))
dest_round rounds code s e =
    let s1 = add_instruction (get_op_table 0x5b) (start_jumpdest (advance s)) in
    let v = jumpdest-IsStarted code (get_op_table 0x5b) (advance s) in
    let index = length s.analysis.instrs in
    let pushes = length s.analysis.push_values in
    let later : rest_of rounds code s1
        ≡ compile rounds code (s.code_pos + 1) (count (get_op_table 0x5b) (new_block index))
            (index + 1) pushes =
      rw (v.position, v.block_started, v.more_instrs, v.same_pushes) refl in
    let before : s.code_pos + 1 - 1 ≡ s.code_pos = omega arith in
    ap (λ r. assemble s1 r) later
    ∙ v.assembled _
    ∙ ap
        (λ i. assemble s (
          link_jumpdest (get_op_table 0x5b) i index s.current (
            compile rounds code (s.code_pos + 1) (count (get_op_table 0x5b) (new_block index))
              (index + 1) pushes)))
        before
    ∙ ap (λ r. assemble s r) (sym (compile-dest rounds code s.code_pos index pushes s.current e))

plain_round :
    (rounds : ℕ) (code : List ℕ) (s : Progress) (opcode : ℕ)
    → s.current.begin_block_index < length s.analysis.instrs
    → get_elem? code s.code_pos ≡ some opcode
    → (opcode == 0x5b) ≡ false
    → (let c = switch_case (decode opcode) in
        let s1 = switch code c (add_instruction (get_op_table opcode) (advance s)) in
        assemble s1 (rest_of rounds code s1) ≡ assemble s (rest_of (suc rounds) code s))
plain_round rounds code s opcode h e other =
    let c = switch_case (decode opcode) in
    let s1 = switch code c (add_instruction (get_op_table opcode) (advance s)) in
    let v = switch-IsRound code (get_op_table opcode) c (advance s) h in
    let index = length s.analysis.instrs in
    let pushes = length s.analysis.push_values in
    let later : rest_of rounds code s1
        ≡ compile rounds code (next_pos code c (s.code_pos + 1))
            (block_after c index (count (get_op_table opcode) s.current)) (index + 1)
            (pushes + length (large_values code c (s.code_pos + 1))) =
      rw (v.position, v.block_kept, v.more_instrs, v.more_pushes) refl in
    ap (λ r. assemble s1 r) later
    ∙ v.assembled _
    ∙ ap (λ r. assemble s r)
        (sym (compile-plain rounds code s.code_pos index pushes opcode s.current e other))

analyze_from_lem :
    (rounds : ℕ) (code : List ℕ) (s : Progress)
    → s.current.begin_block_index < length s.analysis.instrs
    → last_block (analyze_from rounds code s) ≡ assemble s (rest_of rounds code s)
unfolding analyze_from compile
analyze_from_lem zero code s h = end-assemble s h
analyze_from_lem (suc rounds) code s h = elim (Option-cases (get_elem? code s.code_pos)) [
  | inl e ↦
      ap last_block (analyze_from-none (suc rounds) code s e)
      ∙ end-assemble s h
      ∙ ap (λ r. assemble s r) (sym (compile-end (suc rounds) code s.code_pos _ _ s.current e))
  | inr (opcode, e) ↦ elim (Bool-cases (opcode == 0x5b)) [
    | inl dest ↦
        let same : opcode ≡ 0x5b = ground arith in
        let e' : get_elem? code s.code_pos ≡ some 0x5b = e ∙ ap some same in
        let s1 = add_instruction (get_op_table 0x5b) (start_jumpdest (advance s)) in
        let v = jumpdest-IsStarted code (get_op_table 0x5b) (advance s) in
        ap last_block (analyze_from-some rounds code s 0x5b e')
        ∙ ap (λ t. last_block (analyze_from rounds code t)) (round-dest code (advance s))
        ∙ analyze_from_lem rounds code s1 v.begin_inside
        ∙ dest_round rounds code s e'
    | inr other ↦
        let c = switch_case (decode opcode) in
        let s1 = switch code c (add_instruction (get_op_table opcode) (advance s)) in
        let v = switch-IsRound code (get_op_table opcode) c (advance s) h in
        ap last_block (analyze_from-some rounds code s opcode e)
        ∙ ap (λ t. last_block (analyze_from rounds code t))
            (round-plain code opcode (advance s) other)
        ∙ analyze_from_lem rounds code s1 v.begin_inside
        ∙ plain_round rounds code s opcode h e other
  ]
]

-- The code analysis, which writes the information of a block when the block ends, gives what a
-- definition without later writes gives: each block's information comes from the instructions that
-- follow its start, in one pass from the end of the code.
pub analyze-compile :
    (code : List ℕ)
    → analyze code ≡ (
        let r = compile (length code) code 0 (new_block 0) 1 0 in
        record {
          instrs = record { fn = fn_beginblock; arg = block r.info } ∷ r.following;
          push_values = r.pushed;
          jumpdest_offsets = r.offsets;
          jumpdest_targets = r.targets;
        })
unfolding analyze
analyze-compile code = analyze_from_lem (length code) code first_block (omega arith)
