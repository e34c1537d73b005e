-- ===== src/Advanced/Blocks/Chains.antt =====
-- The blocks that `analyze` of lib/zvmone/advanced_analysis.cpp finds cover their instructions.
use zvmone.Prelude.{
  ℕ, zero, suc, ◌+◌, ◌*◌, ◌^◌, ◌≤◌, ◌<◌, ◌≡◌, ◌⊎◌, refl, ◌∙◌, ap, inl, inr, true, false, Bool-cases,
  Option, Option-cases, arith, none, some, List, ◌∷◌, ◌++◌, length, length-append, get_elem?, leb,
  ◌==◌,
}
use zvmone.Prelude.Int.{ℤ, pos, ◌+ℤ◌, int_laws}
use zvmone.Opcodes.{Opcode, op_jumpi, op_jumpdest, op_push, opcode_byte, decode, find_opcode}
use zvmone.Opcodes.Ranges.{in_range, decode-in_range}
use zvmone.Opcodes.Bytes.{decode_iff}
use zvmone.Traits.{gas_costs, traits}
use zvmone.Traits.Bounds.{gas_costs-le}
use zvmone.Advanced.Table.{fn_beginblock, instruction_implementations, get_op_table, table_entry}
use zvmone.Advanced.Analysis.{
  BlockInfo, block, Instruction, BlockAnalysis, new_block, close, count, Case, default, ends,
  branches, keeps_gas, keeps_pc, small_push, large_push, switch_case, analyze,
}
use zvmone.Advanced.Analysis.Compile.{
  Rest, large_values, next_pos, argument, block_after, info_before, link_jumpdest, link, compile,
}
use zvmone.Advanced.Analysis.Refine.{compile-dest, compile-plain, compile-end, analyze-compile}
use zvmone.Advanced.Blocks.{HasArgument, Covered, is_inner, Chain, last, opens, forks, stuck, inner}
use zvmone.Advanced.Blocks.Counts.{Covers, close-Covers, count-Covers}

-- What `compile` gives for a block that is open.
record IsCompiled (total : ℕ) (b : BlockAnalysis) (r : Rest) : Type 0 where
  covers : Covers b r.info
  chain : Chain total r.info b.stack_change r.following

-- A case that keeps the block open.
record IsOpen (c : Case) : Type 0 where
  block_kept : (index : ℕ) (b : BlockAnalysis) → block_after c index b ≡ b
  info_kept : (b : BlockAnalysis) (info : BlockInfo) → info_before c b info ≡ info

-- The opcodes that the analysis does not treat as a start or an end of a block.
inner_cases :
    (op : Opcode)
    → ((is_inner op ≡ true) × IsOpen (switch_case (some op)))
      ⊎ ((op ≡ op_jumpi) ⊎ (op ≡ op_jumpdest))
unfolding switch_case
inner_cases op_jumpi = inr (inl refl)
inner_cases op_jumpdest = inr (inr refl)
inner_cases (op_push n) = elim (Bool-cases (leb n 8)) [
  | inl small ↦
      rw small (inl (refl, record { block_kept = λ index b. refl; info_kept = λ b info. refl }))
  | inr large ↦
      rw large (inl (refl, record { block_kept = λ index b. refl; info_kept = λ b info. refl }))
]
inner_cases _ = inl (refl, record { block_kept = λ index b. refl; info_kept = λ b info. refl })

entry_cost-le :
    (byte : ℕ) (o : Option Opcode) → decode byte ≡ o → (table_entry o).entry_gas_cost ≤ 32000
entry_cost-le byte none e = omega arith
entry_cost-le byte (some op) e = gas_costs-le op (decode-in_range byte op e)

+ℤ_zero : (c : ℤ) → c +ℤ pos 0 ≡ c
+ℤ_zero c = omega int_laws

has_argument :
    (code : List ℕ) (c : Case) (i pushes total : ℕ) (b : BlockAnalysis) (info : BlockInfo)
    → Covers b info
    → b.total_cost < 2 ^ 32
    → pushes + length (large_values code c i) ≤ total
    → HasArgument total info c (argument code c i b pushes info)
has_argument code default i pushes total b info v h l = tt
has_argument code ends i pushes total b info v h l = tt
has_argument code branches i pushes total b info v h l = tt
has_argument code keeps_gas i pushes total b info v h l =
    (_, refl, (let cost = v.cost_covers in ground arith))
has_argument code keeps_pc i pushes total b info v h l = (_, refl)
has_argument code (small_push n) i pushes total b info v h l = (_, refl)
has_argument code (large_push n) i pushes total b info v h l = (_, refl, omega arith)

stuck-IsCompiled :
    (code : List ℕ) (i pushes total : ℕ) (b : BlockAnalysis) (r : Rest)
    → IsCompiled total (count (table_entry none) b) r
    → IsCompiled total b
        (link code (table_entry none) (switch_case none) i pushes (count (table_entry none) b) r)
unfolding switch_case
stuck-IsCompiled code i pushes total b r v = record {
  covers = (count-Covers (table_entry none) b r.info v.covers).0;
  chain = stuck refl v.chain;
}

fork-IsCompiled :
    (code : List ℕ) (i index pushes total : ℕ) (b : BlockAnalysis) (r : Rest)
    → IsCompiled total (new_block index) r
    → IsCompiled total b (
        link code
          (table_entry (some op_jumpi))
          (switch_case (some op_jumpi))
          i
          pushes
          (count (table_entry (some op_jumpi)) b)
          r)
unfolding switch_case instruction_implementations
fork-IsCompiled code i index pushes total b r v =
    let counted = count-Covers (table_entry (some op_jumpi)) b _ (close-Covers _) in
    let covered : Covered (close (count (table_entry (some op_jumpi)) b)) b.stack_change op_jumpi =
      (counted.1, counted.2) in
    record { covers = counted.0; chain = forks refl refl covered v.chain }

inner-IsCompiled :
    (code : List ℕ) (op : Opcode) (i pushes total : ℕ) (b : BlockAnalysis) (r : Rest)
    → in_range op ≡ true
    → is_inner op ≡ true
    → IsOpen (switch_case (some op))
    → b.total_cost + gas_costs op < 2 ^ 32
    → pushes + length (large_values code (switch_case (some op)) i) ≤ total
    → IsCompiled total (count (table_entry (some op)) b) r
    → IsCompiled total b (
        link code
          (table_entry (some op))
          (switch_case (some op))
          i
          pushes
          (count (table_entry (some op)) b)
          r)
inner-IsCompiled code op i pushes total b r range plain kept h l v =
    let counted = count-Covers (table_entry (some op)) b _ v.covers in
    let covered : Covered r.info b.stack_change op = (counted.1, counted.2) in
    let arg =
      has_argument code (switch_case (some op)) i pushes total (count (table_entry (some op)) b)
        r.info v.covers h l in
    rw (kept.info_kept (count (table_entry (some op)) b) r.info)
      (record { covers = counted.0; chain = inner op range plain refl arg covered v.chain })

dest-IsCompiled :
    (i index total : ℕ) (b : BlockAnalysis) (r : Rest)
    → IsCompiled total (count (get_op_table 0x5b) (new_block index)) r
    → IsCompiled total b (link_jumpdest (get_op_table 0x5b) i index b r)
unfolding decode find_opcode gas_costs traits instruction_implementations ◌+ℤ◌
dest-IsCompiled i index total b r v = record {
  covers = close-Covers b;
  chain = opens refl refl (let cost = v.covers.cost_covers in ground arith) v.chain;
}

not_jumpdest : (opcode : ℕ) → (opcode == 0x5b) ≡ false → decode opcode ≡ some op_jumpdest → ⊥
unfolding opcode_byte
not_jumpdest opcode other d = let at = ((decode_iff opcode op_jumpdest).0 d).1 in ground arith

plain-IsCompiled :
    (code : List ℕ) (opcode : ℕ) (o : Option Opcode) (i index pushes total : ℕ) (b : BlockAnalysis)
    (r : Rest)
    → decode opcode ≡ o
    → (opcode == 0x5b) ≡ false
    → b.total_cost + 32000 < 2 ^ 32
    → pushes + length (large_values code (switch_case o) i) ≤ total
    → IsCompiled total (block_after (switch_case o) index (count (table_entry o) b)) r
    → IsCompiled total b
        (link code (table_entry o) (switch_case o) i pushes (count (table_entry o) b) r)
unfolding switch_case
plain-IsCompiled code opcode none i index pushes total b r d other h l v =
    stuck-IsCompiled code i pushes total b r v
plain-IsCompiled code opcode (some op) i index pushes total b r d other h l v =
    elim (inner_cases op) [
      | inl (plain, kept) ↦
          let range = decode-in_range opcode op d in
          let cost = gas_costs-le op range in
          inner-IsCompiled code op i pushes total b r range plain kept (omega arith) l
            (rw (kept.block_kept index (count (table_entry (some op)) b)) at v)
      | inr (inl jumpi) ↦ rw jumpi (fork-IsCompiled code i index pushes total b r (rw jumpi at v))
      | inr (inr dest) ↦ absurd (not_jumpdest opcode other (d ∙ ap some dest))
    ]

cost-block_after :
    (c : Case) (index : ℕ) (b : BlockAnalysis) → (block_after c index b).total_cost ≤ b.total_cost
cost-block_after branches index b = omega arith
cost-block_after _ index b = omega arith

compile-IsCompiled :
    (rounds : ℕ) (code : List ℕ) (i index pushes total : ℕ) (b : BlockAnalysis)
    → b.total_cost + 32000 * rounds < 2 ^ 32
    → pushes + length (compile rounds code i b index pushes).pushed ≤ total
    → IsCompiled total b (compile rounds code i b index pushes)
unfolding compile
compile-IsCompiled zero code i index pushes total b h l = record {
  covers = close-Covers b;
  chain = last refl;
}
compile-IsCompiled (suc rounds) code i index pushes total b h l =
    elim (Option-cases (get_elem? code i)) [
      | inl e ↦
          rw (compile-end (suc rounds) code i index pushes b e)
            (record { covers = close-Covers b; chain = last refl })
      | inr (opcode, e) ↦
          let cost = entry_cost-le opcode (decode opcode) refl in
          elim (Bool-cases (opcode == 0x5b)) [
            | inl dest ↦
                let same : opcode ≡ 0x5b = ground arith in
                let e' : get_elem? code i ≡ some 0x5b = e ∙ ap some same in
                let cost' = entry_cost-le 0x5b (decode 0x5b) refl in
                rw (compile-dest rounds code i index pushes b e') (
                  dest-IsCompiled i index total b _ (
                    compile-IsCompiled rounds code (i + 1) (index + 1) pushes total
                      (count (get_op_table 0x5b) (new_block index)) (omega arith)
                      (rw (compile-dest rounds code i index pushes b e') at l)))
            | inr other ↦
                let c = switch_case (decode opcode) in
                let after = block_after c index (count (get_op_table opcode) b) in
                let more = length (large_values code c (i + 1)) in
                let rest =
                  compile rounds code (next_pos code c (i + 1)) after (index + 1) (pushes + more) in
                let kept = cost-block_after c index (count (get_op_table opcode) b) in
                let all : pushes + length (large_values code c (i + 1) ++ rest.pushed) ≤ total =
                  (rw (compile-plain rounds code i index pushes opcode b e other) at l) in
                let sum = length-append (large_values code c (i + 1)) rest.pushed in
                rw (compile-plain rounds code i index pushes opcode b e other) (
                  plain-IsCompiled code opcode (decode opcode) (i + 1) index pushes total b rest
                    refl other (omega arith) (omega arith)
                    (compile-IsCompiled rounds code (next_pos code c (i + 1)) (index + 1)
                      (pushes + more) total after (omega arith) (omega arith)))
          ]
    ]

-- For a code whose length times 32000 is less than 2^32, the analysis starts with the instruction
-- that opens the first block, and each instruction is in a block whose information covers it: the
-- block's stack requirement and growth cover those of the instruction at its place in the block,
-- its argument is the one that its function reads, and a gas count that it holds is at most the
-- block's cost. Each block that a JUMPDEST opens costs gas, and the last instruction is STOP.
pub analyze-Chain :
    (code : List ℕ)
    → 32000 * length code < 2 ^ 32
    → (b : BlockInfo) × (rest : List Instruction) × ((analyze code).instrs
        ≡ record { fn = fn_beginblock; arg = block b } ∷ rest)
      × Chain (length (analyze code).push_values) b (pos 0) rest
analyze-Chain code h =
    let r = compile (length code) code 0 (new_block 0) 1 0 in
    let e = analyze-compile code in
    let v =
      compile-IsCompiled (length code) code 0 1 0 (length r.pushed) (new_block 0) (omega arith)
        (omega arith) in
    (r.info, r.following, ap (λ a. a.instrs) e, rw (ap (λ a. length a.push_values) e) v.chain)
