-- ===== src/Tracing/Shared.antt =====
-- Tracers that write to one stream (lib/zvmone/tracing.hpp and lib/zvmone/tracing.cpp).
use mathlib.Core.List.{append-nil, append_assoc}
use zvmone.Prelude.{
  ℕ, ◌+◌, ◌≡◌, refl, sym, ap, ◌∙◌, Bool-cases, inl, inr, some, List, [], ◌∷◌, ◌++◌, map, ◌==◌,
}
use zvmone.Prelude.Int.{pos}
use zvmone.Zvmc.{CallResult, is_success}
use zvmone.Tracing.{
  Base, hex, Item, text, integer, opcode_name, Printed, printed_integer, printed, Stream, put_all,
  count_lines, histogram_items, result_items, HistogramContext, InstructionContext, histogram,
  instruction, on_execution_end, notify,
}

-- What items that leave the base alone print.
abbrev pub print_in : Base → Item → Printed
print_in b (integer n) = printed_integer b n
print_in b item = printed item

written-count_lines :
    (op : ℕ) (counts : List ℕ) (s : Stream)
    → (put_all (count_lines op counts) s).written
      ≡ s.written ++ map (print_in s.base) (count_lines op counts)
written-count_lines op [] s = sym (append-nil s.written)
written-count_lines op (n ∷ counts) s = elim (Bool-cases (n == 0)) [
  | inl e ↦ rw e (written-count_lines (op + 1) counts s)
  | inr e ↦
      let s4 = put_all (opcode_name op ∷ text "," ∷ integer (pos n) ∷ text "\n" ∷ []) s in
      let later = written-count_lines (op + 1) counts s4 in
      rw e (later ∙ rw (append_assoc, append_assoc, append_assoc, append_assoc) refl)
]

written-histogram_items :
    (d : HistogramContext) (s : Stream)
    → (put_all (histogram_items d) s).written
      ≡ s.written ++ map (print_in s.base) (histogram_items d)
written-histogram_items d s =
    let first =
      text "--- # HISTOGRAM depth=" ∷ integer (pos d.depth) ∷ text "\nopcode,count\n" ∷ [] in
    let later = written-count_lines 0 d.counts (put_all first s) in
    later ∙ rw (append_assoc, append_assoc, append_assoc) refl

base-result_items :
    (c : InstructionContext) (r : CallResult) (s : Stream)
    → (put_all (result_items c r) s).base ≡ hex
base-result_items c r s = elim (Bool-cases (is_success r.status_code)) [
  | inl e ↦ rw e refl
  | inr e ↦ rw e refl
]

-- With an instruction tracer before a histogram tracer on one stream, both within an execution,
-- its end closes a context of each, and the histogram's integers are printed in base 16, which the
-- instruction tracer leaves set, after what that tracer prints.
pub notify-on_execution_end-hex :
    (r : CallResult) (c : InstructionContext) (cs : List InstructionContext) (d : HistogramContext)
    (ds : List HistogramContext) (s : Stream)
    → (s' : Stream) × (notify
          (on_execution_end r)
          (instruction (c ∷ cs) ∷ histogram (d ∷ ds) ∷ [])
          s
        ≡ some (instruction cs ∷ histogram ds ∷ [], s'))
      × (s'.written
          ≡ (put_all (result_items c r) s).written ++ map (print_in hex) (histogram_items d))
unfolding notify on_execution_end
notify-on_execution_end-hex r c cs d ds s =
    let s1 = put_all (result_items c r) s in
    (
      put_all (histogram_items d) s1,
      refl,
      written-histogram_items d s1
          ∙ ap (λ b. s1.written ++ map (print_in b) (histogram_items d)) (base-result_items c r s),
    )
