-- ===== src/Tracing.antt =====
-- The tracers of lib/zvmone/tracing.hpp and lib/zvmone/tracing.cpp, and the stream that they write to.
-- The text of a number, a word, a name or a status is left to the parts that print them.
pub mod Counts
pub mod Shared
use Prim.Native.String.{String}
use zvmone.Prelude.{
  ℕ, zero, suc, ◌+◌, ◌%◌, ◌^◌, Bool, true, false, Option, none, some, List, [], ◌∷◌, ◌++◌,
  replicate, get_elem?, ◌==◌, if◌then◌else◌,
}
use zvmone.Prelude.Int.{ℤ, pos, ◌-ℤ◌}
use zvmone.Uint256.{Uint256}
use zvmone.Zvmc.{StatusCode, is_success, Message, CallResult}

-- `std::dec` and `std::hex`
pub data Base : Type 0 where
  dec hex : Base

-- What is written to a stream. An integer is printed in the base that the stream has then.
pub data Item : Type 0 where
  text : String → Item
  set_base : Base → Item
  integer : ℤ → Item
  -- `get_name(opcode)`
  opcode_name : ℕ → Item
  -- `to_string(x, 16)`
  word : Uint256 → Item
  revision : Item
  status_name : StatusCode → Item
  -- `zvmc::hex`
  hex_bytes : List ℕ → Item

pub data Printed : Type 0 where
  printed_integer : Base → ℤ → Printed
  printed : Item → Printed

pub record Stream : Type 0 where
  pub base : Base
  pub written : List Printed

-- `m_out << item`
abbrev pub put : Item → Stream → Stream
put (set_base b) s = record s { base = b }
put (integer n) s = record s { written = s.written ++ (printed_integer s.base n ∷ []) }
put item s = record s { written = s.written ++ (printed item ∷ []) }

abbrev pub put_all : List Item → Stream → Stream
put_all [] s = s
put_all (item ∷ items) s = put_all items (put item s)

pub record HistogramContext : Type 0 where
  pub depth : ℕ
  pub code : List ℕ
  pub counts : List ℕ

pub record InstructionContext : Type 0 where
  pub traced_code : List ℕ
  pub start_gas : ℤ

-- The two classes, with `m_contexts`, the top first.
pub data Tracer : Type 0 where
  histogram : List HistogramContext → Tracer
  instruction : List InstructionContext → Tracer

abbrev pub create_histogram_tracer : Stream → Tracer × Stream
create_histogram_tracer s = (histogram [], s)

abbrev pub create_instruction_tracer : Stream → Tracer × Stream
create_instruction_tracer s = (instruction [], put (set_base dec) s)

abbrev pub new_context : ℕ → List ℕ → HistogramContext
new_context depth code = record { depth = depth; code = code; counts = replicate 256 0 }

unfoldable pub on_execution_start : Message → List ℕ → Tracer → Stream → Tracer × Stream
on_execution_start msg code (histogram contexts) s =
    (histogram (new_context msg.depth code ∷ contexts), s)
on_execution_start msg code (instruction contexts) s =
    let context : InstructionContext = record { traced_code = code; start_gas = msg.gas } in
    (
      instruction (context ∷ contexts),
      put_all
          (text "{"
            ∷ text "\"depth\":"
            ∷ integer (pos msg.depth)
            ∷ text ",\"rev\":\""
            ∷ revision
            ∷ text "\""
            ∷ text ",\"static\":"
            ∷ text (if msg.is_static then "true" else "false")
            ∷ text "}\n"
            ∷ [])
          s,
    )

-- `++counts[op]` on 32 bits. There are 256 counters.
abbrev pub count_opcode : ℕ → List ℕ → List ℕ
count_opcode op [] = []
count_opcode zero (n ∷ counts) = (n + 1) % 2 ^ 32 ∷ counts
count_opcode (suc op) (n ∷ counts) = n ∷ count_opcode op counts

-- The items of the stack, the bottom first, with a comma between them.
abbrev pub stack_items : List Uint256 → List Item → List Item
stack_items [] rest = rest
stack_items (x ∷ []) rest = text "\"0x" ∷ word x ∷ text "\"" ∷ rest
stack_items (x ∷ y ∷ s) rest =
    stack_items (y ∷ s) (text "," ∷ text "\"0x" ∷ word x ∷ text "\"" ∷ rest)

abbrev pub output_stack : List Uint256 → List Item
output_stack stack = text ",\"stack\":[" ∷ stack_items stack (text "]" ∷ [])

abbrev pub instruction_items : ℕ → ℕ → List Uint256 → ℤ → ℕ → List Item
instruction_items pc op stack gas memory_size =
    text "{"
      ∷ text "\"pc\":"
      ∷ set_base dec
      ∷ integer (pos pc)
      ∷ text ",\"op\":"
      ∷ set_base dec
      ∷ integer (pos op)
      ∷ text ",\"opName\":\""
      ∷ opcode_name op
      ∷ text "\""
      ∷ text ",\"gas\":0x"
      ∷ set_base hex
      ∷ integer gas
      ∷ output_stack stack
    ++ (text ",\"memorySize\":" ∷ set_base dec ∷ integer (pos memory_size) ∷ text "}\n" ∷ [])

-- `none` where there is no context, or no byte of code at `pc`.
unfoldable pub on_instruction_start :
    ℕ → List Uint256 → ℤ → ℕ → Tracer → Stream → Option (Tracer × Stream)
on_instruction_start pc stack gas memory_size (histogram []) s = none
on_instruction_start pc stack gas memory_size (histogram (c ∷ contexts)) s =
    elim (get_elem? c.code pc) [
      | none ↦ none
      | some op ↦ some (histogram (record c { counts = count_opcode op c.counts } ∷ contexts), s)
    ]
on_instruction_start pc stack gas memory_size (instruction []) s = none
on_instruction_start pc stack gas memory_size (instruction (c ∷ contexts)) s =
    elim (get_elem? c.traced_code pc) [
      | none ↦ none
      | some op ↦
          some
            (instruction (c ∷ contexts), put_all (instruction_items pc op stack gas memory_size) s)
    ]

-- The lines of the histogram, from the opcode `op` on.
abbrev pub count_lines : ℕ → List ℕ → List Item
count_lines op [] = []
count_lines op (n ∷ counts) =
    let rest = count_lines (op + 1) counts in
    if n == 0 then rest else opcode_name op ∷ text "," ∷ integer (pos n) ∷ text "\n" ∷ rest

abbrev pub histogram_items : HistogramContext → List Item
histogram_items c =
    text "--- # HISTOGRAM depth="
    ∷ integer (pos c.depth)
    ∷ text "\nopcode,count\n"
    ∷ count_lines 0 c.counts

abbrev pub error_items : StatusCode → List Item
error_items s =
    if is_success s then text "null" ∷ [] else text "\"" ∷ status_name s ∷ text "\"" ∷ []

abbrev pub result_items : InstructionContext → CallResult → List Item
result_items c r =
    text "{" ∷ text "\"error\":" ∷ error_items r.status_code
    ++ (text ",\"gas\":"
        ∷ set_base hex
        ∷ text "0x"
        ∷ integer r.gas_left
        ∷ text ",\"gasUsed\":"
        ∷ set_base hex
        ∷ text "0x"
        ∷ integer (c.start_gas -ℤ r.gas_left)
        ∷ text ",\"output\":\""
        ∷ hex_bytes r.output
        ∷ text "\""
        ∷ text "}\n"
        ∷ [])

unfoldable pub on_execution_end : CallResult → Tracer → Stream → Option (Tracer × Stream)
on_execution_end r (histogram []) s = none
on_execution_end r (histogram (c ∷ contexts)) s =
    some (histogram contexts, put_all (histogram_items c) s)
on_execution_end r (instruction []) s = none
on_execution_end r (instruction (c ∷ contexts)) s =
    some (instruction contexts, put_all (result_items c r) s)

-- `notify_...`: the event's handler for each tracer of the list in turn, on the same stream.
unfoldable pub notify :
    (Tracer → Stream → Option (Tracer × Stream))
    → List Tracer
    → Stream
    → Option (List Tracer × Stream)
notify handler [] s = some ([], s)
notify handler (t ∷ ts) s = elim (handler t s) [
  | none ↦ none
  | some (t', s') ↦ elim (notify handler ts s') [
    | none ↦ none
    | some (ts', s'') ↦ some (t' ∷ ts', s'')
  ]
]
