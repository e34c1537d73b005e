-- ===== src/Vm.antt =====
-- class VM of lib/zvmone/vm.hpp, and its options in lib/zvmone/vm.cpp. Both kinds of tracers write to
-- `std::cerr`.
pub mod Options
use Prim.Native.String.{String, compare}
use Prim.Native.Nat.{Ordering}
use zvmone.Prelude.{Bool, true, false, Option, none, some, List, [], ◌∷◌, ◌++◌, if◌then◌else◌}
use zvmone.Tracing.{Tracer, Stream, create_histogram_tracer, create_instruction_tracer}

-- The interpreter that `execute` points to.
pub data Interpreter : Type 0 where
  baseline advanced : Interpreter

pub record Vm : Type 0 where
  pub execute : Interpreter
  pub cgoto : Bool
  -- The list that starts at `m_first_tracer`.
  pub tracers : List Tracer

pub data SetOptionResult : Type 0 where
  set_option_success set_option_invalid_name set_option_invalid_value : SetOptionResult

-- `VM::VM`, with ZVMONE_CGOTO_SUPPORTED.
abbrev pub new_vm : Bool → Vm
new_vm cgoto_supported = record { execute = baseline; cgoto = cgoto_supported; tracers = [] }

-- The tracer goes to the end of the list.
abbrev pub add_tracer : Tracer → Vm → Vm
add_tracer tracer vm = record vm { tracers = vm.tracers ++ (tracer ∷ []) }

-- `==` of string views
abbrev pub same_text : String → String → Bool
same_text a b = elim (compare a b) [ Ordering.eq ↦ true | _ ↦ false ]

-- A null pointer is an empty text.
abbrev pub text_of : Option String → String
text_of none = ""
text_of (some s) = s

unfoldable pub set_option :
    Bool → Option String → Option String → Vm → Stream → SetOptionResult × Vm × Stream
set_option cgoto_supported c_name c_value vm s =
    let name = text_of c_name in
    let value = text_of c_value in
    if same_text name "advanced"
    then (set_option_success, record vm { execute = advanced }, s)
    else if same_text name "cgoto"
    then (if cgoto_supported
        then (if same_text value "no"
            then (set_option_success, record vm { cgoto = false }, s)
            else (set_option_invalid_value, vm, s))
        else (set_option_invalid_name, vm, s))
    else if same_text name "trace"
    then (let (tracer, s') = create_instruction_tracer s in
        (set_option_success, add_tracer tracer vm, s'))
    else if same_text name "histogram"
    then (let (tracer, s') = create_histogram_tracer s in
        (set_option_success, add_tracer tracer vm, s'))
    else (set_option_invalid_name, vm, s)
