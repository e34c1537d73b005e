-- ===== src/Tests/Vm.antt =====
-- Runs of the options (lib/zvmone/vm.cpp) and the tracers (lib/zvmone/tracing.cpp) on concrete input.
use zvmone.Prelude.{
  ℕ, ◌%◌, ◌^◌, ◌<◌, ◌≡◌, ◌⊎◌, arith, true, some, List, [], ◌∷◌, ◌++◌, map, replicate, get_or,
}
use zvmone.Prelude.Int.{pos}
use zvmone.Tracing.{
  Stream, dec, HistogramContext, histogram, on_execution_start, InstructionContext, instruction,
  notify, on_execution_end, put_all, result_items, histogram_items, hex,
}
use zvmone.Tracing.Counts.{Event, trace_all, occurrences, opcodes, histogram-occurrences}
use zvmone.Zvmc.{CallResult, success}
use zvmone.Tracing.Shared.{print_in, notify-on_execution_end-hex}
use mathlib.Core.Option
use zvmone.Baseline.{execute}
use zvmone.Baseline.Traced.{execute_vm}
use zvmone.Baseline.Traced.Transparent.{with_tracers, execute_vm-execute}
use zvmone.Vm.{Vm, new_vm, set_option, set_option_success}
use zvmone.Vm.Options.{set_option-unchanged}
use zvmone.Tests.{platform, message, jump_code}

abbrev stream : Stream
stream = record { base = dec; written = [] }

-- The instructions of the code that jumps.
abbrev events : List Event
events =
    record { pc = 0; stack = []; gas = pos 100; memory_size = 0 }
    ∷ record { pc = 2; stack = []; gas = pos 97; memory_size = 0 }
    ∷ []

histogram-occurrences_example :
    (c : HistogramContext) × (trace_all events
        (on_execution_start message jump_code (histogram []) stream).0
        (on_execution_start message jump_code (histogram []) stream).1
      ≡ some (histogram (c ∷ []), stream))
    × ((op : ℕ)
        → op < 256
        → get_or c.counts op 0 ≡ occurrences op (opcodes jump_code events) % 2 ^ 32)
histogram-occurrences_example =
    histogram-occurrences message jump_code events [] stream (omega arith, (omega arith, tt))

set_option-unchanged_example :
    ((set_option true (some "cgoto") (some "yes") (new_vm true) stream).0 ≡ set_option_success)
    ⊎ (((set_option true (some "cgoto") (some "yes") (new_vm true) stream).1 ≡ new_vm true)
        × ((set_option true (some "cgoto") (some "yes") (new_vm true) stream).2 ≡ stream))
set_option-unchanged_example =
    set_option-unchanged true (some "cgoto") (some "yes") (new_vm true) stream

abbrev traced : InstructionContext
traced = record { traced_code = jump_code; start_gas = pos 100 }

abbrev counted : HistogramContext
counted = record { depth = 0; code = jump_code; counts = replicate 20 0 ++ (1 ∷ []) }

abbrev result : CallResult
result = record {
  status_code = success;
  gas_left = pos 80;
  gas_refund = pos 0;
  output = [];
  create_address = replicate 20 0;
}

notify-on_execution_end-hex_example :
    (s' : Stream) × (notify
        (on_execution_end result)
        (instruction (traced ∷ []) ∷ histogram (counted ∷ []) ∷ [])
        stream
      ≡ some (instruction [] ∷ histogram [] ∷ [], s'))
    × (s'.written
        ≡ (put_all (result_items traced result) stream).written
          ++ map (print_in hex) (histogram_items counted))
notify-on_execution_end-hex_example = notify-on_execution_end-hex result traced [] counted [] stream

abbrev traced_vm : Vm
traced_vm = record (new_vm true) { tracers = instruction [] ∷ histogram [] ∷ [] }

execute_vm-execute_example :
    (s' : Stream) × (execute_vm true platform 0 message jump_code traced_vm stream
      ≡ Option.map (with_tracers traced_vm.tracers s') (execute platform 0 message jump_code))
execute_vm-execute_example =
    execute_vm-execute platform true 0 message jump_code traced_vm stream (omega arith)
