-- ===== src/Tools/Examples.antt =====
-- A call of bash on an empty ledger, for the theorem about src/tool_registry.py.
use ops_sentry.Prelude.{string_eq, nat_eq, ◌≡◌, refl, none, some, [], lookup, insert}
use ops_sentry.Ledger.Storage.{find_row}
use ops_sentry.Ledger.Spec.{IsLedger}
use ops_sentry.Tools.Dispatch.{
  Args, text_command, Execution, Outcome, raised, Registry, Stamps, World, new_registry,
  register_tool, dispatch,
}
use ops_sentry.Tools.Gate.{dispatch_outcome, dispatch-eq-dispatch_outcome}

abbrev refuse : Execution → Outcome
refuse x = raised "no sandbox here"

abbrev registry : Registry
registry = new_registry refuse none (λ p. some p)

abbrev list_files : Args
list_files = record { command = text_command "ls"; timeout = none; workdir = none; env = none }

abbrev stamps : Stamps
stamps = record { fresh = "u1"; created = 1; updated = 2; started = 3; ended = 4 }

abbrev empty : World
empty = record { table = []; runs = [] }

empty-IsLedger : IsLedger []
empty-IsLedger = record { unique = tt; known = tt }

dispatch_example :
    dispatch registry "bash" stamps list_files empty
    ≡ dispatch_outcome registry "bash" stamps list_files empty
unfolding new_registry register_tool insert lookup find_row
dispatch_example =
    dispatch-eq-dispatch_outcome registry "bash" stamps list_files empty refl refl empty-IsLedger
      refl
