-- ===== src/Tests/Recovery.antt =====
-- The recovery after an error in a small text.
use yscript.Prelude.{◌≡◌, refl, false, some, arith}
use yscript.Prelude.Bytes.{codes}
use yscript.Scanner.{init_scanner}
use yscript.Scanner.Moves.{IsScanned, lines_before}
use yscript.Compiler.{State}
use yscript.Compiler.Compile.{grammar}
use yscript.Compiler.Grammar.{Grammar}
use yscript.Compiler.Recovery.{Recovered, synchronize-Recovered}
use yscript.Compiler.Statements.{synchronize}
use yscript.Tests.Code.{some_state, no_numbers}

abbrev lost_state : State
lost_state = record some_state { scanner = init_scanner (codes ") + @ while") }

lost_state-IsScanned : IsScanned lost_state.scanner
unfolding init_scanner lines_before
lost_state-IsScanned = record { within = omega arith; counted = refl }

abbrev twenty_levels : Grammar
twenty_levels = grammar no_numbers 20

synchronize-Recovered_example :
    (s' : State) × (synchronize twenty_levels lost_state ≡ some (tt, s'))
    × Recovered (record lost_state { panic_mode = false }) s'
unfolding grammar init_scanner
synchronize-Recovered_example =
    synchronize-Recovered twenty_levels lost_state lost_state-IsScanned (omega arith)
