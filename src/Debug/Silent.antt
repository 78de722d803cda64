-- ===== src/Debug/Silent.antt =====
-- debug_dump as the interpreter calls it: from the values that its variables start with.
use Prim.Native.String.{String}
use ctutor.Base.{ℕ, ◌≡◌, Option, [], ◌++◌}
use ctutor.Outcome.{ok}
use ctutor.Types.EmuVal.{EmuVal}
use ctutor.Exec.{State, Host, Exec}
use ctutor.Debug.{Console}
use ctutor.Debug.Record.{Pieces}
use ctutor.Debug.Dump.{Debugger, Output, fresh_debugger, debug_dump}

-- The calls of a run, in states of the interpreter that may be any: what debug_dump has kept, and what
-- was written to llvm::outs().
pub data Calls (h : Host) (console : Console) (size : ℕ → Exec EmuVal)
    : Debugger → Pieces → Type 0 where
  no_calls : Calls h console size fresh_debugger []
  call :
      (d d' : Debugger) (out : Pieces) (file : String) (line : ℕ) (exc : Option String)
      (s s' : State) (o : Output)
      → Calls h console size d out
      → debug_dump h console size file line exc d s ≡ ok ((d', o), s')
      → Calls h console size d' (out ++ o.outs)
