-- ===== src/Debug/Dump.antt =====
-- debug_dump of debug.cpp, with the two variables that it keeps.
use Prim.Native.String.{String}
use mathlib.Core.List.{reverse}
use ctutor.Base.{
  ℕ, Bool, true, false, not, ◌||◌, Option, none, some, [], ◌∷◌, ◌++◌, map, ◌==◌, if◌then◌else◌,
}
use ctutor.Outcome.{ok, undefined}
use ctutor.Types.EmuVal.{EmuVal}
use ctutor.Exec.{State, Host, Exec, pure, asks, lift, ◌>>=◌}
use ctutor.Debug.{Console, text, nat}
use ctutor.Debug.Record.{
  Pieces, separated, used_locals, local_name, local_ref, frame_items, heap_items, block_runs,
}

pub record Debugger : Type 0 where
  pub firsttime : Bool
  pub lastline : ℕ

-- What a call writes to llvm::outs() and to llvm::errs().
pub record Output : Type 0 where
  pub outs : Pieces
  pub errs : Pieces

abbrev pub fresh_debugger : Debugger
fresh_debugger = record { firsttime = true; lastline = 0 }

abbrev pub enabled : ℕ
enabled = 0x42424242

-- Without an exception, a line of another source or the line before is not dumped.
unfoldable pub skipped : Option String → (line : ℕ) → Debugger → State → Bool
skipped none line d s =
    not (elim s.main_source [ none ↦ false | some m ↦ s.curr_source == m ]) || line == d.lastline
skipped (some exc) line d s = false

unfoldable pub location : (file : String) (line : ℕ) → Option String → Pieces
location file line none =
    text "DOUG DEBUG file " ∷ text file ∷ text " line " ∷ nat line ∷ text "\n" ∷ []
location file line (some exc) =
    text "DOUG DEBUG: ending with exception "
    ∷ text exc
    ∷ text "\n"
    ∷ text "DOUG DEBUG file "
    ∷ text file
    ∷ text " line "
    ∷ nat line
    ∷ text "\n"
    ∷ []

unfoldable pub message : Option String → Pieces
message none = []
message (some exc) = text "\"exception_msg\": \"" ∷ text exc ∷ text "\", " ∷ []

unfoldable pub event : Option String → String
event none = "step_line\"}"
event (some exc) = "exception\"}]"

module _ (h : Host) (console : Console) (size : ℕ → Exec EmuVal) where
  -- The record of a step, from its opening brace on.
  unfoldable pub step_record : (line : ℕ) → Option String → Exec Pieces
  unfolding separated used_locals local_name local_ref frame_items heap_items block_runs message
      event
  step_record line exc = do
    main ← asks (λ s. ok s.main_source)
    source ← lift (elim main [ none ↦ undefined | some m ↦ ok m ])
    names ← asks (λ s. ok (console.locals s))
    locals ← used_locals source names
    frames ← asks (λ s. ok (reverse s.scopes.stack_vars))
    stack ← frame_items console 1 frames
    blocks ← asks (λ s. ok (console.blocks s))
    heap ← heap_items blocks
    runs ← block_runs console h size blocks
    pure (
        (text "{\n\"ordered_globals\": [\n" ∷ separated (map local_name locals))
        ++ ((text "\n],\n\"stdout\": \"\",\n" ∷ message exc)
            ++ ((text "\"func_name\": \"unnamed_func\",\n\"stack_to_render\": [" ∷ separated stack)
                ++ ((text "\n],\n\"globals\": {\n" ∷ separated (map local_ref locals))
                    ++ ((text "\n},\n\"heap\": {\n" ∷ separated heap)
                        ++ (runs
                            ++ (text "}, \"line\": "
                                ∷ nat line
                                ∷ text ", \"event\": \""
                                ∷ text (event exc)
                                ∷ [])))))))

  -- debug_dump, at a line of a file
  unfoldable pub debug_dump :
      (file : String) → (line : ℕ) → Option String → Debugger → Exec (Debugger × Output)
  unfolding location skipped step_record
  debug_dump file line exc d = do
    let quiet : Debugger × Output = (d, record { outs = []; errs = location file line exc })
    skip ← asks (λ s. ok (skipped exc line d s))
    if not (d.lastline == enabled) || skip then pure quiet else do
      shown ← step_record line exc
      let opening = if d.firsttime then text "[\n" else text ",\n"
      pure (
        record { firsttime = false; lastline = line },
        record { outs = opening ∷ shown; errs = location file line exc },
      )
