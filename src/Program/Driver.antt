-- ===== src/Program/Driver.antt =====
-- main of main.cpp: the arguments, the files of a program, and the run.
use Prim.Native.String.{String}
use text.Mathlib.Text.{find?}
use ctutor.Base.{ℕ, Bool, true, false, Option, none, some, List, [], ◌∷◌, ◌++◌, if◌then◌else◌}
use ctutor.Outcome.{err_exit}
use ctutor.Ast.{TopDecl}
use ctutor.Types.EmuNum.{EmuNum}
use ctutor.Exec.{State, Host, Exec, pure, raise, ◌>>=◌}
use ctutor.Program.{interpret}

-- What is not in the repository: the names that readdir gives for a directory, where opendir opens it,
-- and the units that clang's ASTUnit loads, where it loads them.
pub record Files : Type 0 where
  pub listing : (dir : String) → Option (List String)
  pub load_ast : (dir name : String) → Option (List TopDecl)
  pub load_source : (arg : String) → Option (List TopDecl)

-- How main ends: by a return, with what it wrote to llvm::errs(), or in do_exit.
pub data Ending : Type 0 where
  returns : (status : ℕ) → (message : List String) → Ending
  exited : EmuNum → Ending

-- strstr(name, ".ast") != NULL
unfoldable pub is_ast : String → Bool
is_ast name = elim (find? name ".ast") [ none ↦ false | some _ ↦ true ]

-- What is loaded of a program; `none` for a null pointer to a unit.
abbrev pub Units : Type 0
Units = List (Option (List TopDecl))

-- The loop over the entries of the directory, with the ast_list so far.
unfoldable pub read_entries : Files → (dir : String) → List String → Units → Units
unfolding is_ast
read_entries files dir [] ast_list = ast_list
read_entries files dir (name ∷ names) ast_list =
    if is_ast name
    then read_entries files dir names (ast_list ++ (files.load_ast dir name ∷ []))
    else read_entries files dir names ast_list

-- The first loop over ast_list.
unfoldable pub check_units : Units → Exec (List (List TopDecl))
check_units [] = pure []
check_units (none ∷ units) = raise (err_exit "There was a problem reading an AST file, quitting")
check_units (some ds ∷ units) = do sources ← check_units units; pure (ds ∷ sources)

unfoldable pub ending_of : Option EmuNum → Ending
ending_of none = returns 0 ("No main method found" ∷ [])
ending_of (some n) = exited n

unfoldable pub main : Files → Host → (fuel : ℕ) → (argv : List String) → Exec Ending
unfolding read_entries check_units ending_of interpret
main files h fuel (program ∷ dir ∷ source ∷ others) = elim (files.listing dir) [
  | none ↦ pure (returns 1 ("Bad AST directory: " ∷ dir ∷ "\n" ∷ []))
  | some names ↦ do
    sources ← check_units (read_entries files dir names [] ++ (files.load_source source ∷ []))
    r ← interpret h fuel sources
    pure (ending_of r)
]
main files h fuel _ = pure (returns 1 ("Missing arg\n" ∷ []))

-- The units of the entries whose names have .ast in them, in the order of the directory.
unfoldable pub ast_units : Files → (dir : String) → List String → Units
ast_units files dir [] = []
ast_units files dir (name ∷ names) =
    let rest = ast_units files dir names in
    if is_ast name then files.load_ast dir name ∷ rest else rest

-- Units that are all there.
unfoldable pub loaded : List (List TopDecl) → Units
loaded [] = []
loaded (ds ∷ sources) = some ds ∷ loaded sources

module _ (files : Files) (h : Host) (fuel : ℕ) (program dir source : String)
    (others names : List String) (s : State) where
  -- main behind its tests of the arguments.
  abbrev main_units : Exec Ending
  main_units =
      check_units (ast_units files dir names ++ (files.load_source source ∷ [])) >>= λ sources.
      interpret h fuel sources >>= λ r. pure (ending_of r)
