-- ===== src/Program/Globals.antt =====
-- The functions and the variables at the top of a file: StoreFuncImpl, SetupVar and InitializeVar of
-- eval.cpp, and new_fid of mem.cpp.
use Prim.Native.String.{String}
use text.Mathlib.Text.{◌==◌ as str_eq}
use ctutor.Base.{ℕ, ◌+◌, ◌%◌, ◌^◌, Bool, true, false, ◌&&◌, Option, none, some, ◌==◌, if◌then◌else◌}
use ctutor.Outcome.{Outcome, ok, exits, undefined, err_exit}
use ctutor.Ast.{Expr, FunctionDecl, VarDecl, TopDecl}
use ctutor.Types.Enums.{invalid, static, extern, global}
use ctutor.Types.QualType.{QualType}
use ctutor.Types.EmuVal
use ctutor.Types.EmuVal.{EmuVal, EmuFunc, func, func_of_id, func_of_memory}
use ctutor.Mem.Stack.{Lvalue}
use ctutor.Cast.{get_size_of}
use ctutor.Exec.{State, Host, Exec, pure, asks, lift, ◌>>=◌, ◌>>◌}
use ctutor.Exec.Blocks.{bytes_at, store_bytes, set_memtype, alloc, alloc_with, dump}
use ctutor.Eval.Evaluator.{Evaluator, value}
use ctutor.Eval.Lvalues.{get_nonstack_var}
use ctutor.Eval.Casts.{is_defined}

-- new_fid
unfoldable pub take_fid : State → Outcome (ℕ × State)
take_fid s =
    if s.fid_counter == 0
    then exits (err_exit "Too many functions")
    else ok (s.fid_counter, record s { fid_counter = (s.fid_counter + 1) % 2 ^ 32 })

unfoldable pub new_fid : Exec ℕ
unfolding take_fid
new_fid s = take_fid s

-- The insertions into the tables of the globals; `insert` keeps an entry that is there.
abbrev or_new {ℓ} : {A : Type ℓ} → Option A → A → Option A
or_new none x = some x
or_new (some y) x = some y

unfoldable pub insert_local : (source : ℕ) → String → Lvalue → Exec (Unit {0})
insert_local source name l s = ok (
  tt,
  record s {
    local_vars = λ n k.
        if n == source
        then (if str_eq k name then or_new (s.local_vars source name) l else s.local_vars n k)
        else s.local_vars n k;
  },
)

unfoldable pub insert_global : String → (source : ℕ) → Exec (Unit {0})
insert_global name source s = ok (
  tt,
  record s {
    global_vars =
        λ k. if str_eq k name then or_new (s.global_vars name) source else s.global_vars k;
  },
)

unfoldable pub insert_function : (fid source : ℕ) → FunctionDecl → Exec (Unit {0})
insert_function fid source d s = ok (
  tt,
  record s {
    global_functions =
        λ k. if k == fid then or_new (s.global_functions fid) (source, d) else s.global_functions k;
  },
)

unfoldable pub set_main : ℕ → Exec (Unit {0})
set_main source s = ok (tt, record s { main_source = some source })

unfoldable pub set_static_init : Bool → Exec (Unit {0})
set_static_init b s = ok (tt, record s { static_init = b })

abbrev is_some {ℓ} : {A : Type ℓ} → Option A → Bool
is_some none = false
is_some (some _) = true

-- EmuFunc(block->data, type)
unfoldable pub func_at : Option ℕ → QualType → Exec EmuFunc
unfolding func_of_memory
func_at b t = do
  bytes ← bytes_at b 0
  functions ← asks (λ s. ok s.global_functions)
  lift (func_of_memory (λ id. is_some (functions id)) bytes t)

module _ (h : Host) where
  -- The rest of StoreFuncImpl, for a definition.
  unfoldable pub store_definition : FunctionDecl → (source : ℕ) → Exec (Unit {0})
  unfolding new_fid func_of_id insert_function insert_local insert_global set_main
  store_definition d source = do
    fid ← new_fid
    storage ← alloc_with h invalid (func (func_of_id fid d.type))
    insert_function fid source d
    insert_local source d.name (record { block = some storage; type = d.type; offset = 0 })
    if d.external
        then (do
          insert_global d.name source
          if str_eq d.name "main" then set_main source else pure tt)
        else pure tt

  -- StoreFuncImpl; a declaration with a body is a definition.
  unfoldable pub store_func_impl : FunctionDecl → (source : ℕ) → Exec (Unit {0})
  unfolding store_definition
  store_func_impl d source = do
    old ← asks (λ s. ok (s.local_vars source d.name))
    if is_some old then pure tt else if is_some d.body then store_definition d source else pure tt

  -- SetupVar of a function whose name has a block.
  unfoldable pub unhide : FunctionDecl → (block : ℕ) → Exec (Unit {0})
  unfolding func_at
  unhide d b = do
    f ← func_at (some b) d.type
    functions ← asks (λ s. ok s.global_functions)
    if is_defined f.status && is_some (functions f.func_id) then set_memtype b static else pure tt

  unfoldable pub unhide_or_declare : FunctionDecl → (source : ℕ) → Option ℕ → Exec (Unit {0})
  unfolding unhide insert_local
  unhide_or_declare d source (some b) = unhide d b
  unhide_or_declare d source none = do
    storage ← alloc h extern 0
    insert_local source d.name (record { block = some storage; type = d.type; offset = 0 })

  unfoldable pub setup_function : FunctionDecl → (source : ℕ) → Exec (Unit {0})
  unfolding get_nonstack_var unhide_or_declare
  setup_function d source = do
    l ← asks (get_nonstack_var d.name)
    unhide_or_declare d source l.block

  unfoldable pub setup_variable : VarDecl → (source : ℕ) → Exec (Unit {0})
  unfolding insert_local insert_global
  setup_variable v source = if v.extern_storage then pure tt else do
    size ← lift (get_size_of v.type)
    storage ← alloc h global size
    insert_local source v.name (record { block = some storage; type = v.type; offset = 0 })
    if v.external then insert_global v.name source else pure tt

  -- SetupVar, of a declaration that is a ValueDecl
  unfoldable pub setup_var : TopDecl → (source : ℕ) → Exec (Unit {0})
  unfolding setup_function setup_variable
  setup_var (TopDecl.function d) source = setup_function d source
  setup_var (TopDecl.variable v) source = setup_variable v source
  setup_var _ source = pure tt

  -- The bytes of the initial value, if there is one, stored without a test of the bounds.
  unfoldable pub store_initial : Evaluator → VarDecl → (source : ℕ) → Option Expr → Exec (Unit {0})
  unfolding value
  store_initial ev v source none = pure tt
  store_initial ev v source (some init) = do
    temp ← value ev init
    val ← lift (EmuVal.cast_to h.ops temp v.type)
    found ← asks (λ s. ok (s.local_vars source v.name))
    loc ← lift (elim found [ none ↦ undefined | some l ↦ ok l ])
    bytes ← dump h val
    store_bytes loc.block loc.offset bytes

  -- InitializeVar
  unfoldable pub initialize_var : Evaluator → VarDecl → (source : ℕ) → Exec (Unit {0})
  unfolding store_initial
  initialize_var ev v source =
      if v.extern_storage then pure tt else store_initial ev v source v.init
