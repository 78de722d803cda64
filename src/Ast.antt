-- ===== src/Ast.antt =====
-- The syntax trees of Clang as far as eval.cpp looks into them: a node by its class, for the classes
-- that are told apart, and by the answers that it gives to getSubExpr, getType and their like.
-- Clang itself is no part of the repository.
use Prim.Native.String.{String}
use ctutor.Base.{ℕ, Bool, Option, List}
use ctutor.Machine.ApInt.{ApInt}
use ctutor.Types.QualType.{QualType}

-- UnaryOperatorKind; `other` stands for the kinds that are refused.
pub data UnaryOp : Type 0 where
  addr_of lnot minus other : UnaryOp

-- BinaryOperatorKind
pub data BinaryOp : Type 0 where
  assign lt gt le ge eq ne add_assign sub_assign add sub mul div bit_and bit_or other : BinaryOp

-- CastKind
pub data CastKind : Type 0 where
  lvalue_to_rvalue no_op bit_cast integral_cast function_to_pointer array_to_pointer builtin_fn
        null_to_pointer pointer_to_integral other :
      CastKind

-- A cast is explicit where it has a type as written. The argument type of sizeof is `none` where its
-- argument is an expression. A string has the bytes of its code units.
mutual
  pub data Expr : Type 0 where
    integer_literal : ApInt → Expr
    character_literal : ℕ → Expr
    unary : UnaryOp → Expr → (type : QualType) → Expr
    binary : BinaryOp → (lhs rhs : Expr) → Expr
    cast : CastKind → (written : Option QualType) → Expr → (type : QualType) → Expr
    call : (callee : Expr) → Exprs → Expr
    size_of : Option QualType → Expr
    other_trait : Expr
    init_list : Exprs → (type : QualType) → Expr
    implicit_value_init : (type : QualType) → Expr
    paren : Expr → Expr
    decl_ref : (name : String) → (type : QualType) → Expr
    array_subscript : (base index : Expr) → Expr
    string_literal : (ascii : Bool) → List ℕ → (type : QualType) → Expr
    other : Expr

  pub data Exprs : Type 0 where
    nil : Exprs
    cons : Expr → Exprs → Exprs

-- A declaration in a function body: of a variable, with or without an initial value, or of
-- anything else.
pub data Decl : Type 0 where
  variable : (name : String) → QualType → (init : Option Expr) → Decl
  other : Decl

-- The parts of a for statement and the value of a return statement may be absent.
mutual
  pub data Stmt : Type 0 where
    compound : Stmts → Stmt
    decl_stmt : List Decl → Stmt
    expr : Expr → Stmt
    return_stmt : Option Expr → Stmt
    if_only : Expr → Stmt → Stmt
    if_else : Expr → Stmt → Stmt → Stmt
    for_stmt : (init : Stmt) → (cond inc : Option Expr) → (body : Stmt) → Stmt
    for_no_init : (cond inc : Option Expr) → (body : Stmt) → Stmt
    null_stmt : Stmt
    switch : Expr → (body : Stmt) → Stmt
    case_stmt : Expr → Stmt → Stmt
    default_stmt : Stmt → Stmt
    break_stmt : Stmt
    other : Stmt

  pub data Stmts : Type 0 where
    nil : Stmts
    cons : Stmt → Stmts → Stmts

-- FunctionDecl. `external` tells whether its linkage is external.
pub record FunctionDecl : Type 0 where
  pub name : String
  pub type : QualType
  pub return_type : QualType
  pub params : List (String × QualType)
  pub body : Option Stmt
  pub external : Bool

-- VarDecl at the top of a file
pub record VarDecl : Type 0 where
  pub name : String
  pub type : QualType
  pub init : Option Expr
  pub extern_storage : Bool
  pub external : Bool

-- A declaration at the top of a file. `value` is a ValueDecl of another class.
pub data TopDecl : Type 0 where
  function : FunctionDecl → TopDecl
  variable : VarDecl → TopDecl
  value : TopDecl
  other : TopDecl
