-- ===== src/Parser/Ast.antt =====
-- compiler/crates/tyra-ast/src/types.rs: the patterns, expressions and
-- statements. An `i64` or an `f64` is its bit pattern.
use tyra.Prelude.{ℕ, Bool, Option, List, [], ◌∷◌, String}
use tyra.Diagnostics.Span.{Span}
use tyra.Types.Written.{TypeExpr}

-- `PatternFields` and `Patterns` are the `Vec`s inside a pattern.
mutual
  pub data PatternKind : Type 0 where
    wildcard : PatternKind
    ident : String → PatternKind
    int_lit : ℕ → PatternKind
    float_lit : ℕ → PatternKind
    string_lit : String → PatternKind
    bool_lit : Bool → PatternKind
    constructor : String → PatternFields → PatternKind
    tuple : Patterns → PatternKind

  pub data Pattern : Type 0 where
    pattern_of : PatternKind → Span → Pattern

  pub data PatternField : Type 0 where
    pattern_field : String → Pattern → Span → PatternField

  pub data PatternFields : Type 0 where
    no_fields : PatternFields
    fields : PatternField → PatternFields → PatternFields

  pub data Patterns : Type 0 where
    no_patterns : Patterns
    patterns : Pattern → Patterns → Patterns

pub data BinOp : Type 0 where
  add sub mul div rem eq not_eq lt lt_eq gt gt_eq ref_eq and or : BinOp

pub data UnaryOp : Type 0 where
  neg not : UnaryOp

pub data ForBindings : Type 0 where
  idents : List String → ForBindings
  tuple : List String → ForBindings

pub record Param : Type 0 where
  pub label : Option String
  pub name : String
  pub type_annotation : TypeExpr
  pub span : Span

-- The structures of statements and expressions are the constructors' arguments, in their order; the last
-- is the span. `Exprs`, `Entries`, `StringParts`, `Args`, `Stmts` and `MatchArms` are `Vec`s.
mutual
  pub data Expr : Type 0 where
    expr_of : ExprKind → Span → Expr

  pub data ExprKind : Type 0 where
    int_lit : ℕ → ExprKind
    float_lit : ℕ → ExprKind
    string_lit : String → ExprKind
    string_interp : StringParts → ExprKind
    bool_lit : Bool → ExprKind
    unit_lit : ExprKind
    tuple : Exprs → ExprKind
    list_lit : Exprs → ExprKind
    map_lit : Entries → ExprKind
    ident : String → ExprKind
    field_access : Expr → String → ExprKind
    binary_op : Expr → BinOp → Expr → ExprKind
    unary_op : UnaryOp → Expr → ExprKind
    assign : Expr → Expr → ExprKind
    call : Expr → Args → ExprKind
    turbofish_call : Expr → List TypeExpr → Args → ExprKind
    index : Expr → Expr → ExprKind
    propagate : Expr → ExprKind
    await : Expr → ExprKind
    if_kind : IfExpr → ExprKind
    match_kind : MatchExpr → ExprKind
    for_kind : ForExpr → ExprKind
    while_kind : WhileExpr → ExprKind
    lambda : LambdaExpr → ExprKind
    spawn : Expr → ExprKind

  pub data Exprs : Type 0 where
    no_exprs : Exprs
    exprs : Expr → Exprs → Exprs

  pub data Entries : Type 0 where
    no_entries : Entries
    entries : Expr → Expr → Entries → Entries

  pub data StringPart : Type 0 where
    lit : String → StringPart
    expr : Expr → StringPart

  pub data StringParts : Type 0 where
    no_parts : StringParts
    parts : StringPart → StringParts → StringParts

  pub data Arg : Type 0 where
    arg_of : Option String → Expr → Span → Arg

  pub data Args : Type 0 where
    no_args : Args
    args : Arg → Args → Args

  -- The condition, the body, what is behind `else`.
  pub data IfExpr : Type 0 where
    if_of : Expr → Stmts → ElseBody → Span → IfExpr

  -- `Option<ElseBranch>`.
  pub data ElseBody : Type 0 where
    no_else : ElseBody
    else_body : Stmts → ElseBody
    else_if : IfExpr → ElseBody

  -- The subject and the arms.
  pub data MatchExpr : Type 0 where
    match_of : Expr → MatchArms → Span → MatchExpr

  pub data MatchArm : Type 0 where
    match_arm : Pattern → Stmts → Span → MatchArm

  pub data MatchArms : Type 0 where
    no_arms : MatchArms
    arms : MatchArm → MatchArms → MatchArms

  -- The bindings, what is iterated, the body.
  pub data ForExpr : Type 0 where
    for_of : ForBindings → Expr → Stmts → Span → ForExpr

  pub data WhileExpr : Type 0 where
    while_of : Expr → Stmts → Span → WhileExpr

  -- The parameters, the return type, the body.
  pub data LambdaExpr : Type 0 where
    lambda_of : List Param → Option TypeExpr → Stmts → Span → LambdaExpr

  -- `Option<Expr>`.
  pub data ReturnValue : Type 0 where
    no_value : ReturnValue
    returned : Expr → ReturnValue

  pub data Stmt : Type 0 where
    let_stmt : String → Option TypeExpr → Expr → Span → Stmt
    tuple_let_stmt : List String → Option TypeExpr → Expr → Span → Stmt
    mut_stmt : String → Option TypeExpr → Expr → Span → Stmt
    return_stmt : ReturnValue → Span → Stmt
    defer_stmt : Expr → Span → Stmt
    break_stmt : Span → Stmt
    continue_stmt : Span → Stmt
    expr_stmt : Expr → Span → Stmt

  pub data Stmts : Type 0 where
    no_stmts : Stmts
    stmts : Stmt → Stmts → Stmts

abbrev pub expr_span : Expr → Span
expr_span (expr_of kind span) = span

abbrev pub expr_vec : List Expr → Exprs
expr_vec [] = no_exprs
expr_vec (x ∷ xs) = exprs x (expr_vec xs)

abbrev pub entry_vec : List (Expr × Expr) → Entries
entry_vec [] = no_entries
entry_vec ((k, v) ∷ xs) = entries k v (entry_vec xs)

abbrev pub part_vec : List StringPart → StringParts
part_vec [] = no_parts
part_vec (x ∷ xs) = parts x (part_vec xs)

abbrev pub arg_vec : List Arg → Args
arg_vec [] = no_args
arg_vec (x ∷ xs) = args x (arg_vec xs)

abbrev pub arm_vec : List MatchArm → MatchArms
arm_vec [] = no_arms
arm_vec (x ∷ xs) = arms x (arm_vec xs)

abbrev pub stmt_vec : List Stmt → Stmts
stmt_vec [] = no_stmts
stmt_vec (x ∷ xs) = stmts x (stmt_vec xs)

pub record FieldDef : Type 0 where
  pub name : String
  pub type_annotation : TypeExpr
  pub is_mut : Bool
  pub span : Span

pub record Variant : Type 0 where
  pub name : String
  pub fields : List FieldDef
  pub span : Span

pub data TypeDefKind : Type 0 where
  alias : TypeExpr → TypeDefKind
  adt : List Variant → TypeDefKind

pub record TypeParam : Type 0 where
  pub name : String
  pub constraints : List TypeExpr
  pub span : Span

pub record FnDef : Type 0 where
  pub name : String
  pub type_params : List TypeParam
  pub self_param : Option Span
  pub params : List Param
  pub return_type : Option TypeExpr
  pub body : List Stmt
  pub is_async : Bool
  pub is_export : Bool
  pub span : Span

pub record ValueDef : Type 0 where
  pub name : String
  pub type_params : List TypeParam
  pub fields : List FieldDef
  pub is_export : Bool
  pub span : Span

pub record DataDef : Type 0 where
  pub name : String
  pub type_params : List TypeParam
  pub fields : List FieldDef
  pub is_export : Bool
  pub span : Span

pub record TypeDef : Type 0 where
  pub name : String
  pub type_params : List TypeParam
  pub kind : TypeDefKind
  pub is_export : Bool
  pub span : Span

pub record TraitDef : Type 0 where
  pub name : String
  pub type_params : List TypeParam
  pub methods : List FnDef
  pub is_export : Bool
  pub span : Span

pub record ImplDef : Type 0 where
  pub trait_name : String
  pub trait_type_args : List TypeExpr
  pub target_type : TypeExpr
  pub methods : List FnDef
  pub span : Span

pub record ImportDecl : Type 0 where
  pub path : List String
  pub alias : Option String
  pub span : Span

pub record TestDef : Type 0 where
  pub name : String
  pub expects_panic : Bool
  pub body : List Stmt
  pub span : Span

pub data Item : Type 0 where
  fn_def : FnDef → Item
  value_def : ValueDef → Item
  data_def : DataDef → Item
  type_def : TypeDef → Item
  trait_def : TraitDef → Item
  impl_def : ImplDef → Item
  import_decl : ImportDecl → Item
  stmt : Stmt → Item
  test_def : TestDef → Item

pub record SourceFile : Type 0 where
  pub items : List Item
  pub span : Span
