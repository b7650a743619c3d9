-- ===== src/BundleBuilder/Dsl/Syntax.antt =====
-- constraints_dsl.py: the nodes of the tree and their types.
use charm_integration_testin.Prelude.{ℕ, Bool, List, ◌==◌}

-- DSLSyntaxError and DSLTypeError. An index beyond the tokens, and an exhausted fuel, do not occur.
pub data DslError : Type 0 where
  syntax_error type_error index_error out_of_fuel : DslError

pub data DslType : Type 0 where
  int bool str relation_set charm_set unit_set set_str set_int runtime pending : DslType

abbrev pub type_rank : DslType → ℕ
type_rank int = 0
type_rank bool = 1
type_rank str = 2
type_rank relation_set = 3
type_rank charm_set = 4
type_rank unit_set = 5
type_rank set_str = 6
type_rank set_int = 7
type_rank runtime = 8
type_rank pending = 9

abbrev pub type_eq : DslType → DslType → Bool
type_eq a b = type_rank a == type_rank b

-- `n` as `pos n`, and -(n + 1) as `negsuc n`.
pub data ℤ : Type 0 where
  pos : ℕ → ℤ
  negsuc : ℕ → ℤ

-- The classes of the calls of one argument: LenExpr, BoolFunc, CharmsExpr and so on.
pub data Func : Type 0 where
  len bool_func charms features reachable cross_model tracks risks channels revisions units : Func

pub data ArithOp : Type 0 where
  plus minus times : ArithOp

pub data CompareOp : Type 0 where
  eq ne lt le gt ge : CompareOp

pub data SetOp : Type 0 where
  union inter diff : SetOp

-- Texts are lists of code points. A frozenset is the list of its elements as they are written.
pub data Expr : Type 0 where
  int_lit : ℤ → Expr
  str_lit : List ℕ → Expr
  int_set : List ℤ → Expr
  str_set : List (List ℕ) → Expr
  self_set : Expr
  endpoint config set_config resource set_resource : List ℕ → Expr
  call : Func → Expr → Expr
  arith_op : ArithOp → Expr → Expr → Expr
  compare_op : CompareOp → Expr → Expr → Expr
  set_op : SetOp → DslType → Expr → Expr → Expr
  in_set : Bool → Expr → Expr → Expr
  not_op : Expr → Expr
  and_op or_op implies_op : Expr → Expr → Expr

abbrev pub func_type : Func → DslType
func_type len = int
func_type bool_func = bool
func_type charms = charm_set
func_type features = set_str
func_type reachable = charm_set
func_type cross_model = relation_set
func_type tracks = set_str
func_type risks = set_str
func_type channels = set_str
func_type revisions = set_int
func_type units = unit_set

-- `node.dsl_type`
abbrev pub dsl_type : Expr → DslType
dsl_type (int_lit n) = int
dsl_type (str_lit s) = str
dsl_type (int_set ns) = set_int
dsl_type (str_set ss) = set_str
dsl_type self_set = charm_set
dsl_type (endpoint n) = relation_set
dsl_type (config k) = runtime
dsl_type (set_config k) = bool
dsl_type (resource k) = runtime
dsl_type (set_resource k) = bool
dsl_type (call f a) = func_type f
dsl_type (arith_op op a b) = int
dsl_type (compare_op op a b) = bool
dsl_type (set_op op t a b) = t
dsl_type (in_set negated a b) = bool
dsl_type (not_op a) = bool
dsl_type (and_op a b) = bool
dsl_type (or_op a b) = bool
dsl_type (implies_op a b) = bool
