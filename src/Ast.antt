-- ===== src/Ast.antt =====
-- parser/ast.go: the syntax tree.
use space_db.Base.{ℕ, Bool, List, Option}
use space_db.Bytes.{Bytes}
use space_db.Types.{DataType}
use space_db.Types.Int64.{ℤ}

pub data OperationKind : Type 0 where
  operation_equal operation_greater_than operation_less_than : OperationKind

-- Expression, with the value that each kind holds. A float literal is the number of its bits.
pub data Expression : Type 0 where
  null : Expression
  boolean_literal : Bool → Expression
  integer_literal : ℤ → Expression
  float_literal : ℕ → Expression
  string_literal : Bytes → Expression
  operation_expression : OperationKind → Expression → Expression → Expression
  function_expression : Bytes → Bytes → Expression
  column_reference : Bytes → Expression

-- Column of CREATE TABLE: `nullable` is `none` where neither NULL nor NOT NULL is written.
pub record Column : Type 0 where
  pub name : Bytes
  pub data_type : DataType
  pub nullable : Option Bool
  pub default_value : Option Expression
  pub primary_key : Bool

pub record CreateTableStatement : Type 0 where
  pub name : Bytes
  pub columns : List Column

pub record InsertStatement : Type 0 where
  pub table_name : Bytes
  pub columns : List Bytes
  pub values : List (List Expression)

pub data OrderDirection : Type 0 where
  order_ascending order_descending : OrderDirection

pub record OrderBy : Type 0 where
  pub column : Bytes
  pub direction : OrderDirection

pub record SelectItem : Type 0 where
  pub expression : Expression
  pub alias : Option Bytes

pub data JoinType : Type 0 where
  join_cross join_inner join_left join_right : JoinType

pub data FromItem : Type 0 where
  table_from_item : Bytes → FromItem
  join_from_item : FromItem → FromItem → JoinType → Option Expression → FromItem

-- `filter` is the field Where; the empty list of items stands for `*`.
pub record SelectStatement : Type 0 where
  pub from_item : FromItem
  pub select_items : List SelectItem
  pub filter : Option Expression
  pub group_by : Option Expression
  pub having : Option Expression
  pub order_by : List OrderBy
  pub limit : Option Expression
  pub offset : Option Expression

-- The map of assignments is a list of its entries.
pub record UpdateStatement : Type 0 where
  pub table_name : Bytes
  pub assignments : List (Bytes × Expression)
  pub filter : Option Expression

pub record DeleteStatement : Type 0 where
  pub table_name : Bytes
  pub filter : Option Expression

pub data Statement : Type 0 where
  create_table_statement : CreateTableStatement → Statement
  insert_statement : InsertStatement → Statement
  select_statement : SelectStatement → Statement
  update_statement : UpdateStatement → Statement
  delete_statement : DeleteStatement → Statement
