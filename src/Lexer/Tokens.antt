-- ===== src/Lexer/Tokens.antt =====
-- lexer/token.go: the tokens, and the keywords with their spellings.
use space_db.Base.{ℕ, List, [], ◌∷◌, Option, none, some, leb, ◌&&◌, if◌then◌else◌, ◌+◌, ◌-◌, map}
use space_db.Bytes.{Bytes, bytes_eq}
use space_db.Types.{DataType}
use space_db.Types.Int64.{ℤ}

pub data Keyword : Type 0 where
  keyword_create keyword_table keyword_int keyword_integer : Keyword
  keyword_boolean keyword_bool keyword_string keyword_text : Keyword
  keyword_varchar keyword_float keyword_double keyword_select : Keyword
  keyword_from keyword_insert keyword_into keyword_values : Keyword
  keyword_true keyword_false keyword_default keyword_not : Keyword
  keyword_null keyword_primary keyword_key keyword_update : Keyword
  keyword_set keyword_where keyword_delete keyword_group : Keyword
  keyword_having keyword_order keyword_by keyword_asc : Keyword
  keyword_desc keyword_limit keyword_offset keyword_as : Keyword
  keyword_cross keyword_join keyword_left keyword_right : Keyword
  keyword_on : Keyword

-- The constant's string.
unfoldable pub spelling : Keyword → Bytes
spelling keyword_create = 67 ∷ 82 ∷ 69 ∷ 65 ∷ 84 ∷ 69 ∷ []
spelling keyword_table = 84 ∷ 65 ∷ 66 ∷ 76 ∷ 69 ∷ []
spelling keyword_int = 73 ∷ 78 ∷ 84 ∷ []
spelling keyword_integer = 73 ∷ 78 ∷ 84 ∷ 69 ∷ 71 ∷ 69 ∷ 82 ∷ []
spelling keyword_boolean = 66 ∷ 79 ∷ 79 ∷ 76 ∷ 69 ∷ 65 ∷ 78 ∷ []
spelling keyword_bool = 66 ∷ 79 ∷ 79 ∷ 76 ∷ []
spelling keyword_string = 83 ∷ 84 ∷ 82 ∷ 73 ∷ 78 ∷ 71 ∷ []
spelling keyword_text = 84 ∷ 69 ∷ 88 ∷ 84 ∷ []
spelling keyword_varchar = 86 ∷ 65 ∷ 82 ∷ 67 ∷ 72 ∷ 65 ∷ 82 ∷ []
spelling keyword_float = 70 ∷ 76 ∷ 79 ∷ 65 ∷ 84 ∷ []
spelling keyword_double = 68 ∷ 79 ∷ 85 ∷ 66 ∷ 76 ∷ 69 ∷ []
spelling keyword_select = 83 ∷ 69 ∷ 76 ∷ 69 ∷ 67 ∷ 84 ∷ []
spelling keyword_from = 70 ∷ 82 ∷ 79 ∷ 77 ∷ []
spelling keyword_insert = 73 ∷ 78 ∷ 83 ∷ 69 ∷ 82 ∷ 84 ∷ []
spelling keyword_into = 73 ∷ 78 ∷ 84 ∷ 79 ∷ []
spelling keyword_values = 86 ∷ 65 ∷ 76 ∷ 85 ∷ 69 ∷ 83 ∷ []
spelling keyword_true = 84 ∷ 82 ∷ 85 ∷ 69 ∷ []
spelling keyword_false = 70 ∷ 65 ∷ 76 ∷ 83 ∷ 69 ∷ []
spelling keyword_default = 68 ∷ 69 ∷ 70 ∷ 65 ∷ 85 ∷ 76 ∷ 84 ∷ []
spelling keyword_not = 78 ∷ 79 ∷ 84 ∷ []
spelling keyword_null = 78 ∷ 85 ∷ 76 ∷ 76 ∷ []
spelling keyword_primary = 80 ∷ 82 ∷ 73 ∷ 77 ∷ 65 ∷ 82 ∷ 89 ∷ []
spelling keyword_key = 75 ∷ 69 ∷ 89 ∷ []
spelling keyword_update = 85 ∷ 80 ∷ 68 ∷ 65 ∷ 84 ∷ 69 ∷ []
spelling keyword_set = 83 ∷ 69 ∷ 84 ∷ []
spelling keyword_where = 87 ∷ 72 ∷ 69 ∷ 82 ∷ 69 ∷ []
spelling keyword_delete = 68 ∷ 69 ∷ 76 ∷ 69 ∷ 84 ∷ 69 ∷ []
spelling keyword_group = 71 ∷ 82 ∷ 79 ∷ 85 ∷ 80 ∷ []
spelling keyword_having = 72 ∷ 65 ∷ 86 ∷ 73 ∷ 78 ∷ 71 ∷ []
spelling keyword_order = 79 ∷ 82 ∷ 68 ∷ 69 ∷ 82 ∷ []
spelling keyword_by = 66 ∷ 89 ∷ []
spelling keyword_asc = 65 ∷ 83 ∷ 67 ∷ []
spelling keyword_desc = 68 ∷ 69 ∷ 83 ∷ 67 ∷ []
spelling keyword_limit = 76 ∷ 73 ∷ 77 ∷ 73 ∷ 84 ∷ []
spelling keyword_offset = 79 ∷ 70 ∷ 70 ∷ 83 ∷ 69 ∷ 84 ∷ []
spelling keyword_as = 65 ∷ 83 ∷ []
spelling keyword_cross = 67 ∷ 82 ∷ 79 ∷ 83 ∷ 83 ∷ []
spelling keyword_join = 74 ∷ 79 ∷ 73 ∷ 78 ∷ []
spelling keyword_left = 76 ∷ 69 ∷ 70 ∷ 84 ∷ []
spelling keyword_right = 82 ∷ 73 ∷ 71 ∷ 72 ∷ 84 ∷ []
spelling keyword_on = 79 ∷ 78 ∷ []

-- The cases of `KeywordFromIdentifier`.
abbrev pub keywords : List Keyword
keywords =
    keyword_create ∷ keyword_table ∷ keyword_int ∷ keyword_integer ∷ keyword_boolean ∷ keyword_bool
    ∷ keyword_string ∷ keyword_text ∷ keyword_varchar ∷ keyword_float ∷ keyword_double
    ∷ keyword_select ∷ keyword_from ∷ keyword_insert ∷ keyword_into ∷ keyword_values ∷ keyword_true
    ∷ keyword_false ∷ keyword_default ∷ keyword_not ∷ keyword_null ∷ keyword_primary ∷ keyword_key
    ∷ keyword_update ∷ keyword_set ∷ keyword_where ∷ keyword_delete ∷ keyword_group ∷ keyword_having
    ∷ keyword_order ∷ keyword_by ∷ keyword_asc ∷ keyword_desc ∷ keyword_limit ∷ keyword_offset
    ∷ keyword_as ∷ keyword_cross ∷ keyword_join ∷ keyword_left ∷ keyword_right ∷ keyword_on ∷ []

pub data Kind : Type 0 where
  end_of_input keyword_kind identifier string number open_paren close_paren : Kind
  comma semicolon asterisk plus minus slash equal greater_than less_than : Kind

-- `Value any`: nil, a string, an int64 or a float64 by its bits.
pub data TokenValue : Type 0 where
  no_value : TokenValue
  text_value : Bytes → TokenValue
  integer_value : ℤ → TokenValue
  float_value : ℕ → TokenValue

-- The empty keyword is `none`.
pub record Token : Type 0 where
  pub kind : Kind
  pub keyword : Option Keyword
  pub value : TokenValue
  pub offset : ℕ

-- `strings.ToUpper` and `strings.ToLower` of ASCII bytes.
abbrev pub upper_byte : ℕ → ℕ
upper_byte c = if leb 97 c && leb c 122 then c - 32 else c

abbrev pub lower_byte : ℕ → ℕ
lower_byte c = if leb 65 c && leb c 90 then c + 32 else c

-- `strings.ToUpper` on text of ASCII bytes: identifiers of the lexer are such texts.
abbrev pub to_upper : Bytes → Bytes
to_upper text = map upper_byte text

abbrev pub to_lower : Bytes → Bytes
to_lower text = map lower_byte text

unfoldable pub spelled : Bytes → List Keyword → Option Keyword
spelled text [] = none
spelled text (k ∷ ks) =
    let later = spelled text ks in if bytes_eq (spelling k) text then some k else later

unfoldable pub keyword_from_identifier : Bytes → Option Keyword
keyword_from_identifier text = spelled (to_upper text) keywords

-- keywordDataType of parser/ast.go
unfoldable pub keyword_data_type : Keyword → Option DataType
keyword_data_type k = elim k [
  | keyword_int ↦ some DataType.integer
  | keyword_integer ↦ some DataType.integer
  | keyword_boolean ↦ some DataType.boolean
  | keyword_bool ↦ some DataType.boolean
  | keyword_float ↦ some DataType.float
  | keyword_double ↦ some DataType.float
  | keyword_string ↦ some DataType.string
  | keyword_text ↦ some DataType.string
  | keyword_varchar ↦ some DataType.string
  | _ ↦ none
]
