-- ===== src/Syntax/Token.antt =====
-- syntax/src/token.rs: keywords and tokens. A string is the list of its characters, a character its
-- code point.
use quantadb.Prelude.{
  ℕ, Bool, Option, none, some, List, [], ◌∷◌, ◌-◌, ◌&&◌, if◌then◌else◌, leb, map,
}
use quantadb.Bytes.{bytes_eq}

abbrev pub Text : Type 0
Text = List ℕ

pub data Keyword : Type 0 where
  and_keyword as_keyword asc_keyword bigint_keyword bool_keyword boolean_keyword : Keyword
  begin_keyword by_keyword commit_keyword create_keyword delete_keyword desc_keyword : Keyword
  double_keyword drop_keyword exists_keyword false_keyword float_keyword from_keyword : Keyword
  if_keyword insert_keyword int_keyword integer_keyword into_keyword index_keyword : Keyword
  is_keyword key_keyword limit_keyword not_keyword null_keyword on_keyword : Keyword
  or_keyword order_keyword primary_keyword rollback_keyword select_keyword set_keyword : Keyword
  start_keyword table_keyword text_keyword true_keyword transaction_keyword unique_keyword : Keyword
  update_keyword values_keyword varchar_keyword where_keyword work_keyword : Keyword

-- `to_ascii_uppercase`
abbrev pub ascii_uppercase : ℕ → ℕ
ascii_uppercase c = if leb 97 c && leb c 122 then c - 32 else c

-- the words, in capital letters
abbrev pub keywords : List (Text × Keyword)
keywords =
    (65 ∷ 78 ∷ 68 ∷ [], and_keyword)
    ∷ (65 ∷ 83 ∷ [], as_keyword)
    ∷ (65 ∷ 83 ∷ 67 ∷ [], asc_keyword)
    ∷ (66 ∷ 73 ∷ 71 ∷ 73 ∷ 78 ∷ 84 ∷ [], bigint_keyword)
    ∷ (66 ∷ 79 ∷ 79 ∷ 76 ∷ [], bool_keyword)
    ∷ (66 ∷ 79 ∷ 79 ∷ 76 ∷ 69 ∷ 65 ∷ 78 ∷ [], boolean_keyword)
    ∷ (66 ∷ 69 ∷ 71 ∷ 73 ∷ 78 ∷ [], begin_keyword)
    ∷ (66 ∷ 89 ∷ [], by_keyword)
    ∷ (67 ∷ 79 ∷ 77 ∷ 77 ∷ 73 ∷ 84 ∷ [], commit_keyword)
    ∷ (67 ∷ 82 ∷ 69 ∷ 65 ∷ 84 ∷ 69 ∷ [], create_keyword)
    ∷ (68 ∷ 69 ∷ 76 ∷ 69 ∷ 84 ∷ 69 ∷ [], delete_keyword)
    ∷ (68 ∷ 69 ∷ 83 ∷ 67 ∷ [], desc_keyword)
    ∷ (68 ∷ 79 ∷ 85 ∷ 66 ∷ 76 ∷ 69 ∷ [], double_keyword)
    ∷ (68 ∷ 82 ∷ 79 ∷ 80 ∷ [], drop_keyword)
    ∷ (69 ∷ 88 ∷ 73 ∷ 83 ∷ 84 ∷ 83 ∷ [], exists_keyword)
    ∷ (70 ∷ 65 ∷ 76 ∷ 83 ∷ 69 ∷ [], false_keyword)
    ∷ (70 ∷ 76 ∷ 79 ∷ 65 ∷ 84 ∷ [], float_keyword)
    ∷ (70 ∷ 82 ∷ 79 ∷ 77 ∷ [], from_keyword)
    ∷ (73 ∷ 70 ∷ [], if_keyword)
    ∷ (73 ∷ 78 ∷ 83 ∷ 69 ∷ 82 ∷ 84 ∷ [], insert_keyword)
    ∷ (73 ∷ 78 ∷ 84 ∷ [], int_keyword)
    ∷ (73 ∷ 78 ∷ 84 ∷ 69 ∷ 71 ∷ 69 ∷ 82 ∷ [], integer_keyword)
    ∷ (73 ∷ 78 ∷ 84 ∷ 79 ∷ [], into_keyword)
    ∷ (73 ∷ 78 ∷ 68 ∷ 69 ∷ 88 ∷ [], index_keyword)
    ∷ (73 ∷ 83 ∷ [], is_keyword)
    ∷ (75 ∷ 69 ∷ 89 ∷ [], key_keyword)
    ∷ (76 ∷ 73 ∷ 77 ∷ 73 ∷ 84 ∷ [], limit_keyword)
    ∷ (78 ∷ 79 ∷ 84 ∷ [], not_keyword)
    ∷ (78 ∷ 85 ∷ 76 ∷ 76 ∷ [], null_keyword)
    ∷ (79 ∷ 78 ∷ [], on_keyword)
    ∷ (79 ∷ 82 ∷ [], or_keyword)
    ∷ (79 ∷ 82 ∷ 68 ∷ 69 ∷ 82 ∷ [], order_keyword)
    ∷ (80 ∷ 82 ∷ 73 ∷ 77 ∷ 65 ∷ 82 ∷ 89 ∷ [], primary_keyword)
    ∷ (82 ∷ 79 ∷ 76 ∷ 76 ∷ 66 ∷ 65 ∷ 67 ∷ 75 ∷ [], rollback_keyword)
    ∷ (83 ∷ 69 ∷ 76 ∷ 69 ∷ 67 ∷ 84 ∷ [], select_keyword)
    ∷ (83 ∷ 69 ∷ 84 ∷ [], set_keyword)
    ∷ (83 ∷ 84 ∷ 65 ∷ 82 ∷ 84 ∷ [], start_keyword)
    ∷ (84 ∷ 65 ∷ 66 ∷ 76 ∷ 69 ∷ [], table_keyword)
    ∷ (84 ∷ 69 ∷ 88 ∷ 84 ∷ [], text_keyword)
    ∷ (84 ∷ 82 ∷ 85 ∷ 69 ∷ [], true_keyword)
    ∷ (84 ∷ 82 ∷ 65 ∷ 78 ∷ 83 ∷ 65 ∷ 67 ∷ 84 ∷ 73 ∷ 79 ∷ 78 ∷ [], transaction_keyword)
    ∷ (85 ∷ 78 ∷ 73 ∷ 81 ∷ 85 ∷ 69 ∷ [], unique_keyword)
    ∷ (85 ∷ 80 ∷ 68 ∷ 65 ∷ 84 ∷ 69 ∷ [], update_keyword)
    ∷ (86 ∷ 65 ∷ 76 ∷ 85 ∷ 69 ∷ 83 ∷ [], values_keyword)
    ∷ (86 ∷ 65 ∷ 82 ∷ 67 ∷ 72 ∷ 65 ∷ 82 ∷ [], varchar_keyword)
    ∷ (87 ∷ 72 ∷ 69 ∷ 82 ∷ 69 ∷ [], where_keyword)
    ∷ (87 ∷ 79 ∷ 82 ∷ 75 ∷ [], work_keyword)
    ∷ []

unfoldable pub keyword_in : List (Text × Keyword) → Text → Option Keyword
keyword_in [] word = none
keyword_in ((text, keyword) ∷ rest) word =
    let found = keyword_in rest word in if bytes_eq text word then some keyword else found

unfoldable pub from_identifier : Text → Option Keyword
from_identifier identifier = keyword_in keywords (map ascii_uppercase identifier)

pub data TokenKind : Type 0 where
  keyword : Keyword → TokenKind
  identifier : Text → Bool → TokenKind
  number string : Text → TokenKind
  comma dot star left_paren right_paren semicolon : TokenKind
  equal not_equal less_than less_than_or_equal greater_than greater_than_or_equal : TokenKind
  plus minus slash percent eof : TokenKind

pub record Span : Type 0 where
  pub start : ℕ
  pub end : ℕ

pub record Token : Type 0 where
  pub kind : TokenKind
  pub span : Span
