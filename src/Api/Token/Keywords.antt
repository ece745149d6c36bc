-- ===== src/Api/Token/Keywords.antt =====
-- token.go: LookupKeyword finds exactly the keyword types, by their texts.
use fastgozero.Prelude.{◌≡◌, ◌↔◌, inl, inr, true, List, [], ◌∷◌, some, Bool-cases, arith}
use fastgozero.Prelude.Texts.{Text, text_eq, text_eq→eq}
use fastgozero.Api.Token.{
  TokenType, Token, illegal_position, type_string, is_keyword, keywords, find_text, lookup_keyword,
}

-- A token of a type, with the text of the type.
abbrev pub token_of : TokenType → Token
token_of t = record { type = t; text = type_string t; position = illegal_position }

abbrev IsKeywordOf : Text → TokenType → Type 0
IsKeywordOf s t = (type_string t ≡ s) × (is_keyword (token_of t) ≡ true)

abbrev AllOf : List (Text × TokenType) → Type 0
AllOf [] = Unit {0}
AllOf ((k, t) ∷ m) = IsKeywordOf k t × AllOf m

find_text-IsKeywordOf :
    (m : List (Text × TokenType)) (s : Text) (t : TokenType)
    → AllOf m
    → find_text s m ≡ some t
    → IsKeywordOf s t
unfolding find_text
find_text-IsKeywordOf [] s t all h = cc
find_text-IsKeywordOf ((k, u) ∷ m) s t all h = elim (Bool-cases (text_eq s k)) [
  | inl same ↦ ground (arith, text_eq→eq s k same)
  | inr other ↦ find_text-IsKeywordOf m s t all.1 (rw other at h)
]

keywords-AllOf : AllOf keywords
unfolding type_string is_keyword
keywords-AllOf = ground arith

lookup_keyword-type_string :
    (t : TokenType) → is_keyword (token_of t) ≡ true → lookup_keyword (type_string t) ≡ some t
unfolding lookup_keyword is_keyword type_string text_eq
lookup_keyword-type_string TokenType.token_bg h = ground arith
lookup_keyword-type_string _ h = ground arith

-- LookupKeyword gives a type for a text exactly if the type is a keyword type and the text is its
-- String.
pub lookup_keyword_lem :
    (s : Text) (t : TokenType)
    → (lookup_keyword s ≡ some t) ↔ ((type_string t ≡ s) × (is_keyword (token_of t) ≡ true))
unfolding lookup_keyword
lookup_keyword_lem s t = (
  λ h. find_text-IsKeywordOf keywords s t keywords-AllOf h,
  λ h. rw (← h.0) (lookup_keyword-type_string t h.1),
)
