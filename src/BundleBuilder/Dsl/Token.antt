-- ===== src/BundleBuilder/Dsl/Token.antt =====
-- constraints_dsl.py: `_TOKEN_RE` and `_tokenize`. The alternatives of the expression are tried in its
-- order, each as far as it matches.
pub mod Total
use charm_integration_testin.Prelude.{
  ℕ, zero, suc, ◌+◌, ◌-◌, ◌*◌, Bool, true, false, not, ◌&&◌, ◌||◌, Option, none, some, List, [],
  ◌∷◌, ◌++◌, ◌==◌, leb, if◌then◌else◌, length, Result, ok, raise, ◌>>=◌, text_eq,
}
use charm_integration_testin.BundleBuilder.Dsl.Syntax.{DslError, syntax_error, out_of_fuel}

pub data TokenKind : Type 0 where
  ident int str lbracket rbracket lparen rparen lbrace rbrace comma plus minus star pipe amp :
      TokenKind
  eq neq lt le gt ge implies eof : TokenKind

abbrev pub kind_rank : TokenKind → ℕ
kind_rank ident = 0
kind_rank int = 1
kind_rank str = 2
kind_rank lbracket = 3
kind_rank rbracket = 4
kind_rank lparen = 5
kind_rank rparen = 6
kind_rank lbrace = 7
kind_rank rbrace = 8
kind_rank comma = 9
kind_rank plus = 10
kind_rank minus = 11
kind_rank star = 12
kind_rank pipe = 13
kind_rank amp = 14
kind_rank eq = 15
kind_rank neq = 16
kind_rank lt = 17
kind_rank le = 18
kind_rank gt = 19
kind_rank ge = 20
kind_rank implies = 21
kind_rank eof = 22

pub record Token : Type 0 where
  pub kind : TokenKind
  pub value : List ℕ
  pub pos : ℕ

abbrev pub is_kind : TokenKind → Token → Bool
is_kind k t = kind_rank t.kind == kind_rank k

-- `t.kind == IDENT and t.value == value`
abbrev pub is_ident : List ℕ → Token → Bool
is_ident value t = is_kind ident t && text_eq t.value value

-- What the expression finds at the start of a text: white space, or a token's kind and its text.
pub data Lexeme : Type 0 where
  whitespace : Lexeme
  lexeme : TokenKind → Lexeme

-- How many of the first characters are in the class.
unfoldable pub count_while : (ℕ → Bool) → List ℕ → ℕ
count_while p [] = 0
count_while p (c ∷ cs) = if p c then suc (count_while p cs) else 0

abbrev pub is_space : ℕ → Bool
is_space c = c == 32 || (c == 9 || c == 10)

abbrev pub is_digit : ℕ → Bool
is_digit c = leb 48 c && leb c 57

abbrev pub is_letter : ℕ → Bool
is_letter c = (leb 97 c && leb c 122) || ((leb 65 c && leb c 90) || c == 95)

-- `[a-zA-Z0-9_-]`
abbrev pub is_word : ℕ → Bool
is_word c = is_letter c || (is_digit c || c == 45)

-- The rest of a text in quotes, behind the first quote: its length with the closing quote. A
-- backslash takes any character but a line break with it.
unfoldable pub string_end : List ℕ → Option ℕ
string_end [] = none
string_end (c ∷ []) = if c == 34 then some 1 else none
string_end (c ∷ d ∷ cs) =
    let plain = string_end (d ∷ cs) in
    let escaped = string_end cs in
    if c == 34
    then some 1
    else if c == 92
    then (if d == 10 then none else elim escaped [ none ↦ none | some n ↦ some (n + 2) ])
    else elim plain [ none ↦ none | some n ↦ some (n + 1) ]

-- A match of the given length, unless it is empty.
abbrev pub if_any : Lexeme → ℕ → Option (Lexeme × ℕ)
if_any k zero = none
if_any k (suc n) = some (k, suc n)

abbrev pub quoted : Option ℕ → Option (Lexeme × ℕ)
quoted none = none
quoted (some n) = some (lexeme str, suc n)

-- A symbol of two characters, or else the one of the first.
abbrev pub symbol : ℕ → Option ℕ → Option (Lexeme × ℕ)
symbol c d =
    if c == 61
    then elim d [
      | none ↦ none
      | some e ↦
          if e == 62
          then some (lexeme implies, 2)
          else if e == 61
          then some (lexeme eq, 2)
          else none
    ]
    else if c == 33
    then elim d [ none ↦ none | some e ↦ if e == 61 then some (lexeme neq, 2) else none ]
    else if c == 62
    then elim d [
      | none ↦ some (lexeme gt, 1)
      | some e ↦ if e == 61 then some (lexeme ge, 2) else some (lexeme gt, 1)
    ]
    else if c == 60
    then elim d [
      | none ↦ some (lexeme lt, 1)
      | some e ↦ if e == 61 then some (lexeme le, 2) else some (lexeme lt, 1)
    ]
    else if c == 91
    then some (lexeme lbracket, 1)
    else if c == 93
    then some (lexeme rbracket, 1)
    else if c == 40
    then some (lexeme lparen, 1)
    else if c == 41
    then some (lexeme rparen, 1)
    else if c == 123
    then some (lexeme lbrace, 1)
    else if c == 125
    then some (lexeme rbrace, 1)
    else if c == 44
    then some (lexeme comma, 1)
    else if c == 43
    then some (lexeme plus, 1)
    else if c == 45
    then some (lexeme minus, 1)
    else if c == 42
    then some (lexeme star, 1)
    else if c == 124
    then some (lexeme pipe, 1)
    else if c == 38
    then some (lexeme amp, 1)
    else none

abbrev pub head? : List ℕ → Option ℕ
head? [] = none
head? (c ∷ cs) = some c

abbrev pub on_some : {A B : Type 0} → Option A → B → (A → B) → B
on_some none b f = b
on_some (some a) b f = f a

abbrev pub or_else : {A : Type 0} → Option A → Option A → Option A
or_else (some a) other = some a
or_else none other = other

-- `-?[0-9]+`. The MINUS of `symbol` takes the sign before this is tried.
unfoldable pub number_length : ℕ → List ℕ → ℕ
unfolding count_while
number_length c cs =
    let signed = count_while is_digit cs in
    if c == 45 then (if signed == 0 then 0 else suc signed) else count_while is_digit (c ∷ cs)

-- `_TOKEN_RE.match`
unfoldable pub match_token : List ℕ → Option (Lexeme × ℕ)
unfolding count_while string_end number_length
match_token [] = none
match_token (c ∷ cs) = or_else (if_any whitespace (count_while is_space (c ∷ cs))) (
    or_else (symbol c (head? cs)) (
      or_else (if c == 34 then quoted (string_end cs) else none) (
        or_else (if_any (lexeme int) (number_length c cs))
          (if is_letter c then some (lexeme ident, suc (count_while is_word cs)) else none))))

unfoldable pub take : ℕ → List ℕ → List ℕ
take zero cs = []
take (suc n) [] = []
take (suc n) (c ∷ cs) = c ∷ take n cs

unfoldable pub drop : ℕ → List ℕ → List ℕ
drop zero cs = cs
drop (suc n) [] = []
drop (suc n) (c ∷ cs) = drop n cs

-- `[1:-1]`
abbrev pub unquote : List ℕ → ℕ → List ℕ
unquote cs n = take (n - 2) (drop 1 cs)

abbrev pub text_of : TokenKind → ℕ → List ℕ → List ℕ
text_of str n cs = unquote cs n
text_of _ n cs = take n cs

-- The token of a match of length `n` at the start of the text; white space gives none.
abbrev pub token_of : Lexeme → ℕ → List ℕ → ℕ → List Token
token_of whitespace n cs p = []
token_of (lexeme k) n cs p = record { kind = k; value = text_of k n cs; pos = p } ∷ []

abbrev pub end_token : ℕ → Token
end_token p = record { kind = eof; value = []; pos = p }

-- The loop of `_tokenize` at position `p`.
unfoldable pub tokenize_loop : ℕ → List ℕ → ℕ → Result DslError (List Token)
unfolding match_token take drop
tokenize_loop zero cs p = raise out_of_fuel
tokenize_loop (suc fuel) [] p = ok (end_token p ∷ [])
tokenize_loop (suc fuel) (c ∷ cs) p = on_some (match_token (c ∷ cs)) (raise syntax_error) (λ (k, n).
    tokenize_loop fuel (drop n (c ∷ cs)) (p + n) >>= λ rest. ok (token_of k n (c ∷ cs) p ++ rest))

-- `_tokenize`
unfoldable pub tokenize : List ℕ → Result DslError (List Token)
unfolding tokenize_loop
tokenize cs = tokenize_loop (suc (length cs)) cs 0
