-- ===== src/BundleBuilder/Dsl/Token/Total.antt =====
-- constraints_dsl.py: `_tokenize` ends, and its last token is the end of the input.
use charm_integration_testin.Prelude.{
  ℕ, zero, suc, ◌+◌, ◌≤◌, ◌<◌, refl, inl, inr, Bool, true, false, Option, none, some, List, [], ◌∷◌,
  ◌++◌, ◌==◌, arith, if◌then◌else◌, length, Option-cases,
}
use charm_integration_testin.BundleBuilder.Dsl.Token.{
  Lexeme, whitespace, lexeme, Token, if_any, quoted, symbol, head?, or_else, match_token, drop,
  token_of, tokenize_loop, tokenize, count_while, string_end, number_length, is_space, is_letter,
  int,
}
use charm_integration_testin.BundleBuilder.Dsl.Errors.{Ensures, Ensures->>=}
use charm_integration_testin.BundleBuilder.Dsl.Parser.Works.{IsEnded}

-- A match takes a character or more.
abbrev IsLong : Option (Lexeme × ℕ) → Type 0
IsLong none = Unit
IsLong (some (k, n)) = 0 < n

IsLong-if :
    (b : Bool) (x y : Option (Lexeme × ℕ)) → IsLong x → IsLong y → IsLong (if b then x else y)
IsLong-if true x y h k = h
IsLong-if false x y h k = k

IsLong-or_else : (x y : Option (Lexeme × ℕ)) → IsLong x → IsLong y → IsLong (or_else x y)
IsLong-or_else none y h k = k
IsLong-or_else (some a) y h k = h

IsLong-if_any : (k : Lexeme) (n : ℕ) → IsLong (if_any k n)
IsLong-if_any k zero = tt
IsLong-if_any k (suc n) = omega arith

IsLong-quoted : (o : Option ℕ) → IsLong (quoted o)
IsLong-quoted none = tt
IsLong-quoted (some n) = omega arith

IsLong-symbol : (c : ℕ) (d : Option ℕ) → IsLong (symbol c d)
IsLong-symbol c none = ground arith
IsLong-symbol c (some e) = ground arith

match_token-IsLong : (cs : List ℕ) → IsLong (match_token cs)
unfolding match_token
match_token-IsLong [] = tt
match_token-IsLong (c ∷ cs) =
    IsLong-or_else _ _ (IsLong-if_any whitespace (count_while is_space (c ∷ cs))) (
      IsLong-or_else _ _ (IsLong-symbol c (head? cs)) (
        IsLong-or_else _ _ (IsLong-if (c == 34) _ _ (IsLong-quoted (string_end cs)) tt) (
          IsLong-or_else _ _ (IsLong-if_any (lexeme int) (number_length c cs))
            (IsLong-if (is_letter c) _ _ (omega arith) tt))))

length-drop : (n : ℕ) (cs : List ℕ) → length (drop n cs) ≤ length cs
unfolding drop
length-drop zero cs = omega arith
length-drop (suc n) [] = omega arith
length-drop (suc n) (c ∷ cs) = let h = length-drop n cs in omega arith

length-drop_long :
    (n c : ℕ) (cs : List ℕ) {m : ℕ} → 0 < n → length cs < m → length (drop n (c ∷ cs)) < m
unfolding drop
length-drop_long zero c cs long lt = absurd (omega arith)
length-drop_long (suc n) c cs long lt = let h = length-drop n cs in omega arith

token_of-IsEnded :
    (k : Lexeme) (n : ℕ) (cs : List ℕ) (p : ℕ) (ts : List Token)
    → IsEnded ts
    → IsEnded (token_of k n cs p ++ ts)
token_of-IsEnded k n cs p [] end = absurd end
token_of-IsEnded whitespace n cs p (t ∷ ts) end = end
token_of-IsEnded (lexeme k) n cs p (t ∷ ts) end = end

-- A fuel beyond the length of the text is enough.
tokenize_loop-ends :
    (fuel : ℕ) (cs : List ℕ) (p : ℕ) → length cs < fuel → Ensures IsEnded (tokenize_loop fuel cs p)
unfolding tokenize_loop
tokenize_loop-ends zero cs p lt = absurd (omega arith)
tokenize_loop-ends (suc fuel) [] p lt = refl
tokenize_loop-ends (suc fuel) (c ∷ cs) p lt = elim (Option-cases (match_token (c ∷ cs))) [
  | inl q ↦ rw q tt
  | inr ((k, n), q) ↦
      let long : 0 < n = rw q at (match_token-IsLong (c ∷ cs)) in
      let shorter : length (drop n (c ∷ cs)) < fuel = length-drop_long n c cs long (omega arith) in
      rw q (
        Ensures->>= IsEnded IsEnded (tokenize_loop fuel (drop n (c ∷ cs)) (p + n)) _
          (tokenize_loop-ends fuel (drop n (c ∷ cs)) (p + n) shorter)
          (λ ts end. token_of-IsEnded k n (c ∷ cs) p ts end))
]

pub tokenize-ends : (cs : List ℕ) → Ensures IsEnded (tokenize cs)
unfolding tokenize
tokenize-ends cs = tokenize_loop-ends (suc (length cs)) cs 0 (omega arith)
