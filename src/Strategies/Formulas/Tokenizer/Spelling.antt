-- ===== src/Strategies/Formulas/Tokenizer/Spelling.antt =====
-- The tokens of formulas/parser.py spell the text.
use ratatoskr_v.Base.{
  ℕ, zero, suc, ◌+◌, ◌≤◌, ◌≡◌, refl, sym, ap, subst, ◌∙◌, Bool, true, false, some, List, [], ◌∷◌,
  ◌++◌, inl, inr, All, length, length-append, ◌⊎◌, arith, Bool-cases, Option-cases,
}
use ratatoskr_v.Strategies.Formulas.{
  Text, Op, op_or, op_and, op_eq, op_ne, op_gt, op_lt, op_ge, op_le, op_add, op_sub, op_mul, op_div,
  op_mod, Lexeme, number, identifier, operator, lparen, rparen, comma, eof, Token, Error,
  unexpected_character, Result, ok, err, ◌>>=◌, word_or, word_and,
}
use ratatoskr_v.Strategies.Formulas.Tokenizer.{
  is_space, is_name_part, is_name_start, is_number_part, is_number_start, span, double_operator,
  single_lexeme, Round, skip, token, stop, rest_of, scan_operator, scan, at_position, tokenize_from,
  tokenize,
}

-- `tok.value`
unfoldable pub spelling : Lexeme → Text
spelling (number w) = w
spelling (identifier w) = w
spelling (operator op_or) = word_or
spelling (operator op_and) = word_and
spelling (operator op_eq) = b'=' ∷ b'=' ∷ []
spelling (operator op_ne) = b'!' ∷ b'=' ∷ []
spelling (operator op_gt) = b'>' ∷ []
spelling (operator op_lt) = b'<' ∷ []
spelling (operator op_ge) = b'>' ∷ b'=' ∷ []
spelling (operator op_le) = b'<' ∷ b'=' ∷ []
spelling (operator op_add) = b'+' ∷ []
spelling (operator op_sub) = b'-' ∷ []
spelling (operator op_mul) = b'*' ∷ []
spelling (operator op_div) = b'/' ∷ []
spelling (operator op_mod) = b'%' ∷ []
spelling lparen = b'(' ∷ []
spelling rparen = b')' ∷ []
spelling comma = b',' ∷ []
spelling eof = []

-- The characters of a number are digits and points, and those of a name letters, digits and
-- underscores.
abbrev pub IsShaped : Lexeme → Type 0
IsShaped (number w) = All (λ c. is_number_part c ≡ true) w
IsShaped (identifier w) = All (λ c. is_name_part c ≡ true) w
IsShaped _ = Unit

-- From position `i` on, the tokens spell the text, each at its position and with white space between
-- some, and the end token stands at the end of the text.
pub data Covers : ℕ → Text → List Token → Type 0 where
  covers_end : {i : ℕ} → Covers i [] (at_position eof i ∷ [])
  covers_space :
      {i c : ℕ} {s : Text} {ts : List Token}
      → is_space c ≡ true
      → Covers (suc i) s ts
      → Covers i (c ∷ s) ts
  covers_token :
      {i : ℕ} {t s : Text} {ts : List Token} (l : Lexeme)
      → t ≡ spelling l ++ s
      → IsShaped l
      → Covers (i + length (spelling l)) s ts
      → Covers i t (at_position l i ∷ ts)

-- What a round gives is spelled at the start of the text, and the rest follows.
abbrev pub Spelled : Text → Round → Type 0
Spelled t (skip s) = (c : ℕ) × (is_space c ≡ true) × (t ≡ c ∷ s)
Spelled t (token l n s) = (t ≡ spelling l ++ s) × (n ≡ length (spelling l)) × (1 ≤ n) × IsShaped l
Spelled t stop = Unit

span-append : (p : ℕ → Bool) (s : Text) → s ≡ (span p s).0 ++ (span p s).1
unfolding span
span-append p [] = refl
span-append p (c ∷ s) = elim (Bool-cases (p c)) [
  | inl e ↦ rw e (ap (λ t. c ∷ t) (span-append p s))
  | inr e ↦ rw e refl
]

span-All : (p : ℕ → Bool) (s : Text) → All (λ c. p c ≡ true) ((span p s).0)
unfolding span
span-All p [] = tt
span-All p (c ∷ s) = elim (Bool-cases (p c)) [ inl e ↦ rw e (e, span-All p s) | inr e ↦ rw e tt ]

double_operator-spelling :
    (c : ℕ) (s : Text) {o : Op}
    → double_operator c s ≡ some o
    → c ∷ s ≡ spelling (operator o) ++ rest_of s
unfolding double_operator spelling
double_operator-spelling c [] h = cc
double_operator-spelling c (d ∷ s) h = ground (arith)

single_lexeme-spelling : (c : ℕ) {l : Lexeme} → single_lexeme c ≡ some l → spelling l ≡ c ∷ []
unfolding single_lexeme spelling
single_lexeme-spelling c h = ground (arith)

-- neither a number nor a name
abbrev is_fixed : Lexeme → Bool
is_fixed (number w) = false
is_fixed (identifier w) = false
is_fixed _ = true

is_fixed-IsShaped : (l : Lexeme) → is_fixed l ≡ true → IsShaped l
is_fixed-IsShaped (number w) h = cc
is_fixed-IsShaped (identifier w) h = cc
is_fixed-IsShaped (operator o) h = tt
is_fixed-IsShaped lparen h = tt
is_fixed-IsShaped rparen h = tt
is_fixed-IsShaped comma h = tt
is_fixed-IsShaped eof h = tt

single_lexeme-is_fixed : (c : ℕ) {l : Lexeme} → single_lexeme c ≡ some l → is_fixed l ≡ true
unfolding single_lexeme
single_lexeme-is_fixed c h = ground (arith)

double_operator-width :
    (c : ℕ) (s : Text) {o : Op} → double_operator c s ≡ some o → length (spelling (operator o)) ≡ 2
unfolding double_operator spelling
double_operator-width c [] h = cc
double_operator-width c (d ∷ s) h = ground (arith)

scan_operator-Spelled : (c : ℕ) (s : Text) → Spelled (c ∷ s) (scan_operator c s)
unfolding scan_operator
scan_operator-Spelled c s = elim (Option-cases (double_operator c s)) [
  | inr (o, e) ↦
      rw (e, Spelled, scan_operator)
        (double_operator-spelling c s e, sym (double_operator-width c s e), omega arith, tt)
  | inl e ↦ elim (Option-cases (single_lexeme c)) [
    | inl d ↦ rw (e, d, Spelled, scan_operator) tt
    | inr (l, d) ↦
        rw (e, d, Spelled, scan_operator)
          (
            ap (λ t. t ++ s) (sym (single_lexeme-spelling c d)),
            sym (ap length (single_lexeme-spelling c d)),
            omega arith,
            is_fixed-IsShaped l (single_lexeme-is_fixed c d),
          )
  ]
]

number_part-of_start : (c : ℕ) (s : Text) → is_number_start c s ≡ true → is_number_part c ≡ true
unfolding is_number_start is_number_part
number_part-of_start c s h = ground (arith)

name_part-of_start : (c : ℕ) → is_name_start c ≡ true → is_name_part c ≡ true
unfolding is_name_start is_name_part
name_part-of_start c h = ground (arith)

scan-Spelled : (c : ℕ) (s : Text) → Spelled (c ∷ s) (scan c s)
unfolding scan spelling
scan-Spelled c s = elim (Bool-cases (is_space c)) [
  | inl e ↦ rw (e, Spelled, scan) (c, e, refl)
  | inr e ↦ elim (Bool-cases (is_number_start c s)) [
    | inl d ↦
        rw (e, d, Spelled, scan)
          (
            ap (λ t. c ∷ t) (span-append is_number_part s),
            refl,
            omega arith,
            (number_part-of_start c s d, span-All is_number_part s),
          )
    | inr d ↦ elim (Bool-cases (is_name_start c)) [
      | inl b ↦
          rw (e, d, b, Spelled, scan)
            (
              ap (λ t. c ∷ t) (span-append is_name_part s),
              refl,
              omega arith,
              (name_part-of_start c b, span-All is_name_part s),
            )
      | inr b ↦ rw (e, d, b, Spelled, scan) (scan_operator-Spelled c s)
    ]
  ]
]

-- The error of a character that no token has.
abbrev pub IsRefusal : Error → Type 0
IsRefusal (unexpected_character n) = Unit
IsRefusal _ = ⊥

-- The tokens are given, and cover the text; or a character is refused.
abbrev pub Tokenizes : ℕ → Text → Result (List Token) → Type 0
Tokenizes i t (ok ts) = Covers i t ts
Tokenizes i t (err e) = IsRefusal e

after_space :
    (i c : ℕ) (t s : Text) (r : Result (List Token))
    → is_space c ≡ true
    → t ≡ c ∷ s
    → Tokenizes (suc i) s r
    → Tokenizes i t r
after_space i c t s (ok ts) e d h = subst (λ u. Covers i u ts) (sym d) (covers_space e h)
after_space i c t s (err x) e d h = h

after_token :
    (i n : ℕ) (t s : Text) (l : Lexeme) (r : Result (List Token))
    → Spelled t (token l n s)
    → Tokenizes (i + n) s r
    → Tokenizes i t (r >>= λ ts. ok (at_position l i ∷ ts))
after_token i n t s l (ok ts) d h = covers_token l d.0 d.3 (subst (λ m. Covers (i + m) s ts) d.1 h)
after_token i n t s l (err x) d h = h

shorter :
    (t s : Text) (l : Lexeme) (f n : ℕ) → Spelled t (token l n s) → length t ≤ suc f → length s ≤ f
shorter t s l f n d h =
    let total = ap length d.0 ∙ length-append (spelling l) s in omega (arith, total, d.1, d.2, h)

Round-cases :
    (r : Round)
    → ((s : Text) × (r ≡ skip s))
      ⊎ ((l : Lexeme) × (n : ℕ) × (s : Text) × (r ≡ token l n s))
      ⊎ (r ≡ stop)
Round-cases (skip s) = inl (s, refl)
Round-cases (token l n s) = inr (inl (l, n, s, refl))
Round-cases stop = inr (inr refl)

tokenize_from-Tokenizes : (f i : ℕ) (t : Text) → length t ≤ f → Tokenizes i t (tokenize_from f i t)
unfolding tokenize_from
tokenize_from-Tokenizes f i [] h = covers_end
tokenize_from-Tokenizes zero i (c ∷ s) h = absurd (omega (arith, h))
tokenize_from-Tokenizes (suc f) i (c ∷ s) h = elim (Round-cases (scan c s)) [
  | inl (u, e) ↦
      let d = subst (λ r. Spelled (c ∷ s) r) e (scan-Spelled c s) in
      rw (e, Tokenizes, tokenize_from)
        (after_space i d.0 (c ∷ s) u _ d.1 d.2
          (tokenize_from-Tokenizes f (suc i) u (omega (arith, h, ap length d.2))))
  | inr (inl (l, n, u, e)) ↦
      let d = subst (λ r. Spelled (c ∷ s) r) e (scan-Spelled c s) in
      rw (e, Tokenizes, tokenize_from)
        (after_token i n (c ∷ s) u l _ d
          (tokenize_from-Tokenizes f (i + n) u (shorter (c ∷ s) u l f n d h)))
  | inr (inr e) ↦ rw (e, Tokenizes, tokenize_from) tt
]

-- The tokenizer loses nothing: of every text it either refuses a character, or gives tokens that
-- spell the text, each at its position in the text and of the characters of its type, with nothing
-- but white space between some of them, and the end token last, at the length of the text.
pub tokenize-Covers : (t : Text) → Tokenizes 0 t (tokenize t)
unfolding tokenize
tokenize-Covers t = tokenize_from-Tokenizes (length t) 0 t (omega arith)
