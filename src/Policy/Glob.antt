-- ===== src/Policy/Glob.antt =====
-- `matchPath` of policy/engine.ts: a glob becomes an anchored regular expression, in which `*` is
-- `.*` and `?` is `.`, and every other character stands for itself.
use gatehouse.Common.{
  ℕ, ◌≡◌, ◌≢◌, refl, sym, ap, subst, ◌∙◌, ◌↔◌, ◌⊎◌, inl, inr, Text, Bool, true, false, not, ◌&&◌,
  ◌||◌, List, [], ◌∷◌, ◌++◌, map, All, ◌==◌, if◌then◌else◌, arith, Bool-cases, text_eq, text_eq_iff,
  codes,
}
use mathlib.Core.List.{append-nil}

-- The atoms of the regular expressions that a glob is compiled to.
pub data Token : Type 0 where
  char : ℕ → Token
  any_char : Token
  any_run : Token

unfoldable pub token : ℕ → Token
token c = if c == b'*' then any_run else if c == b'?' then any_char else char c

unfoldable pub compile : Text → List Token
unfolding token
compile = map token

-- The characters that `.` leaves out.
unfoldable pub is_line_end : ℕ → Bool
is_line_end c = c == 10 || c == 13 || c == 8232 || c == 8233

-- `regex.test(path)` for the whole path.
unfoldable pub matches : List Token → Text → Bool
matches [] [] = true
matches [] (c ∷ s) = false
matches (char x ∷ ts) [] = false
matches (char x ∷ ts) (c ∷ s) = x == c && matches ts s
matches (any_char ∷ ts) [] = false
matches (any_char ∷ ts) (c ∷ s) = not (is_line_end c) && matches ts s
matches (any_run ∷ ts) [] = matches ts []
matches (any_run ∷ ts) (c ∷ s) = elim (matches ts (c ∷ s)) [
  | true ↦ true
  | false ↦ elim (is_line_end c) [ true ↦ false | false ↦ matches (any_run ∷ ts) s ]
]

abbrev pub OneLine : Text → Type 0
OneLine = All (λ c. is_line_end c ≡ false)

-- What a glob describes, with no word on how to search.
abbrev pub Describes : List Token → Text → Type 0
Describes [] path = path ≡ []
Describes (char x ∷ ts) path = (s : Text) × (path ≡ x ∷ s) × Describes ts s
Describes (any_char ∷ ts) path =
    (c : ℕ) × (s : Text) × (path ≡ c ∷ s) × (is_line_end c ≡ false) × Describes ts s
Describes (any_run ∷ ts) path =
    (u : Text) × (s : Text) × (path ≡ u ++ s) × OneLine u × Describes ts s

matches-Describes : (ts : List Token) (path : Text) → matches ts path ≡ true → Describes ts path
unfolding matches
matches-Describes [] [] h = refl
matches-Describes [] (c ∷ s) h = cc
matches-Describes (char x ∷ ts) [] h = cc
matches-Describes (char x ∷ ts) (c ∷ s) h = (s, ground arith, matches-Describes ts s (ground arith))
matches-Describes (any_char ∷ ts) [] h = cc
matches-Describes (any_char ∷ ts) (c ∷ s) h =
    (c, s, refl, ground arith, matches-Describes ts s (ground arith))
matches-Describes (any_run ∷ ts) [] h = ([], [], refl, tt, matches-Describes ts [] h)
matches-Describes (any_run ∷ ts) (c ∷ s) h = elim (Bool-cases (matches ts (c ∷ s))) [
  | inl now ↦ ([], c ∷ s, refl, tt, matches-Describes ts (c ∷ s) now)
  | inr later ↦
      let (u, r, e, line, d) = matches-Describes (any_run ∷ ts) s (ground arith) in
      (c ∷ u, r, ap (◌∷◌ c) e, (ground arith, line), d)
]

matches-run :
    (ts : List Token) (u s : Text)
    → OneLine u
    → matches ts s ≡ true
    → matches (any_run ∷ ts) (u ++ s) ≡ true
unfolding matches
matches-run ts [] [] line m = m
matches-run ts [] (c ∷ s) line m = ground arith
matches-run ts (c ∷ u) s line m = ground (arith, matches-run ts u s line.1 m)

Describes-matches : (ts : List Token) (path : Text) → Describes ts path → matches ts path ≡ true
unfolding matches
Describes-matches [] path e = rw e
Describes-matches (char x ∷ ts) path (s, e, d) = rw e (ground (arith, Describes-matches ts s d))
Describes-matches (any_char ∷ ts) path (c, s, e, line, d) =
    rw e (ground (arith, Describes-matches ts s d))
Describes-matches (any_run ∷ ts) path (u, s, e, line, d) =
    rw e (matches-run ts u s line (Describes-matches ts s d))

-- The search decides exactly what the glob describes.
pub matches-iff-Describes :
    (ts : List Token) (path : Text) → (matches ts path ≡ true) ↔ Describes ts path
matches-iff-Describes ts path = (matches-Describes ts path, Describes-matches ts path)

-- `matchPath`, without its cache.
unfoldable pub glob_match : Text → Text → Bool
glob_match pattern path = text_eq pattern (codes "*") || matches (compile pattern) path

-- The code's translation aside: what the glob is made of is read from its characters.
abbrev pub IsMadeOf : Text → Text → Type 0
IsMadeOf [] path = path ≡ []
IsMadeOf (c ∷ p) path =
    ((c ≡ b'*') × (u : Text) × (s : Text) × (path ≡ u ++ s) × OneLine u × IsMadeOf p s)
    ⊎ ((c ≡ b'?') × (x : ℕ) × (s : Text) × (path ≡ x ∷ s) × (is_line_end x ≡ false) × IsMadeOf p s)
    ⊎ ((c ≢ b'*') × (c ≢ b'?') × (s : Text) × (path ≡ c ∷ s) × IsMadeOf p s)

-- A path fits a glob: any path at all fits `*`.
abbrev pub Fits : Text → Text → Type 0
Fits pattern path = (pattern ≡ codes "*") ⊎ IsMadeOf pattern path

token-star : (c : ℕ) → c ≡ b'*' → token c ≡ any_run
unfolding token
token-star c e = ground arith

token-mark : (c : ℕ) → c ≡ b'?' → token c ≡ any_char
unfolding token
token-mark c e = ground arith

plain_token : (c : ℕ) → (c == b'*') ≡ false → (c == b'?') ≡ false → token c ≡ char c
unfolding token
plain_token c star mark = rw (star, mark)

token-char : (c : ℕ) → c ≢ b'*' → c ≢ b'?' → token c ≡ char c
unfolding token
token-char c star mark = ground arith

Describes-IsMadeOf : (p path : Text) → Describes (compile p) path → IsMadeOf p path
unfolding compile
Describes-IsMadeOf [] path e = e
Describes-IsMadeOf (c ∷ p) path d = elim (Bool-cases (c == b'*')) [
  | inl is_star ↦
      let star : c ≡ b'*' = ground arith in
      let (u, s, e, line, rest) =
        subst (λ t. Describes (t ∷ compile p) path) (token-star c star) d in
      inl (star, u, s, e, line, Describes-IsMadeOf p s rest)
  | inr not_star ↦ elim (Bool-cases (c == b'?')) [
    | inl is_mark ↦
        let mark : c ≡ b'?' = ground arith in
        let (x, s, e, line, rest) =
          subst (λ t. Describes (t ∷ compile p) path) (token-mark c mark) d in
        inr (inl (mark, x, s, e, line, Describes-IsMadeOf p s rest))
    | inr not_mark ↦
        let (s, e, rest) =
          subst (λ t. Describes (t ∷ compile p) path) (plain_token c not_star not_mark) d in
        inr (inr (ground arith, ground arith, s, e, Describes-IsMadeOf p s rest))
  ]
]

IsMadeOf-Describes : (p path : Text) → IsMadeOf p path → Describes (compile p) path
unfolding compile
IsMadeOf-Describes [] path e = e
IsMadeOf-Describes (c ∷ p) path (inl (star, u, s, e, line, rest)) =
    subst (λ t. Describes (t ∷ compile p) path) (sym (token-star c star))
      (u, s, e, line, IsMadeOf-Describes p s rest)
IsMadeOf-Describes (c ∷ p) path (inr (inl (mark, x, s, e, line, rest))) =
    subst (λ t. Describes (t ∷ compile p) path) (sym (token-mark c mark))
      (x, s, e, line, IsMadeOf-Describes p s rest)
IsMadeOf-Describes (c ∷ p) path (inr (inr (not_star, not_mark, s, e, rest))) =
    subst (λ t. Describes (t ∷ compile p) path) (sym (token-char c not_star not_mark))
      (s, e, IsMadeOf-Describes p s rest)

-- A path matches a pattern exactly when the pattern is `*`, or the path is made of the pattern's
-- characters, one by one, with any one character for a `?` and any run of characters for a `*`, but
-- no line end for either.
pub glob_match-iff-Fits :
    (pattern path : Text) → (glob_match pattern path ≡ true) ↔ Fits pattern path
unfolding glob_match
glob_match-iff-Fits pattern path =
    let star = text_eq_iff pattern (codes "*") in
    let regex = matches-iff-Describes (compile pattern) path in
    (
      λ h. elim (Bool-cases (text_eq pattern (codes "*"))) [
        | inl e ↦ inl (star.0 e)
        | inr e ↦ inr (Describes-IsMadeOf pattern path (regex.0 (ground arith)))
      ],
      λ f. elim f [
        | inl e ↦ rw (star.1 e) refl
        | inr d ↦ rw (regex.1 (IsMadeOf-Describes pattern path d)) (ground arith)
      ],
    )

-- No character of the text is special in a glob.
abbrev pub IsPlain : Text → Type 0
IsPlain = All (λ c. ((c == b'*') ≡ false) × ((c == b'?') ≡ false))

prefix-Describes :
    (p path : Text)
    → IsPlain p
    → Describes (compile (p ++ codes "*")) path
    → (rest : Text) × (path ≡ p ++ rest) × OneLine rest
unfolding compile
prefix-Describes [] path plain (u, s, e, line, d) = (u, e ∙ (rw d (append-nil u)), line)
prefix-Describes (c ∷ p) path plain d =
    let (s, e, d') =
      subst (λ t. Describes (t ∷ compile (p ++ codes "*")) path) (plain_token c plain.0.0 plain.0.1)
        d in
    let (rest, e', line) = prefix-Describes p s plain.1 d' in (rest, e ∙ ap (◌∷◌ c) e', line)

Describes-prefix :
    (p rest : Text) → IsPlain p → OneLine rest → Describes (compile (p ++ codes "*")) (p ++ rest)
unfolding compile
Describes-prefix [] rest plain line = (rest, [], sym (append-nil rest), line, refl)
Describes-prefix (c ∷ p) rest plain line =
    subst (λ t. Describes (t ∷ compile (p ++ codes "*")) (c ∷ (p ++ rest)))
      (sym (plain_token c plain.0.0 plain.0.1))
      (p ++ rest, refl, Describes-prefix p rest plain.1 line)

-- A plain prefix that is not empty, followed by `*`, matches exactly the paths that begin with the
-- prefix and have no line end after it: nothing outside the folder of a rule `folder/*`.
pub prefix_glob :
    (c : ℕ) (p path : Text)
    → IsPlain (c ∷ p)
    → (glob_match (c ∷ p ++ codes "*") path ≡ true)
      ↔ ((rest : Text) × (path ≡ c ∷ p ++ rest) × OneLine rest)
prefix_glob c p path plain =
    let decides = glob_match-iff-Fits (c ∷ p ++ codes "*") path in
    (
      λ h. elim (decides.0 h) [
        | inl e ↦ ground (arith)
        | inr d ↦
            prefix-Describes (c ∷ p) path plain (IsMadeOf-Describes (c ∷ p ++ codes "*") path d)
      ],
      λ (rest, e, line). decides.1 (
          inr (
            Describes-IsMadeOf (c ∷ p ++ codes "*") path
              (rw e (Describes-prefix (c ∷ p) rest plain line)))),
    )
