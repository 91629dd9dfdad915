-- ===== src/Dynamic/Grants.antt =====
-- dynamic/grants.ts. `toUpperCase` is written out for the letters whose upper case is ASCII; every
-- other text keeps or gets a character that is not ASCII, and stands in no allowlist either way.
use gatehouse.Common.{
  ℕ, ◌-◌, ◌≡◌, ◌≢◌, inl, inr, Text, codes, text_eq, trim, split_on, filter_nonempty, Bool, true,
  false, ◌&&◌, ◌||◌, List, [], ◌∷◌, ◌++◌, All, leb, ◌==◌, if◌then◌else◌, arith, Bool-cases,
}
use gatehouse.Address.Source.{map_text}

abbrev pub postgresql_privileges : List Text
postgresql_privileges =
    codes "SELECT"
    ∷ codes "INSERT"
    ∷ codes "UPDATE"
    ∷ codes "DELETE"
    ∷ codes "TRUNCATE"
    ∷ codes "REFERENCES"
    ∷ codes "TRIGGER"
    ∷ codes "ALL"
    ∷ codes "ALL PRIVILEGES"
    ∷ []

abbrev mysql_privileges : List Text
mysql_privileges =
    codes "SELECT"
    ∷ codes "INSERT"
    ∷ codes "UPDATE"
    ∷ codes "DELETE"
    ∷ codes "CREATE"
    ∷ codes "DROP"
    ∷ codes "INDEX"
    ∷ codes "ALTER"
    ∷ codes "CREATE TEMPORARY TABLES"
    ∷ codes "LOCK TABLES"
    ∷ codes "EXECUTE"
    ∷ codes "CREATE VIEW"
    ∷ codes "SHOW VIEW"
    ∷ codes "CREATE ROUTINE"
    ∷ codes "ALTER ROUTINE"
    ∷ codes "EVENT"
    ∷ codes "TRIGGER"
    ∷ codes "REFERENCES"
    ∷ codes "ALL"
    ∷ codes "ALL PRIVILEGES"
    ∷ []

-- Dotless i, long s, sharp s and the ligatures from `ff` to `st`.
unfoldable pub upper : ℕ → Text
upper c =
    if leb b'a' c && leb c b'z'
    then (c - 32) ∷ []
    else if c == 305
    then codes "I"
    else if c == 383
    then codes "S"
    else if c == 223
    then codes "SS"
    else if c == 64256
    then codes "FF"
    else if c == 64257
    then codes "FI"
    else if c == 64258
    then codes "FL"
    else if c == 64259
    then codes "FFI"
    else if c == 64260
    then codes "FFL"
    else if c == 64261 || c == 64262
    then codes "ST"
    else c ∷ []

unfoldable pub upper_case : Text → Text
unfolding upper
upper_case [] = []
upper_case (c ∷ s) = upper c ++ upper_case s

abbrev normalized : Text → Text
normalized g = upper_case (trim g)

unfoldable pub tokens_of : Text → List Text
tokens_of grants = filter_nonempty (map_text normalized (split_on b',' grants))

pub data GrantResult : Type 0 where
  tokens : List Text → GrantResult
  no_privilege : GrantResult
  not_allowed : Text → GrantResult

-- `allowed.has(t)`
unfoldable pub is_member : Text → List Text → Bool
is_member t [] = false
is_member t (a ∷ allowed) = text_eq a t || is_member t allowed

-- The loop over the tokens, with the list to answer at its end.
unfoldable pub check_tokens : List Text → List Text → List Text → GrantResult
check_tokens allowed every [] = tokens every
check_tokens allowed every (t ∷ ts) =
    let rest = check_tokens allowed every ts in if is_member t allowed then rest else not_allowed t

abbrev if_some : List Text → List Text → GrantResult
if_some allowed [] = no_privilege
if_some allowed (t ∷ ts) = check_tokens allowed (t ∷ ts) (t ∷ ts)

unfoldable pub validate_against : Text → List Text → GrantResult
unfolding check_tokens
validate_against grants allowed = if_some allowed (tokens_of grants)

unfoldable pub validate_postgres_grants : Text → GrantResult
validate_postgres_grants grants = validate_against grants postgresql_privileges

unfoldable pub validate_mysql_grants : Text → GrantResult
validate_mysql_grants grants = validate_against grants mysql_privileges

check_tokens-All :
    (allowed every ts out : List Text)
    → check_tokens allowed every ts ≡ tokens out
    → (out ≡ every) × All (λ t. is_member t allowed ≡ true) ts
unfolding check_tokens
check_tokens-All allowed every [] out e = (ground (arith, e), tt)
check_tokens-All allowed every (t ∷ ts) out e = elim (Bool-cases (is_member t allowed)) [
  | inl hit ↦
      let (same, all) = check_tokens-All allowed every ts out (ground (arith, e, hit)) in
      (same, (hit, all))
  | inr miss ↦ absurd (ground (arith, e, miss))
]

if_some-All :
    (allowed ts out : List Text)
    → if_some allowed ts ≡ tokens out
    → All (λ t. is_member t allowed ≡ true) out × (out ≢ [])
if_some-All allowed [] out e = absurd (cc e)
if_some-All allowed (t ∷ ts) out e =
    let (same, all) = check_tokens-All allowed (t ∷ ts) (t ∷ ts) out e in
    (rw same all, λ empty. absurd (cc (same, empty)))

-- Grants that are accepted for an allowlist are one token at least, and each token is, letter for
-- letter, an entry of the allowlist: nothing else gets into the statement.
pub validate_against-All :
    (grants : Text) (allowed out : List Text)
    → validate_against grants allowed ≡ tokens out
    → All (λ t. is_member t allowed ≡ true) out × (out ≢ [])
unfolding validate_against
validate_against-All grants allowed out e = if_some-All allowed (tokens_of grants) out e
