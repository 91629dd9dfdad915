-- ===== src/Outbound/Paths.antt =====
-- security/ssrf.ts: the path prefixes that a proxied request is held against.
use gatehouse.Common.{
  ℕ, ◌≡◌, inl, inr, refl, sym, ap, ◌∙◌, Text, text_eq, text_eq_iff, split_on, starts_with, Bool,
  true, false, ◌||◌, List, [], ◌∷◌, ◌++◌, Any, ◌==◌, if◌then◌else◌, arith, Bool-cases,
}
use gatehouse.Address.Spoofing.{split_on-append}

-- `raw.endsWith("/") ? raw.slice(0, -1) : raw`
unfoldable pub drop_last_slash : Text → Text
drop_last_slash [] = []
drop_last_slash (c ∷ []) = if c == b'/' then [] else c ∷ []
drop_last_slash (c ∷ d ∷ s) = c ∷ drop_last_slash (d ∷ s)

abbrev has_prefix : Text → Text → Bool
has_prefix path p = text_eq path p || starts_with (p ++ b'/' ∷ []) path

unfoldable pub path_matches_any_prefix : Text → List Text → Bool
path_matches_any_prefix path [] = false
path_matches_any_prefix path (raw ∷ prefixes) =
    has_prefix path (drop_last_slash raw) || path_matches_any_prefix path prefixes

-- The segments of the path are those of the prefix and more.
abbrev pub Extends : Text → Text → Type 0
Extends path p = (rest : List Text) × (split_on b'/' path ≡ split_on b'/' p ++ rest)

starts_with-rest :
    (p : Text) (c : ℕ) (s : Text)
    → starts_with (p ++ c ∷ []) s ≡ true
    → (rest : Text) × (s ≡ p ++ c ∷ rest)
unfolding starts_with
starts_with-rest [] c [] h = absurd (cc h)
starts_with-rest [] c (x ∷ s) h = (s, ground (arith, h))
starts_with-rest (d ∷ p) c [] h = absurd (cc h)
starts_with-rest (d ∷ p) c (x ∷ s) h =
    let (rest, e) = starts_with-rest p c s (ground (arith, h)) in (rest, ground (arith, h, e))

append_nil : (ts : List Text) → ts ++ [] ≡ ts
append_nil [] = refl
append_nil (t ∷ ts) = ap (λ us. t ∷ us) (append_nil ts)

has_prefix-Extends : (path p : Text) → has_prefix path p ≡ true → Extends path p
has_prefix-Extends path p h = elim (Bool-cases (text_eq path p)) [
  | inl same ↦
      ([], ap (split_on b'/') ((text_eq_iff path p).0 same) ∙ sym (append_nil (split_on b'/' p)))
  | inr other ↦
      let (rest, e) = starts_with-rest p b'/' path (ground (arith, h, other)) in
      (split_on b'/' rest, ap (split_on b'/') e ∙ split_on-append b'/' p rest)
]

-- A path that is let through has, for one of the listed prefixes, all segments of that prefix, a
-- trailing slash aside, as its first segments: a sibling whose name only begins alike is not.
path_matches-Extends :
    (path : Text) (prefixes : List Text)
    → path_matches_any_prefix path prefixes ≡ true
    → Any (λ raw. Extends path (drop_last_slash raw)) prefixes
unfolding path_matches_any_prefix
path_matches-Extends path [] h = absurd (cc h)
path_matches-Extends path (raw ∷ prefixes) h =
    elim (Bool-cases (has_prefix path (drop_last_slash raw))) [
      | inl hit ↦ inl (has_prefix-Extends path (drop_last_slash raw) hit)
      | inr miss ↦ inr (path_matches-Extends path prefixes (ground (arith, h, miss)))
    ]
