-- ===== src/Policy/Check.antt =====
-- The decision of `check`, against what the policies say.
use gatehouse.Common.{
  ◌≡◌, ◌↔◌, ◌⊎◌, ◌∙◌, inl, inr, refl, sym, Text, text_eq_iff, Bool, true, false, ◌&&◌, some, List,
  [], ◌∷◌, Any, arith, &&-left, &&-right, Option-cases,
}
use gatehouse.Common.Dict
use gatehouse.Common.Dict.{Dict, get-set}
use gatehouse.Policy.Glob.{Token, compile, glob_match, Fits, glob_match-iff-Fits}
use gatehouse.Policy.Engine.{
  Capability, cap_index, has_capability, PolicyRule, Engine, or_no_rules, match_path, some_path,
  check_rules, check_names, check,
}

cap_index_injective : (c d : Capability) → cap_index c ≡ cap_index d → c ≡ d
cap_index_injective c d e = ground arith

pub has_capability_iff :
    (c : Capability) (ds : List Capability) → (has_capability c ds ≡ true) ↔ Any (λ d. d ≡ c) ds
unfolding has_capability
has_capability_iff c [] = (λ e. cc, λ a. absurd a)
has_capability_iff c (d ∷ ds) =
    let rest = has_capability_iff c ds in
    (λ e. ground (arith, cap_index_injective d c), λ a. ground arith)

-- What the compiled patterns that the engine keeps have to be.
pub record IsCoherent (cache : Dict (List Token)) : Type 0 where
  pub compiled : (p : Text) (regex : List Token) → Dict.get p cache ≡ some regex → regex ≡ compile p

match_path-glob_match :
    (cache : Dict (List Token)) (p path : Text)
    → IsCoherent cache
    → (match_path cache p path).0 ≡ glob_match p path
unfolding match_path glob_match
match_path-glob_match cache p path coherent = elim (Option-cases (Dict.get p cache)) [
  | inl miss ↦ ground arith
  | inr (regex, hit) ↦ ground (arith, coherent.compiled p regex hit)
]

match_path-IsCoherent :
    (cache : Dict (List Token)) (p path : Text)
    → IsCoherent cache
    → IsCoherent (match_path cache p path).1
unfolding match_path
match_path-IsCoherent cache p path coherent = record {
  compiled = λ q regex e.
      ground (arith, coherent.compiled q regex, text_eq_iff p q, get-set p q (compile p) cache);
}

-- One rule grants a capability on a path.
abbrev pub RuleGrants : Text → Capability → PolicyRule → Type 0
RuleGrants path capability rule =
    Any (λ p. Fits p path) rule.paths × Any (λ c. c ≡ capability) rule.capabilities

-- Some rule of some named policy grants it. A name with no policy has no rules.
abbrev pub Grants : Engine → List Text → Text → Capability → Type 0
Grants e names path capability =
    Any (λ name. Any (RuleGrants path capability) (or_no_rules (Dict.get name e.policies))) names

-- A search that reads and extends the cache decides `P`, and leaves the cache coherent.
record Decides (P : Type 0) (r : Bool × Dict (List Token)) : Type 0 where
  sound : r.0 ≡ true → P
  complete : P → r.0 ≡ true
  coherent : IsCoherent r.1

match_path-Decides :
    (cache : Dict (List Token)) (p path : Text)
    → IsCoherent cache
    → Decides (Fits p path) (match_path cache p path)
match_path-Decides cache p path coherent =
    let glob = glob_match-iff-Fits p path in
    let same = match_path-glob_match cache p path coherent in
    record {
      sound = λ h. glob.0 (sym same ∙ h);
      complete = λ f. same ∙ glob.1 f;
      coherent = match_path-IsCoherent cache p path coherent;
    }

-- The step of each of the three loops: stop at a hit, else go on with the cache so far.
Decides-or :
    {P Q : Type 0} (hit : Bool) (cache : Dict (List Token))
    (rest : Dict (List Token) → Bool × Dict (List Token))
    → Decides P (hit, cache)
    → (IsCoherent cache → Decides Q (rest cache))
    → Decides (P ⊎ Q) (elim hit [ true ↦ (true, cache) | false ↦ rest cache ])
Decides-or true cache rest here later = record {
  sound = λ e. inl (here.sound e);
  complete = λ _. refl;
  coherent = here.coherent;
}
Decides-or false cache rest here later =
    let others = later here.coherent in
    record {
      sound = λ e. inr (others.sound e);
      complete = λ a. elim a [ inl p ↦ cc (here.complete p) | inr q ↦ others.complete q ];
      coherent = others.coherent;
    }

Decides-none : (cache : Dict (List Token)) → IsCoherent cache → Decides ⊥ (false, cache)
Decides-none cache coherent = record {
  sound = λ e. cc;
  complete = λ a. absurd a;
  coherent = coherent;
}

some_path-Decides :
    (cache : Dict (List Token)) (ps : List Text) (path : Text)
    → IsCoherent cache
    → Decides (Any (λ p. Fits p path) ps) (some_path cache ps path)
unfolding some_path
some_path-Decides cache [] path coherent = Decides-none cache coherent
some_path-Decides cache (p ∷ ps) path coherent =
    let (hit, cache') = match_path cache p path in
    Decides-or hit cache' (λ c. some_path c ps path) (match_path-Decides cache p path coherent)
      (λ h. some_path-Decides cache' ps path h)

rule-Decides :
    (cache : Dict (List Token)) (rule : PolicyRule) (path : Text) (capability : Capability)
    → IsCoherent cache
    → let (hit, cache') = some_path cache rule.paths path in
      Decides
        (RuleGrants path capability rule)
        (hit && has_capability capability rule.capabilities, cache')
rule-Decides cache rule path capability coherent =
    let fits = some_path-Decides cache rule.paths path coherent in
    let holds = has_capability_iff capability rule.capabilities in
    record {
      sound = λ e. (fits.sound (&&-left _ _ e), holds.0 (&&-right _ _ e));
      complete = λ g. rw (fits.complete g.0, holds.1 g.1) refl;
      coherent = fits.coherent;
    }

check_rules-Decides :
    (cache : Dict (List Token)) (rules : List PolicyRule) (path : Text) (capability : Capability)
    → IsCoherent cache
    → Decides (Any (RuleGrants path capability) rules) (check_rules cache rules path capability)
unfolding check_rules
check_rules-Decides cache [] path capability coherent = Decides-none cache coherent
check_rules-Decides cache (rule ∷ rules) path capability coherent =
    let (hit, cache') = some_path cache rule.paths path in
    Decides-or (hit && has_capability capability rule.capabilities) cache'
      (λ c. check_rules c rules path capability) (rule-Decides cache rule path capability coherent)
      (λ h. check_rules-Decides cache' rules path capability h)

check_names-Decides :
    (e : Engine) (cache : Dict (List Token)) (names : List Text) (path : Text)
    (capability : Capability)
    → IsCoherent cache
    → Decides (Grants e names path capability) (check_names e.policies cache names path capability)
unfolding check_names
check_names-Decides e cache [] path capability coherent = Decides-none cache coherent
check_names-Decides e cache (name ∷ names) path capability coherent =
    let rules = or_no_rules (Dict.get name e.policies) in
    let (hit, cache') = check_rules cache rules path capability in
    Decides-or hit cache' (λ c. check_names e.policies c names path capability)
      (check_rules-Decides cache rules path capability coherent)
      (λ h. check_names-Decides e cache' names path capability h)

-- With a coherent cache, `check` answers yes exactly when some rule of some named policy has a path
-- that the request fits and the capability asked for; and it leaves the cache coherent, and the
-- policies and the table as they were.
pub check-iff-Grants :
    (e : Engine) (names : List Text) (path : Text) (capability : Capability)
    → IsCoherent e.pattern_cache
    → ((check e names path capability).0 ≡ true ↔ Grants e names path capability)
      × IsCoherent (check e names path capability).1.pattern_cache
      × ((check e names path capability).1.policies ≡ e.policies)
      × ((check e names path capability).1.db ≡ e.db)
unfolding check
check-iff-Grants e names path capability coherent =
    let d = check_names-Decides e e.pattern_cache names path capability coherent in
    ((d.sound, d.complete), d.coherent, refl, refl)
