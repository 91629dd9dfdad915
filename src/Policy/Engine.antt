-- ===== src/Policy/Engine.antt =====
-- The state and the operations of `PolicyEngine` in policy/engine.ts. A policy is held under its
-- own name, so the maps hold its rules only; the times of the database rows are left out.
use gatehouse.Common.{
  ℕ, Text, text_eq, codes, starts_with, Bool, true, false, ◌&&◌, ◌||◌, Option, none, some, List, [],
  ◌∷◌, ◌++◌, map, ◌==◌, if◌then◌else◌,
}
use gatehouse.Common.Dict
use gatehouse.Common.Dict.{Dict}
use gatehouse.Common.Exec.{done, thrown, Exec}
use gatehouse.Policy.Glob.{Token, compile, matches}

pub data Capability : Type 0 where
  read write delete list lease proxy admin : Capability

abbrev pub all_capabilities : List Capability
all_capabilities = read ∷ write ∷ delete ∷ list ∷ lease ∷ proxy ∷ admin ∷ []

abbrev pub cap_index : Capability → ℕ
cap_index read = 0
cap_index write = 1
cap_index delete = 2
cap_index list = 3
cap_index lease = 4
cap_index proxy = 5
cap_index admin = 6

-- `capabilities.includes(capability)`
unfoldable pub has_capability : Capability → List Capability → Bool
has_capability c [] = false
has_capability c (d ∷ ds) = cap_index d == cap_index c || has_capability c ds

pub record PolicyRule : Type 0 where
  pub paths : List Text
  pub capabilities : List Capability

-- A rule as it comes from a file, a request or a row: `paths`, or the older `path`.
pub record RawRule : Type 0 where
  pub paths : Option (List Text)
  pub path : Option Text
  pub capabilities : List Capability

abbrev old_path : Option Text → List Text
old_path none = []
old_path (some []) = []
old_path (some (c ∷ p)) = (c ∷ p) ∷ []

abbrev rule_paths : Option (List Text) → Option Text → List Text
rule_paths (some paths) path = paths
rule_paths none path = old_path path

unfoldable pub normalize_rule : RawRule → PolicyRule
normalize_rule rule = record {
  paths = rule_paths rule.paths rule.path;
  capabilities = rule.capabilities;
}

-- The JSON text of normalized rules, read back.
unfoldable pub to_raw : PolicyRule → RawRule
to_raw rule = record { paths = some rule.paths; path = none; capabilities = rule.capabilities }

pub data Source : Type 0 where
  yaml db : Source

-- The `policies` table; `none` is a row whose text is no list of rules.
abbrev pub Table : Type 0
Table = Dict (Option (List RawRule))

-- What a policy file holds; a file that cannot be read or parsed, or without rules, has `none`. The
-- name is empty if it is missing.
pub record PolicyFile : Type 0 where
  pub name : Text
  pub rules : Option (List RawRule)

pub record Engine : Type 0 where
  pub policies : Dict (List PolicyRule)
  pub sources : Dict Source
  pub pattern_cache : Dict (List Token)
  pub db : Option Table

abbrev pub admin_name : Text
admin_name = codes "admin"

abbrev pub admin_rules : List PolicyRule
admin_rules = record { paths = codes "*" ∷ []; capabilities = all_capabilities } ∷ []

-- `this.policies.set(name, …)` and `this.policySources.set(name, …)`.
unfoldable pub put_policy : Text → List PolicyRule → Source → Engine → Engine
put_policy name rules source e = record e {
  policies = Dict.set name rules e.policies;
  sources = Dict.set name source e.sources;
}

-- The table with the policy of a file, and the name if it was imported.
unfoldable pub seed_file : PolicyFile → Table → Table × List Text
seed_file file table = elim file.rules [
  | none ↦ (table, [])
  | some rules ↦
      if text_eq file.name [] || text_eq file.name admin_name
      then (table, [])
      else elim (Dict.get file.name table) [
        | some row ↦ (table, [])
        | none ↦ (
          Dict.set file.name (some (map to_raw (map normalize_rule rules))) table,
          file.name ∷ [],
        )
      ]
]

unfoldable pub seed_yaml_policies : List PolicyFile → Table → Table × List Text
seed_yaml_policies [] table = (table, [])
seed_yaml_policies (file ∷ files) table =
    let (table', here) = seed_file file table in
    let (table'', later) = seed_yaml_policies files table' in (table'', here ++ later)

unfoldable pub load_file : PolicyFile → Engine → Engine
load_file file e = elim file.rules [
  | none ↦ e
  | some rules ↦
      if text_eq file.name [] then e else put_policy file.name (map normalize_rule rules) yaml e
]

unfoldable pub load_files : List PolicyFile → Engine → Engine
load_files [] e = e
load_files (file ∷ files) e = load_files files (load_file file e)

unfoldable pub load_row : Text → Option (List RawRule) → Engine → Engine
load_row name none e = e
load_row name (some rules) e = put_policy name (map normalize_rule rules) db e

unfoldable pub load_rows : Table → Engine → Engine
load_rows [] e = e
load_rows ((name, row) ∷ rows) e = load_rows rows (load_row name row e)

unfoldable pub load_policies : List PolicyFile → Engine → Engine
load_policies files e =
    let loaded : Engine = elim e.db [
      | none ↦ load_files files e
      | some table ↦
          let table' = (seed_yaml_policies files table).0 in
          load_rows table' (record e { db = some table' })
    ] in
    put_policy admin_name admin_rules yaml loaded

-- The constructor.
unfoldable pub new_engine : List PolicyFile → Option Table → Engine
new_engine files table =
    load_policies files (record { policies = []; sources = []; pattern_cache = []; db = table })

unfoldable pub reload : List PolicyFile → Engine → Engine
reload files e = load_policies files (record e { policies = []; sources = []; pattern_cache = [] })

unfoldable pub import_from_yaml : List PolicyFile → Engine → Engine × List Text
import_from_yaml files e = elim e.db [
  | none ↦ (e, [])
  | some table ↦
      let (table', imported) = seed_yaml_policies files table in
      let seeded = record e { db = some table' } in
      elim imported [
        | [] ↦ (seeded, [])
        | name ∷ names ↦
            (load_policies files (record seeded { policies = []; sources = [] }), name ∷ names)
      ]
]

abbrev pub get_policy : Text → Engine → Option (List PolicyRule)
get_policy name e = Dict.get name e.policies

pub data PolicyError : Type 0 where
  builtin_admin no_database : PolicyError

unfoldable pub save_policy :
    Text → List RawRule → Exec Engine PolicyError (Option (List PolicyRule))
save_policy name rules e =
    if text_eq name admin_name then (thrown builtin_admin, e) else elim e.db [
      | none ↦ (thrown no_database, e)
      | some table ↦
          let normalized = map normalize_rule rules in
          let saved =
            put_policy name normalized db
              (record e { db = some (Dict.set name (some (map to_raw normalized)) table) }) in
          (done (get_policy name saved), saved)
    ]

unfoldable pub delete_policy : Text → Exec Engine PolicyError Bool
delete_policy name e = if text_eq name admin_name then (thrown builtin_admin, e) else elim e.db [
  | none ↦ (thrown no_database, e)
  | some table ↦ elim (Dict.get name table) [
    | none ↦ (done false, e)
    | some row ↦ (
      done true,
      record e {
        db = some (Dict.delete name table);
        policies = Dict.delete name e.policies;
        sources = Dict.delete name e.sources;
      },
    )
  ]
]

abbrev pub or_no_rules : Option (List PolicyRule) → List PolicyRule
or_no_rules none = []
or_no_rules (some rules) = rules

unfoldable pub rules_for : Engine → List Text → List PolicyRule
rules_for e [] = []
rules_for e (name ∷ names) = or_no_rules (get_policy name e) ++ rules_for e names

some_path_begins : Text → List Text → Bool
some_path_begins prefix [] = false
some_path_begins prefix (p ∷ ps) =
    starts_with prefix p || text_eq p (codes "*") || some_path_begins prefix ps

rules_reach : Text → Capability → List PolicyRule → Bool
rules_reach prefix capability [] = false
rules_reach prefix capability (rule ∷ rules) =
    has_capability capability rule.capabilities && some_path_begins prefix rule.paths
    || rules_reach prefix capability rules

unfoldable pub has_capability_on_prefix : Engine → List Text → Text → Capability → Bool
unfolding some_path_begins rules_reach
has_capability_on_prefix e names prefix capability =
    rules_reach prefix capability (rules_for e names)

-- `matchPath`: the compiled pattern is kept for the next call.
unfoldable pub match_path : Dict (List Token) → Text → Text → Bool × Dict (List Token)
match_path cache pattern path =
    if text_eq pattern (codes "*") then (true, cache) else elim (Dict.get pattern cache) [
      | some regex ↦ (matches regex path, cache)
      | none ↦ let regex = compile pattern in (matches regex path, Dict.set pattern regex cache)
    ]

-- `rule.paths.some(p => this.matchPath(p, path))`
unfoldable pub some_path : Dict (List Token) → List Text → Text → Bool × Dict (List Token)
some_path cache [] path = (false, cache)
some_path cache (p ∷ ps) path =
    let (hit, cache') = match_path cache p path in
    elim hit [ true ↦ (true, cache') | false ↦ some_path cache' ps path ]

unfoldable pub check_rules :
    Dict (List Token) → List PolicyRule → Text → Capability → Bool × Dict (List Token)
check_rules cache [] path capability = (false, cache)
check_rules cache (rule ∷ rules) path capability =
    let (hit, cache') = some_path cache rule.paths path in
    elim (hit && has_capability capability rule.capabilities) [
      | true ↦ (true, cache')
      | false ↦ check_rules cache' rules path capability
    ]

unfoldable pub check_names :
    Dict (List PolicyRule)
    → Dict (List Token)
    → List Text
    → Text
    → Capability
    → Bool × Dict (List Token)
check_names policies cache [] path capability = (false, cache)
check_names policies cache (name ∷ names) path capability =
    let (hit, cache') = check_rules cache (or_no_rules (Dict.get name policies)) path capability in
    elim hit [ true ↦ (true, cache') | false ↦ check_names policies cache' names path capability ]

unfoldable pub check : Engine → List Text → Text → Capability → Bool × Engine
check e names path capability =
    let (hit, cache) = check_names e.policies e.pattern_cache names path capability in
    (hit, record e { pattern_cache = cache })
