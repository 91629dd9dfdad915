-- ===== src/Policy/Durable.antt =====
-- What the operations keep: the built-in `admin` policy, the cache, and the agreement of the maps
-- with the table, which a reload rebuilds.
use gatehouse.Common.{
  ◌≡◌, ◌≢◌, ◌∙◌, refl, sym, ap, Text, text_eq, text_eq_iff, ◌||◌, Option, none, some, List, [], ◌∷◌,
  map, if◌then◌else◌, arith, Bool-cases, ◌⊎◌, Option-cases, inl, inr,
}
use gatehouse.Common.Dict
use gatehouse.Common.Dict.{Dict, UniqueKeys, get-set, get-delete, set-UniqueKeys, delete-UniqueKeys}
use gatehouse.Policy.Engine.{
  PolicyRule, RawRule, PolicyFile, Table, Engine, admin_name, admin_rules, normalize_rule, to_raw,
  put_policy, seed_file, seed_yaml_policies, load_row, load_rows, load_policies, reload, yaml,
}

-- The rules that a row stands for; an unreadable row stands for no policy.
abbrev pub row_rules : Option (Option (List RawRule)) → Option (List PolicyRule)
row_rules none = none
row_rules (some none) = none
row_rules (some (some rules)) = some (map normalize_rule rules)

pub normalize-to_raw : (rules : List PolicyRule) → map normalize_rule (map to_raw rules) ≡ rules
unfolding normalize_rule to_raw
normalize-to_raw [] = refl
normalize-to_raw (rule ∷ rules) = ap (◌∷◌ rule) (normalize-to_raw rules)

-- Each policy but `admin` is the one of its row.
pub record IsSynced (e : Engine) (table : Table) : Type 0 where
  pub table_is : e.db ≡ some table
  pub unique : UniqueKeys table
  pub agrees :
      (name : Text) → name ≢ admin_name → Dict.get name e.policies ≡ row_rules (Dict.get name table)

-- A row loaded over what the map held.
abbrev over : Option (Option (List RawRule)) → Option (List PolicyRule) → Option (List PolicyRule)
over none old = old
over (some none) old = old
over (some (some rules)) old = some (map normalize_rule rules)

get-load_row :
    (j name : Text) (row : Option (List RawRule)) (e : Engine)
    → Dict.get name (load_row j row e).policies ≡ (
        if text_eq j name
        then over (some row) (Dict.get name e.policies)
        else Dict.get name e.policies)
unfolding load_row put_policy
get-load_row j name none e = ground arith
get-load_row j name (some rules) e = get-set j name (map normalize_rule rules) e.policies

get-load_rows :
    (table : Table) (e : Engine) (name : Text)
    → UniqueKeys table
    → Dict.get name (load_rows table e).policies
      ≡ over (Dict.get name table) (Dict.get name e.policies)
unfolding load_rows Dict.get
get-load_rows [] e name u = refl
get-load_rows ((j, row) ∷ rows) e name u = ground (
  arith,
  text_eq_iff j name,
  get-load_row j name row e,
  get-load_rows rows (load_row j row e) name u.1,
)

abbrev seeded_row : List RawRule → Option (List RawRule)
seeded_row rules = some (map to_raw (map normalize_rule rules))

-- A file leaves the table alone, or adds a row where there was none.
abbrev SeedStep : PolicyFile → Table → Table → Type 0
SeedStep file table table' =
    (table' ≡ table)
    ⊎ (rules : List RawRule) × (Dict.get file.name table ≡ none)
      × (table' ≡ Dict.set file.name (seeded_row rules) table)

seed_file-SeedStep :
    (file : PolicyFile) (table : Table) (r : Option (List RawRule))
    → file.rules ≡ r
    → SeedStep file table (seed_file file table).0
unfolding seed_file
seed_file-SeedStep file table none e = inl (ground arith)
seed_file-SeedStep file table (some rules) e =
    elim (Bool-cases (text_eq file.name [] || text_eq file.name admin_name)) [
      | inl skip ↦ inl (ground arith)
      | inr keep ↦ elim (Option-cases (Dict.get file.name table)) [
        | inl new ↦ inr (rules, new, ground arith)
        | inr (row, old) ↦ inl (ground arith)
      ]
    ]

pub seed-UniqueKeys :
    (files : List PolicyFile) (table : Table)
    → UniqueKeys table
    → UniqueKeys (seed_yaml_policies files table).0
unfolding seed_yaml_policies
seed-UniqueKeys [] table u = u
seed-UniqueKeys (file ∷ files) table u =
    seed-UniqueKeys files (seed_file file table).0
      (elim (seed_file-SeedStep file table file.rules refl) [
        | inl same ↦ rw same u
        | inr (rules, new, e) ↦ rw e (set-UniqueKeys file.name (seeded_row rules) table u)
      ])

get-seed_file :
    (file : PolicyFile) (table : Table) (name : Text) (row : Option (List RawRule))
    → Dict.get name table ≡ some row
    → Dict.get name (seed_file file table).0 ≡ some row
get-seed_file file table name row h = elim (seed_file-SeedStep file table file.rules refl) [
  | inl same ↦ rw same h
  | inr (rules, new, e) ↦ rw (e, get-set) (ground (arith, text_eq_iff file.name name))
]

-- An import adds rows and touches none that is there.
get-seed :
    (files : List PolicyFile) (table : Table) (name : Text) (row : Option (List RawRule))
    → Dict.get name table ≡ some row
    → Dict.get name (seed_yaml_policies files table).0 ≡ some row
unfolding seed_yaml_policies
get-seed [] table name row h = h
get-seed (file ∷ files) table name row h =
    get-seed files (seed_file file table).0 name row (get-seed_file file table name row h)

pub load_rows-frame :
    (table : Table) (e : Engine)
    → ((load_rows table e).db ≡ e.db) × ((load_rows table e).pattern_cache ≡ e.pattern_cache)
unfolding load_rows load_row put_policy
load_rows-frame [] e = (refl, refl)
load_rows-frame ((j, none) ∷ rows) e = load_rows-frame rows e
load_rows-frame ((j, some rules) ∷ rows) e = load_rows-frame rows (load_row j (some rules) e)

over-row_rules : (row : Option (Option (List RawRule))) → over row none ≡ row_rules row
over-row_rules none = refl
over-row_rules (some none) = refl
over-row_rules (some (some rules)) = refl

-- What a load from cleared maps leaves: a policy for each readable row, and `admin`.
module _ (files : List PolicyFile) (e : Engine) (table : Table) (cleared : e.policies ≡ [])
    (stored : e.db ≡ some table) (u : UniqueKeys table) where
  abbrev table' : Table
  table' = (seed_yaml_policies files table).0

  load_policies-rows :
      load_policies files e
      ≡ put_policy admin_name admin_rules yaml (load_rows table' (record e { db = some table' }))
  unfolding load_policies
  load_policies-rows = rw stored

  absent : (name : Text) → Dict.get name e.policies ≡ none
  unfolding Dict.get
  absent name = rw cleared

  agrees_loaded :
      (name : Text)
      → name ≢ admin_name
      → Dict.get name (load_policies files e).policies ≡ row_rules (Dict.get name table')
  unfolding put_policy
  agrees_loaded name other = ground (
    arith,
    load_policies-rows,
    text_eq_iff admin_name name,
    get-set admin_name name admin_rules (load_rows table' (record e { db = some table' })).policies,
    get-load_rows table' (record e { db = some table' }) name (seed-UniqueKeys files table u),
    over-row_rules (Dict.get name table'),
    absent name,
  )

  pub load-IsSynced : IsSynced (load_policies files e) table'
  unfolding put_policy
  load-IsSynced = record {
    table_is = rw load_policies-rows ((load_rows-frame table' (record e { db = some table' })).0);
    unique = seed-UniqueKeys files table u;
    agrees = agrees_loaded;
  }

-- In an engine whose policies are those of its table, a reload leaves the policy of every name
-- but `admin` that has a row as it was, whatever the files hold.
pub reload-keeps :
    (files : List PolicyFile) (e : Engine) (table : Table) (name : Text)
    (row : Option (List RawRule))
    → IsSynced e table
    → name ≢ admin_name
    → Dict.get name table ≡ some row
    → Dict.get name (reload files e).policies ≡ Dict.get name e.policies
unfolding reload
reload-keeps files e table name row synced other stored =
    let cleared : Engine = record e { policies = []; sources = []; pattern_cache = [] } in
    agrees_loaded files cleared table refl synced.table_is synced.unique name other
    ∙ ap row_rules (get-seed files table name row stored)
    ∙ sym (ap row_rules stored)
    ∙ sym (synced.agrees name other)
