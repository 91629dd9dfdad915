-- ===== src/Policy/Invariant.antt =====
-- What every run of the operations keeps: the built-in policy, the cache and the table.
use gatehouse.Common.{
  ◌≡◌, ◌≢◌, ◌⊎◌, inl, inr, refl, Text, text_eq, text_eq_iff, none, some, List, [], map, arith,
  Bool-cases, Option-cases,
}
use gatehouse.Common.Dict
use gatehouse.Common.Dict.{Dict, UniqueKeys, get-set, get-delete, set-UniqueKeys, delete-UniqueKeys}
use gatehouse.Policy.Engine.{
  RawRule, Table, Engine, admin_name, admin_rules, normalize_rule, to_raw, put_policy, get_policy,
  delete_policy,
}
use gatehouse.Policy.Check.{IsCoherent}
use gatehouse.Policy.Durable.{normalize-to_raw, IsSynced}
use gatehouse.Policy.Operations.{saves, deletes, perform, saved, save_policy-saved, refused_changes}

-- The engine has the built-in policy, a coherent cache, and policies that agree with its table.
pub record IsValid (e : Engine) : Type 0 where
  pub admin : get_policy admin_name e ≡ some admin_rules
  pub coherent : IsCoherent e.pattern_cache
  pub synced : (e.db ≡ none) ⊎ ((table : Table) × IsSynced e table)

saved-IsValid :
    (name : Text) (rules : List RawRule) (e : Engine) (table : Table)
    → name ≢ admin_name
    → IsSynced e table
    → IsValid e
    → IsValid (saved name rules table e)
unfolding put_policy
saved-IsValid name rules e table other s v =
    let row = some (map to_raw (map normalize_rule rules)) in
    record {
      admin = ground (
        arith,
        v.admin,
        get-set name admin_name (map normalize_rule rules) e.policies,
        text_eq_iff name admin_name,
      );
      coherent = v.coherent;
      synced = inr (
        Dict.set name row table,
        record {
          table_is = refl;
          unique = set-UniqueKeys name row table s.unique;
          agrees = λ k ne. ground (
            arith,
            get-set name k (map normalize_rule rules) e.policies,
            get-set name k row table,
            normalize-to_raw (map normalize_rule rules),
            s.agrees k ne,
          );
        },
      );
    }

abbrev deleted : Text → Table → Engine → Engine
deleted name table e = record e {
  db = some (Dict.delete name table);
  policies = Dict.delete name e.policies;
  sources = Dict.delete name e.sources;
}

delete_policy-deleted :
    (name : Text) (e : Engine) (table : Table)
    → name ≢ admin_name
    → e.db ≡ some table
    → ((delete_policy name e).1 ≡ e) ⊎ ((delete_policy name e).1 ≡ deleted name table e)
unfolding delete_policy
delete_policy-deleted name e table other stored = elim (Option-cases (Dict.get name table)) [
  | inl absent ↦ inl (ground (arith, text_eq_iff name admin_name))
  | inr (row, there) ↦ inr (ground (arith, text_eq_iff name admin_name))
]

deleted-IsValid :
    (name : Text) (e : Engine) (table : Table)
    → name ≢ admin_name
    → IsSynced e table
    → IsValid e
    → IsValid (deleted name table e)
deleted-IsValid name e table other s v = record {
  admin =
      ground (arith, v.admin, get-delete name admin_name e.policies, text_eq_iff name admin_name);
  coherent = v.coherent;
  synced = inr (
    Dict.delete name table,
    record {
      table_is = refl;
      unique = delete-UniqueKeys name table s.unique;
      agrees = λ k ne.
          ground (arith, get-delete name k e.policies, get-delete name k table, s.agrees k ne);
    },
  );
}

-- The name is the built-in one, or the database is there, or it is not.
abbrev Situation : Text → Engine → Type 0
Situation name e =
    ((name ≡ admin_name) ⊎ (e.db ≡ none))
    ⊎ ((table : Table) × (name ≢ admin_name) × IsSynced e table)

situation : (name : Text) (e : Engine) → IsValid e → Situation name e
situation name e v = elim (Bool-cases (text_eq name admin_name)) [
  | inl same ↦ inl (inl ((text_eq_iff name admin_name).0 same))
  | inr other ↦ elim v.synced [
    | inl closed ↦ inl (inr closed)
    | inr (table, s) ↦ inr (table, ground (arith, text_eq_iff name admin_name), s)
  ]
]

pub save-IsValid :
    (name : Text) (rules : List RawRule) (e : Engine)
    → IsValid e
    → IsValid (perform e (saves name rules))
unfolding perform
save-IsValid name rules e v = elim (situation name e v) [
  | inl why ↦ rw ((refused_changes name rules e why).0, perform) v
  | inr (table, other, s) ↦
      rw (save_policy-saved name rules e table other s.table_is, perform)
        (saved-IsValid name rules e table other s v)
]

pub delete-IsValid : (name : Text) (e : Engine) → IsValid e → IsValid (perform e (deletes name))
unfolding perform
delete-IsValid name e v = elim (situation name e v) [
  | inl why ↦ rw ((refused_changes name [] e why).1, perform) v
  | inr (table, other, s) ↦ elim (delete_policy-deleted name e table other s.table_is) [
    | inl same ↦ rw (same, perform) v
    | inr gone ↦ rw (gone, perform) (deleted-IsValid name e table other s v)
  ]
]
