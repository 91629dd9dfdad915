-- ===== src/Policy/Operations.antt =====
-- The operations of the engine: what each answers on each branch, and what any run of them keeps.
use gatehouse.Common.{
  ◌≡◌, ◌≢◌, Text, text_eq, text_eq_iff, text_eq_refl, true, Option, none, some, List, [], ◌∷◌, map,
  if◌then◌else◌, arith, inl, inr, ◌⊎◌,
}
use gatehouse.Common.Dict
use gatehouse.Common.Dict.{UniqueKeys, get-set, get-delete, set-UniqueKeys, delete-UniqueKeys}
use gatehouse.Common.Exec.{done, thrown}
use gatehouse.Policy.Engine.{
  Capability, RawRule, PolicyFile, Table, Engine, admin_name, normalize_rule, to_raw, put_policy,
  reload, import_from_yaml, get_policy, db, builtin_admin, no_database, save_policy, delete_policy,
  check,
}

-- For the name `admin`, and for any name without a database, saving and deleting throw the error
-- that says so, and change nothing.
pub refused_changes :
    (name : Text) (rules : List RawRule) (e : Engine)
    → (name ≡ admin_name) ⊎ (e.db ≡ none)
    → let error = if text_eq name admin_name then builtin_admin else no_database in
      (save_policy name rules e ≡ (thrown error, e)) × (delete_policy name e ≡ (thrown error, e))
unfolding save_policy delete_policy
refused_changes name rules e (inl same) =
    (ground (arith, text_eq_iff name admin_name), ground (arith, text_eq_iff name admin_name))
refused_changes name rules e (inr closed) = (ground arith, ground arith)

abbrev pub saved : Text → List RawRule → Table → Engine → Engine
saved name rules table e =
    put_policy name (map normalize_rule rules) db
      (record e { db = some (Dict.set name (some (map to_raw (map normalize_rule rules))) table) })

pub save_policy-saved :
    (name : Text) (rules : List RawRule) (e : Engine) (table : Table)
    → name ≢ admin_name
    → e.db ≡ some table
    → save_policy name rules e
      ≡ (done (get_policy name (saved name rules table e)), saved name rules table e)
unfolding save_policy
save_policy-saved name rules e table other stored = ground (arith, text_eq_iff name admin_name)

-- With a database, saving under another name than `admin` answers with the normalized rules; they
-- are then the policy of that name, and no other policy has changed.
pub get_policy-save_policy :
    (name k : Text) (rules : List RawRule) (e : Engine) (table : Table)
    → name ≢ admin_name
    → e.db ≡ some table
    → ((save_policy name rules e).0 ≡ done (some (map normalize_rule rules)))
      × (get_policy k (save_policy name rules e).1
          ≡ (if text_eq name k then some (map normalize_rule rules) else get_policy k e))
get_policy-save_policy name k rules e table other stored =
    rw (save_policy-saved name rules e table other stored) (
      unfold put_policy in
      (rw get-set (rw (text_eq_refl name)), get-set name k (map normalize_rule rules) e.policies))

-- With a database, deleting a policy that has a row, under another name than `admin`, answers
-- `true`; the policy is then gone, and no other has changed.
pub get_policy-delete_policy :
    (name k : Text) (e : Engine) (table : Table) (row : Option (List RawRule))
    → name ≢ admin_name
    → e.db ≡ some table
    → Dict.get name table ≡ some row
    → ((delete_policy name e).0 ≡ done true)
      × (get_policy k (delete_policy name e).1 ≡ (if text_eq name k then none else get_policy k e))
unfolding delete_policy
get_policy-delete_policy name k e table row other stored there = (
  ground (arith, text_eq_iff name admin_name),
  ground (arith, text_eq_iff name admin_name, get-delete name k e.policies),
)

pub data Operation : Type 0 where
  checks : List Text → Text → Capability → Operation
  saves : Text → List RawRule → Operation
  deletes : Text → Operation
  reloads imports : List PolicyFile → Operation

unfoldable pub perform : Engine → Operation → Engine
perform e (checks names path capability) = (check e names path capability).1
perform e (saves name rules) = (save_policy name rules e).1
perform e (deletes name) = (delete_policy name e).1
perform e (reloads files) = reload files e
perform e (imports files) = (import_from_yaml files e).0

unfoldable pub perform_all : Engine → List Operation → Engine
perform_all e [] = e
perform_all e (op ∷ ops) = perform_all (perform e op) ops
