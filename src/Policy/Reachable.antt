-- ===== src/Policy/Reachable.antt =====
-- The engine after any run of its operations.
use gatehouse.Common.{
  ◌≡◌, inl, inr, refl, sym, ap, subst, ◌∙◌, Text, text_eq_refl, true, Option, none, some, List, [],
  ◌∷◌, ◌++◌, arith, Any,
}
use gatehouse.Common.Dict
use gatehouse.Common.Dict.{Dict, UniqueKeys, get-set, get-delete, set-UniqueKeys, delete-UniqueKeys}
use gatehouse.Policy.Engine.{
  Capability, PolicyFile, Table, Engine, admin_name, admin_rules, put_policy, all_capabilities,
  has_capability, or_no_rules, seed_file, seed_yaml_policies, load_policies, load_file, load_files,
  new_engine, reload, import_from_yaml, get_policy, check,
}
use gatehouse.Policy.Check.{IsCoherent, RuleGrants, has_capability_iff, check-iff-Grants}
use gatehouse.Policy.Durable.{IsSynced, load-IsSynced, load_rows-frame, seed-UniqueKeys}
use gatehouse.Policy.Operations.{
  Operation, checks, saves, deletes, reloads, imports, perform, perform_all,
}
use gatehouse.Policy.Invariant.{IsValid, save-IsValid, delete-IsValid}

load-admin :
    (files : List PolicyFile) (e : Engine)
    → get_policy admin_name (load_policies files e) ≡ some admin_rules
unfolding load_policies put_policy
load-admin files e = rw get-set (rw (text_eq_refl admin_name))

load_file-frame :
    (file : PolicyFile) (e : Engine)
    → ((load_file file e).db ≡ e.db) × ((load_file file e).pattern_cache ≡ e.pattern_cache)
unfolding load_file put_policy
load_file-frame file e = ground arith

load_files-frame :
    (files : List PolicyFile) (e : Engine)
    → ((load_files files e).db ≡ e.db) × ((load_files files e).pattern_cache ≡ e.pattern_cache)
unfolding load_files
load_files-frame [] e = (refl, refl)
load_files-frame (file ∷ files) e =
    ground (arith, load_files-frame files (load_file file e), load_file-frame file e)

-- The table that a load starts from, if there is one, has no name twice.
abbrev pub IsKeyed : Option Table → Type 0
IsKeyed none = Unit {0}
IsKeyed (some table) = UniqueKeys table

load_policies-cache :
    (files : List PolicyFile) (e : Engine) (t : Option Table)
    → e.db ≡ t
    → (load_policies files e).pattern_cache ≡ e.pattern_cache
unfolding load_policies put_policy
load_policies-cache files e none closed = rw closed ((load_files-frame files e).1)
load_policies-cache files e (some table) stored =
    let table' = (seed_yaml_policies files table).0 in
    rw stored ((load_rows-frame table' (record e { db = some table' })).1)

load-IsValid :
    (files : List PolicyFile) (e : Engine) (t : Option Table)
    → e.db ≡ t
    → IsKeyed t
    → e.policies ≡ []
    → IsCoherent e.pattern_cache
    → IsValid (load_policies files e)
load-IsValid files e none closed keyed cleared coherent = record {
  admin = load-admin files e;
  coherent = rw (load_policies-cache files e none closed) coherent;
  synced =
      inl (unfold load_policies put_policy in rw closed ((load_files-frame files e).0 ∙ closed));
}
load-IsValid files e (some table) stored keyed cleared coherent = record {
  admin = load-admin files e;
  coherent = rw (load_policies-cache files e (some table) stored) coherent;
  synced =
      inr ((seed_yaml_policies files table).0, load-IsSynced files e table cleared stored keyed);
}

pub empty-IsCoherent : IsCoherent []
unfolding Dict.get
empty-IsCoherent = record { compiled = λ p regex e. cc }

-- The table of an engine with its data in order.
IsKeyed-table : (e : Engine) → IsValid e → (t : Option Table) × (e.db ≡ t) × IsKeyed t
IsKeyed-table e v = elim v.synced [
  | inl closed ↦ (none, closed, tt)
  | inr (table, s) ↦ (some table, s.table_is, s.unique)
]

reload-IsValid :
    (files : List PolicyFile) (e : Engine) → IsValid e → IsValid (perform e (reloads files))
unfolding perform reload
reload-IsValid files e v =
    let (t, stored, keyed) = IsKeyed-table e v in
    load-IsValid files (record e { policies = []; sources = []; pattern_cache = [] }) t stored keyed
      refl empty-IsCoherent

check-IsValid :
    (names : List Text) (path : Text) (capability : Capability) (e : Engine)
    → IsValid e
    → IsValid (perform e (checks names path capability))
unfolding perform check
check-IsValid names path capability e v =
    let (_, coherent, _, _) = check-iff-Grants e names path capability v.coherent in
    record {
      admin = v.admin;
      coherent = unfold check in coherent;
      synced = elim v.synced [
        | inl closed ↦ inl closed
        | inr (table, s) ↦
            inr (table, record { table_is = s.table_is; unique = s.unique; agrees = s.agrees })
      ];
    }

append-eq-nil {ℓ} : {A : Type ℓ} (xs ys : List A) → xs ++ ys ≡ [] → (xs ≡ []) × (ys ≡ [])
append-eq-nil [] ys e = (refl, e)
append-eq-nil (x ∷ xs) ys e = cc

quiet_file :
    (file : PolicyFile) (table : Table)
    → (seed_file file table).1 ≡ []
    → (seed_file file table).0 ≡ table
unfolding seed_file
quiet_file file table e = ground arith

-- An import that names no policy has added none.
quiet_seed :
    (files : List PolicyFile) (table : Table)
    → (seed_yaml_policies files table).1 ≡ []
    → (seed_yaml_policies files table).0 ≡ table
unfolding seed_yaml_policies
quiet_seed [] table e = refl
quiet_seed (file ∷ files) table e =
    let table' = (seed_file file table).0 in
    let (here, later) =
      append-eq-nil (seed_file file table).1 (seed_yaml_policies files table').1 e in
    quiet_seed files table' later ∙ quiet_file file table here

import-loads :
    (files : List PolicyFile) (e : Engine) (table : Table) (name : Text) (names : List Text)
    → e.db ≡ some table
    → (seed_yaml_policies files table).1 ≡ name ∷ names
    → (import_from_yaml files e).0
      ≡ load_policies files
          (record e { policies = []; sources = []; db = some (seed_yaml_policies files table).0 })
unfolding import_from_yaml
import-loads files e table name names stored new = ground arith

import-quiet :
    (files : List PolicyFile) (e : Engine) (table : Table)
    → e.db ≡ some table
    → (seed_yaml_policies files table).1 ≡ []
    → (import_from_yaml files e).0 ≡ record e { db = some (seed_yaml_policies files table).0 }
unfolding import_from_yaml
import-quiet files e table stored quiet = ground arith

import-closed :
    (files : List PolicyFile) (e : Engine) → e.db ≡ none → (import_from_yaml files e).0 ≡ e
unfolding import_from_yaml
import-closed files e closed = ground arith

import-IsValid-some :
    (files : List PolicyFile) (e : Engine) (table : Table) (imported : List Text)
    → IsValid e
    → IsSynced e table
    → (seed_yaml_policies files table).1 ≡ imported
    → IsValid (import_from_yaml files e).0
import-IsValid-some files e table [] v s quiet =
    subst IsValid (sym (import-quiet files e table s.table_is quiet)) (record {
      admin = v.admin;
      coherent = v.coherent;
      synced = inr (
        table,
        record {
          table_is = ap some (quiet_seed files table quiet);
          unique = s.unique;
          agrees = s.agrees;
        },
      );
    })
import-IsValid-some files e table (name ∷ names) v s new =
    rw (import-loads files e table name names s.table_is new) (
      load-IsValid files _ (some (seed_yaml_policies files table).0) refl
        (seed-UniqueKeys files table s.unique) refl v.coherent)

import-IsValid :
    (files : List PolicyFile) (e : Engine) → IsValid e → IsValid (perform e (imports files))
unfolding perform
import-IsValid files e v = elim v.synced [
  | inl closed ↦ subst IsValid (sym (import-closed files e closed)) v
  | inr (table, s) ↦ import-IsValid-some files e table (seed_yaml_policies files table).1 v s refl
]

perform-IsValid : (op : Operation) (e : Engine) → IsValid e → IsValid (perform e op)
perform-IsValid (checks names path capability) e v = check-IsValid names path capability e v
perform-IsValid (saves name rules) e v = save-IsValid name rules e v
perform-IsValid (deletes name) e v = delete-IsValid name e v
perform-IsValid (reloads files) e v = reload-IsValid files e v
perform-IsValid (imports files) e v = import-IsValid files e v

perform_all-IsValid : (ops : List Operation) (e : Engine) → IsValid e → IsValid (perform_all e ops)
unfolding perform_all
perform_all-IsValid [] e v = v
perform_all-IsValid (op ∷ ops) e v = perform_all-IsValid ops (perform e op) (perform-IsValid op e v)

-- From the constructor over no table, or a table with no name twice, any run of checks, saves,
-- deletions, reloads and imports keeps the built-in `admin` policy, a cache of the patterns'
-- expressions, and for each other name the policy of its row.
pub reached-IsValid :
    (files : List PolicyFile) (t : Option Table) (ops : List Operation)
    → IsKeyed t
    → IsValid (perform_all (new_engine files t) ops)
unfolding new_engine
reached-IsValid files t ops keyed =
    perform_all-IsValid ops _ (load-IsValid files _ t refl keyed refl empty-IsCoherent)

all_held : (capability : Capability) → has_capability capability all_capabilities ≡ true
unfolding has_capability
all_held capability = ground arith

admin-RuleGrants :
    (path : Text) (capability : Capability) → Any (RuleGrants path capability) admin_rules
admin-RuleGrants path capability =
    inl (inl (inl refl), (has_capability_iff capability all_capabilities).0 (all_held capability))

Any-member :
    (P : Text → Type 0) (name : Text) (names : List Text)
    → Any (λ n. n ≡ name) names
    → P name
    → Any P names
Any-member P name [] m p = absurd m
Any-member P name (n ∷ names) (inl e) p = inl (subst P (sym e) p)
Any-member P name (n ∷ names) (inr m) p = inr (Any-member P name names m p)

-- No run of the operations takes anything from a holder of `admin`: every capability on every path
-- is granted.
pub admin_grants :
    (files : List PolicyFile) (t : Option Table) (ops : List Operation) (names : List Text)
    (path : Text) (capability : Capability)
    → IsKeyed t
    → Any (λ name. name ≡ admin_name) names
    → (check (perform_all (new_engine files t) ops) names path capability).0 ≡ true
admin_grants files t ops names path capability keyed member =
    let v = reached-IsValid files t ops keyed in
    let e = perform_all (new_engine files t) ops in
    (check-iff-Grants e names path capability v.coherent).0.1 (
      Any-member (λ name. Any (RuleGrants path capability) (or_no_rules (Dict.get name e.policies)))
        admin_name names member (rw v.admin (admin-RuleGrants path capability)))
