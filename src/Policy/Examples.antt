-- ===== src/Policy/Examples.antt =====
-- Runs of policy/engine.ts with one stored policy.
use gatehouse.Common.{
  ◌≡◌, ◌≢◌, ◌↔◌, inl, refl, Text, codes, text_eq, true, none, some, List, [], ◌∷◌, map,
  if◌then◌else◌,
}
use gatehouse.Common.Dict.{get, UniqueKeys}
use gatehouse.Common.Dict
use gatehouse.Common.Exec.{done}
use gatehouse.Policy.Glob.{glob_match, Fits, glob_match-iff-Fits}
use gatehouse.Policy.Engine.{
  Engine, RawRule, Table, read, write, admin_name, new_engine, load_policies, put_policy, load_rows,
  load_row, seed_yaml_policies, reload, get_policy, save_policy, delete_policy, check,
  normalize_rule,
}
use gatehouse.Policy.Check.{IsCoherent, Grants, check-iff-Grants}
use gatehouse.Policy.Durable.{IsSynced, reload-keeps, load-IsSynced}
use gatehouse.Policy.Operations.{
  Operation, saves, deletes, checks, reloads, imports, perform_all, get_policy-save_policy,
  get_policy-delete_policy,
}
use gatehouse.Policy.Invariant.{IsValid}
use gatehouse.Policy.Reachable.{reached-IsValid, admin_grants, empty-IsCoherent}

abbrev dev : Text
dev = codes "dev"

abbrev rules : List RawRule
rules = record { paths = some (codes "db/*" ∷ []); path = none; capabilities = read ∷ [] } ∷ []

abbrev table : Table
table = (dev, some rules) ∷ []

abbrev start : Engine
start = record { policies = []; sources = []; pattern_cache = []; db = some table }

abbrev engine : Engine
engine = load_policies [] start

table-UniqueKeys : UniqueKeys table
unfolding get
table-UniqueKeys = (refl, tt)

engine_stored : engine.db ≡ some table
unfolding load_policies seed_yaml_policies load_rows load_row put_policy
engine_stored = refl

engine_uncached : engine.pattern_cache ≡ []
unfolding load_policies seed_yaml_policies load_rows load_row put_policy
engine_uncached = refl

not_admin : dev ≢ admin_name
not_admin e = absurd (cc e)

engine-IsCoherent : IsCoherent engine.pattern_cache
engine-IsCoherent = rw engine_uncached empty-IsCoherent

engine-IsSynced : IsSynced engine table
unfolding seed_yaml_policies
engine-IsSynced = load-IsSynced [] start table refl refl table-UniqueKeys

dev_row : Dict.get dev table ≡ some (some rules)
unfolding get text_eq
dev_row = refl

abbrev session : List Operation
session =
    saves dev rules
    ∷ checks (dev ∷ []) (codes "db/x") read
    ∷ deletes dev
    ∷ reloads []
    ∷ imports []
    ∷ []

check-iff-Grants_example :
    ((check engine (dev ∷ []) (codes "db/x") read).0 ≡ true
      ↔ Grants engine (dev ∷ []) (codes "db/x") read)
    × IsCoherent (check engine (dev ∷ []) (codes "db/x") read).1.pattern_cache
    × ((check engine (dev ∷ []) (codes "db/x") read).1.policies ≡ engine.policies)
    × ((check engine (dev ∷ []) (codes "db/x") read).1.db ≡ engine.db)
check-iff-Grants_example = check-iff-Grants engine (dev ∷ []) (codes "db/x") read engine-IsCoherent

reached-IsValid_example : IsValid (perform_all (new_engine [] (some table)) session)
reached-IsValid_example = reached-IsValid [] (some table) session table-UniqueKeys

admin_grants_example :
    (check
      (perform_all (new_engine [] (some table)) session)
      (admin_name ∷ [])
      (codes "db/x")
      write).0
    ≡ true
admin_grants_example =
    admin_grants [] (some table) session (admin_name ∷ []) (codes "db/x") write table-UniqueKeys
      (inl refl)

glob_match-iff-Fits_example :
    (glob_match (codes "db/*") (codes "db/x") ≡ true) ↔ Fits (codes "db/*") (codes "db/x")
glob_match-iff-Fits_example = glob_match-iff-Fits (codes "db/*") (codes "db/x")

reload-keeps_example : Dict.get dev (reload [] engine).policies ≡ Dict.get dev engine.policies
reload-keeps_example =
    reload-keeps [] engine table dev (some rules) engine-IsSynced not_admin dev_row

get_policy-save_policy_example :
    ((save_policy dev [] engine).0 ≡ done (some (map normalize_rule [])))
    × (get_policy dev (save_policy dev [] engine).1
        ≡ (if text_eq dev dev then some (map normalize_rule []) else get_policy dev engine))
get_policy-save_policy_example =
    get_policy-save_policy dev dev [] engine table not_admin engine_stored

get_policy-delete_policy_example :
    ((delete_policy dev engine).0 ≡ done true)
    × (get_policy dev (delete_policy dev engine).1
        ≡ (if text_eq dev dev then none else get_policy dev engine))
get_policy-delete_policy_example =
    get_policy-delete_policy dev dev engine table (some rules) not_admin engine_stored dev_row
