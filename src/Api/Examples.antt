-- ===== src/Api/Examples.antt =====
-- Runs of api/lease.ts and api/secrets.ts on a server with one gated secret.
use gatehouse.Common.{
  ◌≡◌, ◌⊎◌, refl, Text, text_eq, codes, true, none, [], ◌∷◌, ◌||◌, first, select, sort_by,
  starts_with, some, if◌then◌else◌,
}
use gatehouse.Common.Dict.{get}
use gatehouse.Common.Utf8.{encode, decode, points_from, encode_points, decode_from, all_units}
use gatehouse.Lease.State.{
  Lease, State, has_active_approved_lease, find_active_approved_lease, audited,
}
use gatehouse.Lease.Manager.{new_lease, requires_approval, checkout, checkout_gated}
use gatehouse.Policy.Engine.{
  Engine, admin, lease, read, write, check, check_names, check_rules, some_path, match_path,
  has_capability, delete,
}
use gatehouse.Policy.Glob.{compile, matches}
use gatehouse.Policy.Check.{Grants}
use gatehouse.Policy.Reachable.{empty-IsCoherent}
use gatehouse.Secrets.Vault.{
  Vault, find_secret, decrypt, open_dek, seal_value, derive_key, get_meta, Draw,
}
use gatehouse.Secrets.Vault
use gatehouse.Secrets.Engine.{new_vault, put, put_row, upsert, mark_accessed}
use gatehouse.Secrets.Examples.{plain_crypto}
use gatehouse.Settings.Routes.{Caller}
use gatehouse.Api.Leases.{App, Context, Body, missing, checked_out, ends_with, ttl_from, without}
use gatehouse.Api.Checkout.{gated, post_checkout, post}
use gatehouse.Api.Values.{MayHave}
use gatehouse.Api.Release.{post-MayHave}
use gatehouse.Api.Secrets.{value_shown, is_valid_path, all_path_codes, asked_of, checked_any}
use gatehouse.Api.Secrets
use gatehouse.Api.Writes
use gatehouse.Api.Reading.{Holds, SameData, get-NeedsRead, changes-NeedGrant}
use gatehouse.Api.Decisions.{post-NeedsAdmin}

abbrev path : Text
path = codes "db"

abbrev agent : Caller
agent = record { policies = codes "dev" ∷ []; identity = codes "agent"; source_ip = none }

abbrev context : Context
context = record { now = 5000; checkout_id = codes "a"; approval_id = codes "b"; caller = agent }

abbrev no_fields : Body
no_fields = record { ttl = missing; justification = none; request_ttl = none; reason = none }

abbrev open_lease : Lease
open_lease = new_lease (codes "lease-1") path (codes "agent") 60 0

abbrev leases : State
leases = record { leases = open_lease ∷ []; audit = []; events = none; webhooks = [] }

abbrev vault : Vault
vault =
    (put plain_crypto 1000 (record { dek = 1 ∷ []; value_nonce = 2 ∷ []; dek_nonce = 3 ∷ [] }) path
      (codes "one") ((codes "requires_approval", codes "true") ∷ [])
      (new_vault plain_crypto (7 ∷ []) [] [])).1

abbrev dev_engine : Engine
dev_engine = record {
  policies = (codes "dev", record { paths = codes "db" ∷ []; capabilities = lease ∷ [] } ∷ []) ∷ [];
  sources = [];
  pattern_cache = [];
  db = none;
}

abbrev app : App
app = record { engine = dev_engine; leases = leases; vault = vault }

gives_one : (post plain_crypto context path no_fields app).0 ≡ checked_out open_lease (codes "one")
unfolding post post_checkout gated ends_with starts_with ttl_from check check_names check_rules
    some_path match_path has_capability compile matches get text_eq requires_approval
    has_active_approved_lease find_active_approved_lease first select sort_by checkout
    checkout_gated audited Vault.get get_meta find_secret decrypt open_dek seal_value derive_key
    new_vault put put_row upsert mark_accessed encode decode points_from encode_points decode_from
    all_units
gives_one = refl

post-MayHave_example :
    Grants app.engine agent.policies path lease
    × MayHave plain_crypto context path app
        (post plain_crypto context path no_fields app).1.leases
        (codes "one")
post-MayHave_example =
    post-MayHave plain_crypto context path no_fields app open_lease (codes "one") empty-IsCoherent
      gives_one

abbrev approval_path : Text
approval_path = codes "lease-1/approve"

approves :
    ends_with (codes "/approve") approval_path || ends_with (codes "/deny") approval_path ≡ true
unfolding ends_with starts_with
approves = refl

post-NeedsAdmin_example :
    ((post plain_crypto context approval_path no_fields app).1.leases ≡ app.leases)
    ⊎ Grants app.engine agent.policies (codes "*") admin
post-NeedsAdmin_example =
    post-NeedsAdmin plain_crypto context approval_path no_fields app empty-IsCoherent approves

abbrev reading_app : App
reading_app = record app {
  engine = record dev_engine {
    policies =
        (codes "dev", record { paths = codes "db" ∷ []; capabilities = read ∷ [] } ∷ []) ∷ [];
  };
}

-- A gated secret is read without a lease by a caller with `read`.
reads_one :
    (Secrets.get plain_crypto context (codes "db/value") reading_app).0 ≡ value_shown (codes "one")
unfolding Secrets.get asked_of is_valid_path all_path_codes checked_any ends_with without
    starts_with check check_names check_rules some_path match_path has_capability compile matches
    get text_eq Vault.get get_meta find_secret first decrypt open_dek seal_value derive_key
    new_vault put put_row upsert mark_accessed encode decode points_from encode_points decode_from
    all_units
reads_one = refl

get-NeedsRead_example :
    let path = (asked_of (codes "db/value")).0 in
    (is_valid_path path ≡ true)
    × Grants reading_app.engine agent.policies path read
    × Holds plain_crypto reading_app path (codes "one")
get-NeedsRead_example =
    get-NeedsRead plain_crypto context (codes "db/value") (codes "one") reading_app empty-IsCoherent
      reads_one

abbrev draw : Draw
draw = record { dek = 4 ∷ []; value_nonce = 5 ∷ []; dek_nonce = 6 ∷ [] }

abbrev new_value : Writes.Body
new_value = record { value = some (codes "two"); metadata = none; version = none }

changes-NeedGrant_example :
    let rolls = ends_with (codes "/rollback") path in
    let target = if rolls then without (codes "/rollback") path else path in
    (SameData (Writes.post plain_crypto context draw path (some new_value) app).1 app
      ⊎ Grants app.engine agent.policies target write)
    × (SameData (Writes.patch context path (some new_value) app).1 app
        ⊎ Grants app.engine agent.policies path write)
    × (SameData (Writes.delete context path app).1 app
        ⊎ Grants app.engine agent.policies path delete)
changes-NeedGrant_example =
    changes-NeedGrant plain_crypto context draw path (some new_value) app empty-IsCoherent
