-- ===== src/Api/Secrets.antt =====
-- The handlers of `secretsRouter` in api/secrets.ts, but for the list, for a caller that the
-- middleware has read. A metadata field is an object of texts and other values, or is not there.
use gatehouse.Common.{
  ℕ, ◌==◌, leb, Text, codes, String, Bool, true, false, ◌&&◌, ◌||◌, Option, none, some, List, [],
  ◌∷◌, if◌then◌else◌, drop, length, starts_with, is_digit, digits_value,
}
use mathlib.Core.List.{reverse}
use gatehouse.Common.Exec.{Outcome, done, thrown}
use gatehouse.Audit.{Action, MetaValue, secret_reveal_value, secret_read_metadata}
use gatehouse.Lease.State.{audited}
use gatehouse.Policy.Engine.{Capability}
use gatehouse.Policy.Engine
use gatehouse.Secrets.Vault.{Crypto, VaultError, Draw, StoredSecret, ListedVersion, list_versions}
use gatehouse.Secrets.Vault
use gatehouse.Secrets.Engine.{mark_accessed}
use gatehouse.Api.Leases.{App, Context, checked, ends_with, without}

abbrev pub max_metadata_value_size : ℕ
max_metadata_value_size = 1024

-- With the statuses 200 for what is shown, 201, 200, 200, 400, 403, 400, 400, 404 and 500.
pub data Response : Type 0 where
  value_shown : Text → Response
  versions_shown : List ListedVersion → Response
  metadata_shown : StoredSecret → Response
  written : StoredSecret → Response
  deleted : Response
  invalid_path forbidden invalid_json invalid_body not_found : Response
  failed : VaultError → Response

unfoldable pub is_path_code : ℕ → Bool
is_path_code c =
    leb b'a' c && leb c b'z'
    || leb b'A' c && leb c b'Z'
    || is_digit c
    || c == b'/'
    || c == b'_'
    || c == b'-'

unfoldable pub all_path_codes : Text → Bool
unfolding is_path_code
all_path_codes [] = true
all_path_codes (c ∷ s) = is_path_code c && all_path_codes s

-- `validatePath` finds nothing wrong.
unfoldable pub is_valid_path : Text → Bool
unfolding all_path_codes
is_valid_path [] = false
is_valid_path (c ∷ s) = leb (length (c ∷ s)) 256 && all_path_codes (c ∷ s)

-- The run of digits in front, and what follows it.
unfoldable pub span_digits : Text → Text × Text
span_digits [] = ([], [])
span_digits (c ∷ s) =
    let (digits, rest) = span_digits s in if is_digit c then (c ∷ digits, rest) else ([], c ∷ s)

abbrev pub versions_infix : Text
versions_infix = codes "/versions/"

-- `^(.+)\/versions\/(\d+)$`, read from the end: the digits, the infix, and a path in front.
abbrev matched : Text → Text → Option (Text × ℕ)
matched [] rest = none
matched (d ∷ ds) rest =
    if starts_with (reverse versions_infix) rest
    then elim (drop (length versions_infix) rest) [
      | [] ↦ none
      | c ∷ cs ↦ elim (digits_value 0 (reverse (d ∷ ds))) [
        | none ↦ none
        | some n ↦ some (reverse (c ∷ cs), n)
      ]
    ]
    else none

unfoldable pub version_match : Text → Option (Text × ℕ)
unfolding span_digits
version_match path = let (digits, rest) = span_digits (reverse path) in matched digits rest

-- What a GET asks for.
pub data Asked : Type 0 where
  value : Asked
  versions : Asked
  version : ℕ → Asked
  metadata : Asked

abbrev with_match : Text → Option (Text × ℕ) → Text × Asked
with_match path none = (path, metadata)
with_match path (some (p, n)) = (p, version n)

unfoldable pub asked_of : Text → Text × Asked
asked_of path =
    if ends_with (codes "/value") path
    then (without (codes "/value") path, value)
    else if ends_with (codes "/versions") path
    then (without (codes "/versions") path, versions)
    else with_match path (version_match path)

abbrev pub noted : Context → Action → Text → List (String × MetaValue) → Bool → App → App
noted ctx action path meta success app = record app {
  leases =
      audited
        (record {
          identity = ctx.caller.identity;
          action = action;
          path = some path;
          lease_id = none;
          source_ip = ctx.caller.source_ip;
          metadata = meta;
          success = success;
        })
        app.leases;
}

-- The log entries of a write that is refused have no address.
abbrev pub refused : Context → Action → Text → App → Response × App
refused ctx action path app = (
  forbidden,
  record app {
    leases =
        audited
          (record {
            identity = ctx.caller.identity;
            action = action;
            path = some path;
            lease_id = none;
            source_ip = none;
            metadata = [];
            success = false;
          })
          app.leases;
  },
)

-- Whether one of the capabilities is granted, asked for in order.
unfoldable pub checked_any : Context → Text → List Capability → App → Bool × App
checked_any ctx path [] app = (false, app)
checked_any ctx path (cap ∷ caps) app =
    let (allowed, app') = checked ctx path cap app in
    let rest = checked_any ctx path caps app' in elim allowed [ true ↦ (true, app') | false ↦ rest ]

abbrev pub needed : Asked → List Capability
needed metadata = Engine.read ∷ Engine.proxy ∷ Engine.lease ∷ Engine.list ∷ []
needed _ = Engine.read ∷ []

abbrev pub revealed :
    Context
    → Text
    → List (String × MetaValue)
    → Outcome VaultError (Option Text)
    → App
    → Response × App
revealed ctx path meta (thrown e) app = (failed e, app)
revealed ctx path meta (done none) app = (not_found, app)
revealed ctx path meta (done (some v)) app =
    let app' = noted ctx secret_reveal_value path meta true app in
    (value_shown v, record app' { vault = mark_accessed ctx.now path app'.vault })

abbrev pub shown_metadata : Context → Text → Option StoredSecret → App → Response × App
shown_metadata ctx path none app = (not_found, app)
shown_metadata ctx path (some meta) app =
    (metadata_shown meta, noted ctx secret_read_metadata path [] true app)

abbrev pub answer : Crypto → Context → Text → Asked → App → Response × App
answer c ctx path value app = revealed ctx path [] (Vault.get c path app.vault) app
answer c ctx path versions app =
    if Vault.exists path app.vault
    then (versions_shown (list_versions path app.vault), app)
    else (not_found, app)
answer c ctx path (version n) app =
    revealed ctx path (("version", MetaValue.number n) ∷ []) (Vault.get_version c path n app.vault)
      app
answer c ctx path metadata app = shown_metadata ctx path (Vault.get_meta path app.vault) app

abbrev pub denied_action : Asked → Action
denied_action value = secret_reveal_value
denied_action _ = secret_read_metadata

abbrev pub get_asked : Crypto → Context → Text → Asked → App → Response × App
get_asked c ctx path asked app =
    let (allowed, app') = checked_any ctx path (needed asked) app in
    if allowed
    then answer c ctx path asked app'
    else (forbidden, noted ctx (denied_action asked) path [] false app')

unfoldable pub get : Crypto → Context → Text → App → Response × App
get c ctx raw app =
    let (path, asked) = asked_of raw in
    if is_valid_path path then get_asked c ctx path asked app else (invalid_path, app)
