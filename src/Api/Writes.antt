-- ===== src/Api/Writes.antt =====
-- The handlers of api/secrets.ts that write: POST, PATCH and DELETE.
use gatehouse.Common.{ℕ, ltb, Text, codes, true, Option, none, some, [], ◌∷◌, if◌then◌else◌, length}
use gatehouse.Common.Dict.{Dict}
use gatehouse.Common.Int.{ℤ, pos, negsuc}
use gatehouse.Common.Exec.{Outcome, done, thrown}
use gatehouse.Audit.{
  Action, MetaValue, secret_write, secret_rollback, secret_metadata_update, secret_delete,
}
use gatehouse.Policy.Engine
use gatehouse.Secrets.Vault.{Crypto, Vault, VaultError, Draw, StoredSecret}
use gatehouse.Secrets.Engine.{put, set_metadata, rollback}
use gatehouse.Secrets.Engine as Store
use gatehouse.Api.Leases.{App, Context, checked, ends_with, without}
use gatehouse.Api.Secrets.{
  Response, written, deleted, invalid_path, invalid_json, invalid_body, not_found, failed,
  max_metadata_value_size, is_valid_path, noted, refused,
}

-- The fields of a body that is JSON. A value of `metadata` that is no text is `none`.
pub record Body : Type 0 where
  pub value : Option Text
  pub metadata : Option (Dict (Option Text))
  pub version : Option ℤ

-- The texts of a metadata object, if all its values are texts of a permitted length.
unfoldable pub valid_metadata : Dict (Option Text) → Option (Dict Text)
valid_metadata [] = some []
valid_metadata ((k, none) ∷ d) = none
valid_metadata ((k, some v) ∷ d) =
    let rest = valid_metadata d in
    if ltb max_metadata_value_size (length v)
    then none
    else elim rest [ none ↦ none | some texts ↦ some ((k, v) ∷ texts) ]

abbrev pub metadata_or_empty : Option (Dict (Option Text)) → Option (Dict Text)
metadata_or_empty none = some []
metadata_or_empty (some d) = valid_metadata d

abbrev pub with_vault : App → Vault → App
with_vault app s = record app { vault = s }

abbrev pub rolled_back :
    Context → Text → ℕ → Outcome VaultError (Option StoredSecret) → App → Response × App
rolled_back ctx path n (thrown e) app = (failed e, app)
rolled_back ctx path n (done none) app = (not_found, app)
rolled_back ctx path n (done (some meta)) app = (
  written meta,
  noted ctx secret_rollback path
      (("rolled_back_to", MetaValue.number n) ∷ ("new_version", MetaValue.number meta.version) ∷ [])
      true app,
)

abbrev pub rollback_to : Crypto → Context → Draw → Text → Option ℤ → App → Response × App
rollback_to c ctx draw path none app = (invalid_body, app)
rollback_to c ctx draw path (some (negsuc n)) app = (invalid_body, app)
rollback_to c ctx draw path (some (pos n)) app =
    let (result, s) = rollback c ctx.now draw path n app.vault in
    if ltb n 1 then (invalid_body, app) else rolled_back ctx path n result (with_vault app s)

-- `getMeta(path)!` of a path that was just written.
abbrev pub stored_as : Context → Text → Option StoredSecret → App → Response × App
stored_as ctx path none app = (not_found, app)
stored_as ctx path (some meta) app = (written meta, noted ctx secret_write path [] true app)

abbrev pub put_metadata :
    Crypto → Context → Draw → Text → Text → Option (Dict Text) → App → Response × App
put_metadata c ctx draw path value none app = (invalid_body, app)
put_metadata c ctx draw path value (some metadata) app =
    let (result, s) = put c ctx.now draw path value metadata app.vault in
    stored_as ctx path result (with_vault app s)

abbrev pub put_value : Crypto → Context → Draw → Text → Body → Option Text → App → Response × App
put_value c ctx draw path body none app = (invalid_body, app)
put_value c ctx draw path body (some []) app = (invalid_body, app)
put_value c ctx draw path body (some (x ∷ xs)) app =
    put_metadata c ctx draw path (x ∷ xs) (metadata_or_empty body.metadata) app

abbrev pub post_rollback : Crypto → Context → Draw → Text → Option Body → App → Response × App
post_rollback c ctx draw path none app = (invalid_json, app)
post_rollback c ctx draw path (some body) app = rollback_to c ctx draw path body.version app

abbrev pub post_value : Crypto → Context → Draw → Text → Option Body → App → Response × App
post_value c ctx draw path none app = (invalid_json, app)
post_value c ctx draw path (some body) app = put_value c ctx draw path body body.value app

-- The start of the three handlers: the path is valid and the capability is granted.
abbrev pub guarded :
    Context → Text → Engine.Capability → Action → (App → Response × App) → App → Response × App
guarded ctx path capability action k app =
    let (allowed, app') = checked ctx path capability app in
    if is_valid_path path
    then (if allowed then k app' else refused ctx action path app')
    else (invalid_path, app)

unfoldable pub post : Crypto → Context → Draw → Text → Option Body → App → Response × App
post c ctx draw raw body app =
    if ends_with (codes "/rollback") raw
    then (let path = without (codes "/rollback") raw in
        guarded ctx path Engine.write secret_write (post_rollback c ctx draw path body) app)
    else guarded ctx raw Engine.write secret_write (post_value c ctx draw raw body) app

abbrev pub updated : Context → Text → Option StoredSecret → App → Response × App
updated ctx path none app = (not_found, app)
updated ctx path (some meta) app = (written meta, noted ctx secret_metadata_update path [] true app)

abbrev pub update_metadata : Context → Text → Option (Dict Text) → App → Response × App
update_metadata ctx path none app = (invalid_body, app)
update_metadata ctx path (some metadata) app =
    let (result, s) = set_metadata ctx.now path metadata app.vault in
    updated ctx path result (with_vault app s)

abbrev pub patch_field : Context → Text → Option (Dict (Option Text)) → App → Response × App
patch_field ctx path none app = (invalid_body, app)
patch_field ctx path (some d) app = update_metadata ctx path (valid_metadata d) app

abbrev pub patch_body : Context → Text → Option Body → App → Response × App
patch_body ctx path none app = (invalid_json, app)
patch_body ctx path (some body) app = patch_field ctx path body.metadata app

unfoldable pub patch : Context → Text → Option Body → App → Response × App
patch ctx path body app =
    guarded ctx path Engine.write secret_metadata_update (patch_body ctx path body) app

abbrev pub delete_path : Context → Text → App → Response × App
delete_path ctx path app =
    let (there, vault, leases) = Store.delete path app.vault app.leases.leases in
    let app' : App = record app { vault = vault; leases = record app.leases { leases = leases } } in
    if there then (deleted, noted ctx secret_delete path [] true app') else (not_found, app')

unfoldable pub delete : Context → Text → App → Response × App
delete ctx path app = guarded ctx path Engine.delete secret_delete (delete_path ctx path) app
