-- ===== src/Secrets/Examples.antt =====
-- Runs of secrets/engine.ts on a vault with two versions of a secret.
use gatehouse.Common.{
  ℕ, ◌+◌, ◌==◌, ◌≡◌, refl, Text, text_eq, codes, true, ◌&&◌, Option, none, some, [], ◌∷◌, ◌++◌,
  if◌then◌else◌, first, length, arith,
}
use gatehouse.Common.Exec.{done, thrown}
use gatehouse.Common.Utf8.{
  Bytes, encode, decode, is_plain_text, points_from, encode_points, decode_from, all_units,
}
use gatehouse.Secrets.Vault.{
  Crypto, Opens, Vault, Draw, rotation_failed, archived_rotation_failed, find_secret, find_version,
  get, get_version, decrypt, open_dek, seal_value, derive_key,
}
use gatehouse.Secrets.Engine.{new_vault, put, put_row, upsert, archive, rollback}
use gatehouse.Secrets.Rekey.{rotate_kek, secrets_table, versions_table}
use gatehouse.Secrets.Rewrapping.{all_open}
use gatehouse.Secrets.Reads.{IsOrdered, is_current, put-get, put-get_version, rollback-get}
use gatehouse.Secrets.Rotation.{IsUnique, rotate_kek-outcome, rotate_kek-reads}

abbrev strip : Bytes → Bytes → Option Bytes
strip [] bytes = some bytes
strip (p ∷ ps) [] = none
strip (p ∷ ps) (b ∷ bs) = let rest = strip ps bs in if p == b then rest else none

-- A box shows its nonce and its key, and opens for these.
abbrev pub plain_crypto : Crypto
plain_crypto = record {
  seal = λ message nonce key. (0 ∷ nonce ++ key) ++ message;
  open_box = λ box nonce key. strip (0 ∷ nonce ++ key) box;
  hkdf = λ master salt purpose n. master ++ purpose;
}

strip-append : (ps m : Bytes) → strip ps (ps ++ m) ≡ some m
strip-append [] m = refl
strip-append (p ∷ ps) m = ground (arith, strip-append ps m)

pub plain_crypto-Opens : Opens plain_crypto
plain_crypto-Opens message nonce key = strip-append (0 ∷ nonce ++ key) message

abbrev first_draw : Draw
first_draw = record { dek = 1 ∷ []; value_nonce = 2 ∷ []; dek_nonce = 3 ∷ [] }

abbrev second_draw : Draw
second_draw = record { dek = 4 ∷ []; value_nonce = 5 ∷ []; dek_nonce = 6 ∷ [] }

abbrev path : Text
path = codes "db/prod"

abbrev empty_vault : Vault
empty_vault = new_vault plain_crypto (7 ∷ []) [] []

abbrev pub two_versions : Vault
two_versions =
    (put plain_crypto 2000 second_draw path (codes "two") []
      (put plain_crypto 1000 first_draw path (codes "one") [] empty_vault).1).1

put_reads : get plain_crypto path two_versions ≡ done (some (codes "two"))
unfolding get put put_row upsert archive find_secret find_version first text_eq decrypt open_dek
    seal_value new_vault derive_key encode decode points_from encode_points decode_from all_units
put_reads = refl

versions-IsOrdered : IsOrdered two_versions
unfolding new_vault put put_row upsert archive find_secret find_version first text_eq
versions-IsOrdered = (refl, tt)

first_reads : get_version plain_crypto path 1 two_versions ≡ done (some (codes "one"))
unfolding get_version put put_row upsert archive find_secret find_version first text_eq decrypt
    open_dek seal_value new_vault derive_key encode decode points_from encode_points decode_from
    all_units
first_reads = refl

plain_three : is_plain_text (codes "three") ≡ true
unfolding is_plain_text points_from all_units text_eq
plain_three = refl

plain_one : is_plain_text (codes "one") ≡ true
unfolding is_plain_text points_from all_units text_eq
plain_one = refl

rows-IsUnique : IsUnique two_versions
unfolding new_vault put put_row upsert archive find_secret find_version first text_eq
rows-IsUnique = ((refl, tt), (refl, tt))

put-get_example :
    get plain_crypto path (put plain_crypto 3000 first_draw path (codes "three") [] two_versions).1
    ≡ (if text_eq path path
        then done (some (codes "three"))
        else get plain_crypto path two_versions)
put-get_example =
    put-get plain_crypto 3000 first_draw path path (codes "three") [] two_versions
      plain_crypto-Opens plain_three

put-get_version_example :
    get_version plain_crypto path 2
      (put plain_crypto 3000 first_draw path (codes "three") [] two_versions).1
    ≡ (if text_eq path path && is_current 2 (find_secret path two_versions.secrets)
        then get plain_crypto path two_versions
        else get_version plain_crypto path 2 two_versions)
put-get_version_example =
    put-get_version plain_crypto 3000 2 first_draw path path (codes "three") [] two_versions
      versions-IsOrdered

rollback-get_example :
    get plain_crypto path (rollback plain_crypto 3000 first_draw path 1 two_versions).1
    ≡ get_version plain_crypto path 1 two_versions
rollback-get_example =
    rollback-get plain_crypto 3000 1 first_draw path (codes "one") two_versions plain_crypto-Opens
      first_reads plain_one

abbrev nonces : ℕ → Bytes
nonces n = (10 + n) ∷ []

rotate_kek-outcome_example : rotate_kek plain_crypto 4000 nonces (8 ∷ []) two_versions ≡ (
    if all_open (secrets_table 4000) plain_crypto two_versions.kek two_versions.secrets
      && all_open versions_table plain_crypto two_versions.kek two_versions.versions
    then (
      done (length two_versions.secrets),
      (rotate_kek plain_crypto 4000 nonces (8 ∷ []) two_versions).1,
    )
    else (
      thrown (
          if all_open (secrets_table 4000) plain_crypto two_versions.kek two_versions.secrets
          then archived_rotation_failed
          else rotation_failed),
      two_versions,
    ))
rotate_kek-outcome_example = rotate_kek-outcome plain_crypto 4000 nonces (8 ∷ []) two_versions

rotate_kek-reads_example :
    (get plain_crypto path (rotate_kek plain_crypto 4000 nonces (8 ∷ []) two_versions).1
      ≡ get plain_crypto path two_versions)
    × (get_version plain_crypto path 1 (rotate_kek plain_crypto 4000 nonces (8 ∷ []) two_versions).1
        ≡ get_version plain_crypto path 1 two_versions)
rotate_kek-reads_example =
    rotate_kek-reads plain_crypto 4000 nonces (8 ∷ []) two_versions path path 1 plain_crypto-Opens
      rows-IsUnique
