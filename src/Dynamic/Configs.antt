-- ===== src/Dynamic/Configs.antt =====
-- What dynamic/manager.ts encrypts is read back, and a saved configuration is the one in use.
use gatehouse.Common.{
  ℕ, ◌≡◌, refl, ◌∙◌, ap, subst, leb, Text, text_eq_iff, false, Option, none, some, List, [], ◌∷◌,
  ◌++◌, arith, take, drop, length, length-append, select, first,
}
use gatehouse.Common.Dict.{Dict, get}
use gatehouse.Common.Exec.{done}
use gatehouse.Common.Utf8.{Bytes}
use gatehouse.Lease.State.{sql_datetime}
use gatehouse.Secrets.Vault.{Crypto, Opens}
use gatehouse.Dynamic.Sealing.{
  Json, ReadsBack, HasTag, nonce_length, ConfigRow, State, DynamicConfig, Provider, Providers,
  encrypt_config, decrypt_config, parsed, find_config, get_config, read_config, with_config,
}
use gatehouse.Dynamic.Saving.{is_missing, upsert, write_config, save_with, save_config}

take-append : (xs ys : Bytes) → take (length xs) (xs ++ ys) ≡ xs
take-append [] ys = refl
take-append (x ∷ xs) ys = ap (λ zs. x ∷ zs) (take-append xs ys)

drop-append : (xs ys : Bytes) → drop (length xs) (xs ++ ys) ≡ ys
drop-append [] ys = refl
drop-append (x ∷ xs) ys = drop-append xs ys

pub decrypt_config-encrypt_config :
    (json : Json) (c : Crypto) (key nonce : Bytes) (config : Dict Text)
    → Opens c
    → HasTag c
    → ReadsBack json
    → length nonce ≡ nonce_length
    → decrypt_config json c key (encrypt_config json c key nonce config) ≡ done config
unfolding decrypt_config encrypt_config
decrypt_config-encrypt_config json c key nonce config opens tag back sized =
    let box = c.seal (json.to_bytes config) nonce key in
    let long : leb (length (nonce ++ box)) nonce_length ≡ false =
      ground (arith, length-append nonce box, tag (json.to_bytes config) nonce key, sized) in
    let head : take nonce_length (nonce ++ box) ≡ nonce =
      subst (λ k. take k (nonce ++ box) ≡ nonce) sized (take-append nonce box) in
    let rest : drop nonce_length (nonce ++ box) ≡ box =
      subst (λ k. drop k (nonce ++ box) ≡ box) sized (drop-append nonce box) in
    let opened : c.open_box (drop nonce_length (nonce ++ box)) (take nonce_length (nonce ++ box))
          key
        ≡ some (json.to_bytes config) =
      rw (head, rest) (opens (json.to_bytes config) nonce key) in
    rw long (ap (parsed json) opened ∙ ground (arith, back config))

abbrev kept : ConfigRow → Option ConfigRow → ConfigRow
kept row none = row
kept row (some old) = record row { path = old.path; created_at = old.created_at }

find_config-upsert :
    (row : ConfigRow) (rows : List ConfigRow)
    → find_config row.path (upsert row rows) ≡ some (kept row (find_config row.path rows))
unfolding find_config upsert first
find_config-upsert row [] = ground (arith, text_eq_iff row.path row.path)
find_config-upsert row (old ∷ rows) =
    ground (arith, text_eq_iff old.path row.path, find_config-upsert row rows)

config-kept : (row : ConfigRow) (o : Option ConfigRow) → (kept row o).config ≡ row.config
config-kept row none = refl
config-kept row (some old) = refl

abbrev config_of : ConfigRow → Dict Text → DynamicConfig
config_of r config = record {
  path = r.path;
  provider_type = r.provider_type;
  config = config;
  created_at = r.created_at;
  updated_at = r.updated_at;
}

-- A row that holds a sealed configuration reads as it.
get_config-row :
    (json : Json) (c : Crypto) (path : Text) (s : State) (r : ConfigRow) (config : Dict Text)
    → find_config path s.configs ≡ some r
    → decrypt_config json c s.config_key r.config ≡ done config
    → get_config json c path s ≡ done (some (config_of r config))
unfolding get_config
get_config-row json c path s r config found opened =
    ap (read_config json c s.config_key) found ∙ ap (with_config r) opened

save_config-run :
    (json : Json) (c : Crypto) (providers : Providers) (now : ℕ) (nonce : Bytes)
    (path provider_type : Text) (config : Dict Text) (p : Provider) (s : State)
    → get provider_type providers ≡ some p
    → select (is_missing config) p.required_config ≡ []
    → let t = write_config json c now nonce path provider_type (p.normalize_config config) s in
      save_config json c providers now nonce path provider_type config s
      ≡ (get_config json c path t, t)
unfolding save_config
save_config-run json c providers now nonce path provider_type config p s there complete =
    rw (there, save_config) (rw (complete, save_with) refl)

-- A configuration that has the keys its provider asks for is saved, and is then the one of the path,
-- as the provider normalizes it. What is sealed and what is written as JSON is read back, and the
-- nonce has its length.
pub save_config-reads :
    (json : Json) (c : Crypto) (providers : Providers) (now : ℕ) (nonce : Bytes)
    (path provider_type : Text) (config : Dict Text) (p : Provider) (s : State)
    → Opens c
    → HasTag c
    → ReadsBack json
    → length nonce ≡ nonce_length
    → get provider_type providers ≡ some p
    → select (is_missing config) p.required_config ≡ []
    → let (result, t) = save_config json c providers now nonce path provider_type config s in
      (saved : DynamicConfig) × (result ≡ done (some saved))
      × (get_config json c path t ≡ done (some saved))
      × (saved.config ≡ p.normalize_config config)
save_config-reads json c providers now nonce path provider_type config p s opens tag back sized
      there complete =
    let normal = p.normalize_config config in
    let t = write_config json c now nonce path provider_type normal s in
    let row : ConfigRow = record {
      path = path;
      provider_type = provider_type;
      config = encrypt_config json c s.config_key nonce normal;
      created_at = sql_datetime now;
      updated_at = sql_datetime now;
    } in
    let r = kept row (find_config path s.configs) in
    let opened =
      ap (decrypt_config json c s.config_key) (config-kept row (find_config path s.configs))
      ∙ decrypt_config-encrypt_config json c s.config_key nonce normal opens tag back sized in
    let reads = get_config-row json c path t r normal (find_config-upsert row s.configs) opened in
    let ran =
      save_config-run json c providers now nonce path provider_type config p s there complete in
    (
      config_of r normal,
      ap (λ x. x.0) ran ∙ reads,
      ap (λ x. get_config json c path x.1) ran ∙ reads,
      refl,
    )
