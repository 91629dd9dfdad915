-- ===== src/Secrets/Vault.antt =====
-- The data of secrets/engine.ts: the tables `secrets` and `secret_versions`, what reads them, and
-- the encryption of a value. The `metadata` column is the dictionary that its JSON text stands for.
-- A row of `secret_versions` is named by its path and version, which are unique as its `id` is.
use gatehouse.Common.{
  ℕ, ◌==◌, Text, text_eq, codes, ◌≡◌, Bool, true, false, ◌&&◌, Option, none, some, List, ◌∷◌, leb,
  select, first, sort_by, map,
}
use gatehouse.Common.Dict.{Dict}
use gatehouse.Common.Exec.{Outcome, done, thrown}
use gatehouse.Common.Utf8.{Bytes, encode, decode}

-- `nacl.secretbox`, `nacl.secretbox.open` and `hkdfSync`, on buffers of the lengths they ask for.
pub record Crypto : Type 0 where
  pub seal : Bytes → Bytes → Bytes → Bytes
  pub open_box : Bytes → Bytes → Bytes → Option Bytes
  pub hkdf : Bytes → Text → Text → ℕ → Bytes

-- What is sealed is opened by the nonce and the key that sealed it.
abbrev pub Opens : Crypto → Type 0
Opens c =
    (message nonce key : Bytes) → c.open_box (c.seal message nonce key) nonce key ≡ some message

-- The four columns of an encrypted value.
pub record Sealed : Type 0 where
  pub encrypted_value : Bytes
  pub nonce : Bytes
  pub encrypted_dek : Bytes
  pub dek_nonce : Bytes

pub record SecretRow : Type 0 where
  pub path : Text
  pub sealed : Sealed
  pub metadata : Dict Text
  pub version : ℕ
  pub created_at : ℕ
  pub updated_at : ℕ
  pub last_accessed_at : Option ℕ

pub record VersionRow : Type 0 where
  pub path : Text
  pub version : ℕ
  pub sealed : Sealed
  pub metadata : Dict Text
  pub archived_at : ℕ

-- The engine's key and the tables that it writes.
pub record Vault : Type 0 where
  pub kek : Bytes
  pub secrets : List SecretRow
  pub versions : List VersionRow

pub data VaultError : Type 0 where
  dek_failed value_failed rotation_failed archived_rotation_failed : VaultError

-- What a method draws from the random source.
pub record Draw : Type 0 where
  pub dek : Bytes
  pub value_nonce : Bytes
  pub dek_nonce : Bytes

pub record StoredSecret : Type 0 where
  pub path : Text
  pub metadata : Dict Text
  pub version : ℕ
  pub created_at : ℕ
  pub updated_at : ℕ
  pub last_accessed_at : Option ℕ

unfoldable pub derive_key : Crypto → Bytes → Text → Bytes
derive_key c master purpose = c.hkdf master (codes "gatehouse-v1") purpose 32

abbrev pub has_path : Text → SecretRow → Bool
has_path path row = text_eq row.path path

abbrev pub is_version : Text → ℕ → VersionRow → Bool
is_version path n row = text_eq row.path path && row.version == n

unfoldable pub find_secret : Text → List SecretRow → Option SecretRow
find_secret path rows = first (has_path path) rows

unfoldable pub find_version : Text → ℕ → List VersionRow → Option VersionRow
find_version path n rows = first (is_version path n) rows

-- A value under a new data key, and that key under the engine's.
unfoldable pub seal_value : Crypto → Bytes → Draw → Text → Sealed
seal_value c kek draw value = record {
  encrypted_value = c.seal (encode value) draw.value_nonce draw.dek;
  nonce = draw.value_nonce;
  encrypted_dek = c.seal draw.dek draw.dek_nonce kek;
  dek_nonce = draw.dek_nonce;
}

unfoldable pub open_dek : Crypto → Bytes → Sealed → Option Bytes
open_dek c kek x = c.open_box x.encrypted_dek x.dek_nonce kek

abbrev pub text_of : Option Bytes → Outcome VaultError (Option Text)
text_of none = thrown value_failed
text_of (some value) = done (some (decode value))

abbrev pub open_value : Crypto → Sealed → Option Bytes → Outcome VaultError (Option Text)
open_value c x none = thrown dek_failed
open_value c x (some dek) = text_of (c.open_box x.encrypted_value x.nonce dek)

unfoldable pub decrypt : Crypto → Bytes → Sealed → Outcome VaultError (Option Text)
decrypt c kek x = open_value c x (open_dek c kek x)

-- The value of the row that a query found.
abbrev pub read_sealed {ℓ} :
    {A : Type ℓ} → Crypto → Bytes → (A → Sealed) → Option A → Outcome VaultError (Option Text)
read_sealed c kek sealed none = done none
read_sealed c kek sealed (some row) = decrypt c kek (sealed row)

unfoldable pub get : Crypto → Text → Vault → Outcome VaultError (Option Text)
get c path s = read_sealed c s.kek (λ row. row.sealed) (find_secret path s.secrets)

unfoldable pub get_version : Crypto → Text → ℕ → Vault → Outcome VaultError (Option Text)
get_version c path n s = read_sealed c s.kek (λ row. row.sealed) (find_version path n s.versions)

abbrev pub stored : SecretRow → StoredSecret
stored row = record {
  path = row.path;
  metadata = row.metadata;
  version = row.version;
  created_at = row.created_at;
  updated_at = row.updated_at;
  last_accessed_at = row.last_accessed_at;
}

unfoldable pub get_meta : Text → Vault → Option StoredSecret
get_meta path s = elim (find_secret path s.secrets) [ none ↦ none | some row ↦ some (stored row) ]

unfoldable pub exists : Text → Vault → Bool
exists path s = elim (find_secret path s.secrets) [ none ↦ false | some row ↦ true ]

pub record ListedVersion : Type 0 where
  pub version : ℕ
  pub metadata : Dict Text
  pub archived_at : ℕ
  pub current : Bool

abbrev pub newer : VersionRow → VersionRow → Bool
newer y x = leb x.version y.version

abbrev pub archived : VersionRow → ListedVersion
archived row = record {
  version = row.version;
  metadata = row.metadata;
  archived_at = row.archived_at;
  current = false;
}

abbrev pub listed_current : SecretRow → ListedVersion
listed_current row = record {
  version = row.version;
  metadata = row.metadata;
  archived_at = row.updated_at;
  current = true;
}

unfoldable pub history_of : Text → List VersionRow → List VersionRow
history_of path rows = sort_by newer (select (λ row. text_eq row.path path) rows)

unfoldable pub list_versions : Text → Vault → List ListedVersion
unfolding history_of
list_versions path s =
    let past = map archived (history_of path s.versions) in
    elim (find_secret path s.secrets) [ none ↦ past | some row ↦ listed_current row ∷ past ]
