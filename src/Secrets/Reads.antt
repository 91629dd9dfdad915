-- ===== src/Secrets/Reads.antt =====
-- What a value written by secrets/engine.ts reads as, at its path and in its versions.
use gatehouse.Common.{
  ℕ, ◌==◌, ◌≡◌, refl, inl, inr, ◌∙◌, ap, Text, text_eq, text_eq_iff, Bool, true, false, ◌&&◌,
  Option, none, some, List, [], ◌∷◌, ltb, if◌then◌else◌, All, arith, Option-cases, first,
}
use gatehouse.Common.Dict.{Dict}
use gatehouse.Common.Exec.{done}
use gatehouse.Common.Utf8.{Bytes, encode, is_plain_text, decode-encode}
use gatehouse.Secrets.Vault.{
  Crypto, Opens, SecretRow, VersionRow, Vault, Draw, find_secret, find_version, seal_value,
  open_value, text_of, open_dek, decrypt, get, get_version,
}
use gatehouse.Secrets.Engine.{next_version, new_row, put_row, put, rollback, metadata_of}
use gatehouse.Secrets.Tables.{
  find_secret-path, find_secret-upsert, sealed-upserted, find_version-archive,
}

decrypt-seal_value :
    (c : Crypto) (kek : Bytes) (draw : Draw) (value : Text)
    → Opens c
    → is_plain_text value ≡ true
    → decrypt c kek (seal_value c kek draw value) ≡ done (some value)
unfolding decrypt seal_value open_dek
decrypt-seal_value c kek draw value opens plain =
    let x = seal_value c kek draw value in
    ap (open_value c x) (opens draw.dek draw.dek_nonce kek)
    ∙ ap text_of (opens (encode value) draw.value_nonce draw.dek)
    ∙ ap (λ t. done (some t)) (decode-encode value plain)

-- A value that is put at a path is read there, and every other path reads as before. The value has
-- no lone surrogate and does not start with a byte order mark.
pub put-get :
    (c : Crypto) (now : ℕ) (draw : Draw) (path q value : Text) (metadata : Dict Text) (s : Vault)
    → Opens c
    → is_plain_text value ≡ true
    → get c q (put c now draw path value metadata s).1
      ≡ (if text_eq path q then done (some value) else get c q s)
unfolding get put put_row
put-get c now draw path q value metadata s opens plain =
    let row =
      new_row now path (seal_value c s.kek draw value) metadata
        (next_version (find_secret path s.secrets)) in
    ground (
      arith,
      find_secret-upsert q row s.secrets,
      sealed-upserted row (find_secret path s.secrets),
      decrypt-seal_value c s.kek draw value opens plain,
    )

-- The version that a row has in the table, and whether a version row is older than it.
abbrev pub is_older : VersionRow → Option SecretRow → Bool
is_older v none = false
is_older v (some row) = ltb v.version row.version

-- What is archived of a path is older than what the path holds.
abbrev pub IsOrdered : Vault → Type 0
IsOrdered s = All (λ v. is_older v (find_secret v.path s.secrets) ≡ true) s.versions

abbrev pub is_current : ℕ → Option SecretRow → Bool
is_current n none = false
is_current n (some row) = row.version == n

pub IsOrdered-new :
    (path : Text) (row : SecretRow) (secrets : List SecretRow) (versions : List VersionRow)
    → find_secret path secrets ≡ some row
    → All (λ v. is_older v (find_secret v.path secrets) ≡ true) versions
    → find_version path row.version versions ≡ none
unfolding find_version first
IsOrdered-new path row secrets [] h o = refl
IsOrdered-new path row secrets (v ∷ vs) h o =
    ground (arith, text_eq_iff v.path path, IsOrdered-new path row secrets vs h o.1)

-- What a path held is kept as a version when a value is put there, and every other version reads as
-- before, where all versions are older than what their paths hold.
pub put-get_version :
    (c : Crypto) (now n : ℕ) (draw : Draw) (path q value : Text) (metadata : Dict Text) (s : Vault)
    → IsOrdered s
    → get_version c q n (put c now draw path value metadata s).1 ≡ (
        if text_eq path q && is_current n (find_secret path s.secrets)
        then get c path s
        else get_version c q n s)
unfolding get get_version put put_row
put-get_version c now n draw path q value metadata s ordered =
    elim (Option-cases (find_secret path s.secrets)) [
      | inl e ↦ ground arith
      | inr (row, e) ↦ ground (
        arith,
        find_secret-path path s.secrets row e,
        IsOrdered-new path row s.secrets s.versions e ordered,
        find_version-archive q n now row s.versions,
      )
    ]

-- A version that reads as a plain text is what its path reads after a rollback to it.
pub rollback-get :
    (c : Crypto) (now n : ℕ) (draw : Draw) (path value : Text) (s : Vault)
    → Opens c
    → get_version c path n s ≡ done (some value)
    → is_plain_text value ≡ true
    → get c path (rollback c now draw path n s).1 ≡ get_version c path n s
unfolding rollback
rollback-get c now n draw path value s opens there plain =
    rw (there, rollback)
      (ground (
        arith,
        put-get c now draw path path value (metadata_of (find_version path n s.versions)) s opens
            plain,
        text_eq_iff path path,
      ))
