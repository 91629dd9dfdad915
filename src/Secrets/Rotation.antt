-- ===== src/Secrets/Rotation.antt =====
-- What a change of the master key by secrets/engine.ts does to what can be read.
use gatehouse.Common.{
  ℕ, ◌≡◌, refl, inl, inr, ◌∙◌, ap, Text, text_eq_iff, Bool, true, false, ◌&&◌, if◌then◌else◌, arith,
  Bool-cases, codes, length, List, ◌+◌,
}
use gatehouse.Common.Exec.{done, thrown}
use gatehouse.Common.Utf8.{Bytes}
use gatehouse.Secrets.Vault.{
  Crypto, Opens, SecretRow, VersionRow, Vault, rotation_failed, archived_rotation_failed,
  find_secret, find_version, get, get_version, has_path, is_version, derive_key,
}
use gatehouse.Secrets.Rekey.{rewrap_rows, secrets_table, versions_table, rotate_kek}
use gatehouse.Secrets.Rewrapping.{
  IsKey, Unique, all_open, rewrap_rows-same, rewrap_rows-done, rewrap_rows-thrown,
}

-- `path` is the key of the secrets, and path and version are that of the versions.
abbrev pub IsUnique : Vault → Type 0
IsUnique s =
    Unique (λ row. has_path row.path) s.secrets
    × Unique (λ row. is_version row.path row.version) s.versions

path-IsKey : (now : ℕ) (path : Text) → IsKey (secrets_table now) (has_path path)
path-IsKey now path = record {
  sealed-write = λ x r. refl;
  key-write = λ x r. refl;
  same = λ r x h. ground (arith, text_eq_iff r.path path);
  other = λ r x h k.
      ground (arith, text_eq_iff r.path path, text_eq_iff x.path path, text_eq_iff x.path r.path);
}

version-IsKey : (path : Text) (n : ℕ) → IsKey versions_table (is_version path n)
version-IsKey path n = record {
  sealed-write = λ x r. refl;
  key-write = λ x r. refl;
  same = λ r x h. ground (arith, text_eq_iff r.path path);
  other = λ r x h k.
      ground (arith, text_eq_iff r.path path, text_eq_iff x.path path, text_eq_iff x.path r.path);
}

module _ (c : Crypto) (now : ℕ) (nonces : ℕ → Bytes) (master : Bytes) (s : Vault) where
  abbrev new_key : Bytes
  new_key = derive_key c master (codes "gatehouse-kek")

  abbrev secrets_open : Bool
  secrets_open = all_open (secrets_table now) c s.kek s.secrets

  abbrev versions_open : Bool
  versions_open = all_open versions_table c s.kek s.versions

  -- Both loops end well, and their tables are stored with the new key.
  abbrev Rotated : Type 0
  Rotated =
      (secrets : List SecretRow) × (versions : List VersionRow) × (all : ℕ) × (rewrap_rows
          (secrets_table now) c s.kek new_key nonces s.secrets s.secrets 0
        ≡ done (secrets, length s.secrets))
      × (rewrap_rows versions_table c s.kek new_key nonces s.versions s.versions (length s.secrets)
          ≡ done (versions, all))
      × (rotate_kek c now nonces master s ≡ (
        done (length s.secrets),
        record s { kek = new_key; secrets = secrets; versions = versions },
      ))

  secrets-done :
      secrets_open ≡ true
      → (out : List SecretRow) × (rewrap_rows
            (secrets_table now)
            c
            s.kek
            new_key
            nonces
            s.secrets
            s.secrets
            0
          ≡ done (out, length s.secrets))
  secrets-done a =
      let (out, e) =
        rewrap_rows-done (secrets_table now) c s.kek new_key nonces s.secrets s.secrets 0 a in
      (out, e ∙ ap (λ k. done (out, k)) (omega arith))

  rotate_kek-done : secrets_open ≡ true → versions_open ≡ true → Rotated
  unfolding rotate_kek
  rotate_kek-done a b =
      let (secrets, e) = secrets-done a in
      let (versions, f) =
        rewrap_rows-done versions_table c s.kek new_key nonces s.versions s.versions
          (length s.secrets) b in
      (secrets, versions, length s.secrets + length s.versions, e, f, rw (rotate_kek, e, f) refl)

  rotate_kek-thrown :
      secrets_open ≡ false → rotate_kek c now nonces master s ≡ (thrown rotation_failed, s)
  unfolding rotate_kek
  rotate_kek-thrown a =
      rw
        (
          rewrap_rows-thrown (secrets_table now) c s.kek new_key nonces s.secrets s.secrets 0 a,
          rotate_kek,
        )
        refl

  rotate_kek-archived :
      secrets_open ≡ true
      → versions_open ≡ false
      → rotate_kek c now nonces master s ≡ (thrown archived_rotation_failed, s)
  unfolding rotate_kek
  rotate_kek-archived a b =
      let (secrets, e) = secrets-done a in
      rw
        (
          e,
          rewrap_rows-thrown versions_table c s.kek new_key nonces s.versions s.versions
              (length s.secrets) b,
          rotate_kek,
        )
        refl

  -- A rotation counts the secrets if every data key opens, of the secrets and of the versions. If
  -- one does not open, the rotation throws, and the tables and the key stay as they were.
  pub rotate_kek-outcome : rotate_kek c now nonces master s ≡ (
      if secrets_open && versions_open
      then (done (length s.secrets), (rotate_kek c now nonces master s).1)
      else (thrown (if secrets_open then archived_rotation_failed else rotation_failed), s))
  rotate_kek-outcome = elim (Bool-cases secrets_open) [
    | inr a ↦ rotate_kek-thrown a ∙ rw a refl
    | inl a ↦ elim (Bool-cases versions_open) [
      | inr b ↦ rotate_kek-archived a b ∙ rw (a, b) refl
      | inl b ↦ let (secrets, versions, all, e, f, ran) = rotate_kek-done a b in ground arith
    ]
  ]

  -- A rotation changes no value: each path and each version reads as before it, whether it ends well
  -- or not. Sealed boxes open by their keys, and the tables have their keys.
  pub rotate_kek-reads :
      (path q : Text) (n : ℕ)
      → Opens c
      → IsUnique s
      → (get c path (rotate_kek c now nonces master s).1 ≡ get c path s)
        × (get_version c q n (rotate_kek c now nonces master s).1 ≡ get_version c q n s)
  unfolding get get_version find_secret find_version
  rotate_kek-reads path q n opens u = elim (Bool-cases (secrets_open && versions_open)) [
    | inr a ↦
        let kept : (rotate_kek c now nonces master s).1 ≡ s = ground (arith, rotate_kek-outcome) in
        (ap (get c path) kept, ap (get_version c q n) kept)
    | inl a ↦
        let (secrets, versions, all, e, f, ran) =
          rotate_kek-done (ground (arith, a)) (ground (arith, a)) in
        let kept = ap (λ r. r.1) ran in
        (
          ap (get c path) kept
              ∙ rewrap_rows-same (secrets_table now) (has_path path) (path-IsKey now path) c s.kek
                  new_key nonces s.secrets 0 (secrets, length s.secrets) opens u.0 e,
          ap (get_version c q n) kept
              ∙ rewrap_rows-same versions_table (is_version q n) (version-IsKey q n) c s.kek new_key
                  nonces s.versions (length s.secrets) (versions, all) opens u.1 f,
        )
  ]
