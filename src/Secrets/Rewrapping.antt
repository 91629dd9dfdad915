-- ===== src/Secrets/Rewrapping.antt =====
-- The loop of `rotateKEK` in secrets/engine.ts, on a table of which the rows have a key.
use gatehouse.Common.{
  ℕ, suc, ◌+◌, ◌≡◌, refl, inl, inr, sym, subst, ◌∙◌, ap, Bool, true, false, ◌&&◌, none, some, List,
  [], ◌∷◌, if◌then◌else◌, arith, Bool-cases, Option-cases, first, update_where, length,
}
use gatehouse.Common.Exec.{done, thrown}
use gatehouse.Common.Utf8.{Bytes}
use gatehouse.Secrets.Vault.{Crypto, Opens, Sealed, open_value, open_dek, decrypt, read_sealed}
use gatehouse.Secrets.Rekey.{rewrap, Table, rewrap, rewrap_rows, change}
use gatehouse.Secrets.Engine.{is_some}
use gatehouse.Secrets.Tables.{first-update_where, first-hit}

-- A row after the rotation: its data key, opened with the old key, is sealed with the new one.
pub decrypt-rewrap :
    (c : Crypto) (kek new_kek nonce dek : Bytes) (x : Sealed)
    → Opens c
    → open_dek c kek x ≡ some dek
    → decrypt c new_kek (rewrap c new_kek nonce dek x) ≡ decrypt c kek x
unfolding decrypt open_dek
decrypt-rewrap c kek new_kek nonce dek x opens e =
    ap (open_value c x) (opens dek nonce new_kek) ∙ sym (ap (open_value c x) e)

-- Every data key of the table opens.
unfoldable pub all_open : {A : Type 0} → Table A → Crypto → Bytes → List A → Bool
all_open t c kek [] = true
all_open t c kek (r ∷ rs) = is_some (open_dek c kek (t.sealed r)) && all_open t c kek rs

module _ {A : Type 0} (t : Table A) (c : Crypto) (kek new_kek : Bytes) (nonces : ℕ → Bytes) where
  abbrev changed : Bytes → ℕ → A → A
  changed dek n = change t c new_kek (nonces n) dek

  -- The round for a row that opens.
  rewrap_rows-round :
      (row : A) (rows table : List A) (n : ℕ) (dek : Bytes)
      → open_dek c kek (t.sealed row) ≡ some dek
      → rewrap_rows t c kek new_kek nonces (row ∷ rows) table n
        ≡ rewrap_rows t c kek new_kek nonces rows
            (update_where (t.same_key row) (changed dek n) table)
            (suc n)
  unfolding rewrap_rows
  rewrap_rows-round row rows table n dek e = rw (e, rewrap_rows) refl

  rewrap_rows-refused :
      (row : A) (rows table : List A) (n : ℕ)
      → open_dek c kek (t.sealed row) ≡ none
      → rewrap_rows t c kek new_kek nonces (row ∷ rows) table n ≡ thrown t.failure
  unfolding rewrap_rows
  rewrap_rows-refused row rows table n e = rw (e, rewrap_rows) refl

  pub rewrap_rows-done :
      (rows table : List A) (n : ℕ)
      → all_open t c kek rows ≡ true
      → (out : List A) × (rewrap_rows t c kek new_kek nonces rows table n
          ≡ done (out, n + length rows))
  rewrap_rows-done [] table n h = (table, unfold rewrap_rows in ground arith)
  rewrap_rows-done (r ∷ rs) table n h = elim (Option-cases (open_dek c kek (t.sealed r))) [
    | inl e ↦ absurd (unfold all_open in ground (arith, h))
    | inr (dek, e) ↦
        let (out, ran) =
          rewrap_rows-done rs (update_where (t.same_key r) (changed dek n) table) (suc n)
            (unfold all_open in ground (arith, h)) in
        (out, rewrap_rows-round r rs table n dek e ∙ ran ∙ ap (λ k. done (out, k)) (omega arith))
  ]

  pub rewrap_rows-thrown :
      (rows table : List A) (n : ℕ)
      → all_open t c kek rows ≡ false
      → rewrap_rows t c kek new_kek nonces rows table n ≡ thrown t.failure
  rewrap_rows-thrown [] table n h = absurd (unfold all_open in cc h)
  rewrap_rows-thrown (r ∷ rs) table n h = elim (Option-cases (open_dek c kek (t.sealed r))) [
    | inl e ↦ rewrap_rows-refused r rs table n e
    | inr (dek, e) ↦
        rewrap_rows-round r rs table n dek e
        ∙ rewrap_rows-thrown rs (update_where (t.same_key r) (changed dek n) table) (suc n)
            (unfold all_open in ground (arith, h))
  ]

-- `q` asks for one key of the table.
pub record IsKey {A : Type 0} (t : Table A) (q : A → Bool) : Type 0 where
  pub sealed-write : (x : Sealed) (r : A) → t.sealed (t.write x r) ≡ x
  pub key-write : (x : Sealed) (r : A) → q (t.write x r) ≡ q r
  pub same : (r x : A) → q r ≡ true → t.same_key r x ≡ q x
  pub other : (r x : A) → q r ≡ false → q x ≡ true → t.same_key r x ≡ false

-- No two rows have the same key.
abbrev pub Unique : {A : Type 0} → (A → A → Bool) → List A → Type 0
Unique same_key [] = Unit {0}
Unique same_key (r ∷ rs) = (first (same_key r) rs ≡ none) × Unique same_key rs

module _ {A : Type 0} (t : Table A) (q : A → Bool) (key : IsKey t q) where
  first-same : (r : A) (xs : List A) → q r ≡ true → first (t.same_key r) xs ≡ first q xs
  unfolding first
  first-same r [] h = refl
  first-same r (x ∷ xs) h = ground (arith, key.same r x h, first-same r xs h)

  module _ (c : Crypto) (kek new_kek : Bytes) (nonces : ℕ → Bytes) where
    first-change :
        (row : A) (dek : Bytes) (n : ℕ) (table : List A)
        → first q (update_where (t.same_key row) (changed t c kek new_kek nonces dek n) table)
          ≡ elim (first q table) [
            | none ↦ none
            | some x ↦ some (if t.same_key row x then changed t c kek new_kek nonces dek n x else x)
          ]
    first-change row dek n table =
        first-update_where q (t.same_key row) (changed t c kek new_kek nonces dek n) table
          (λ x. key.key-write _ x)

    first-missed :
        (row : A) (dek : Bytes) (n : ℕ) (table : List A)
        → q row ≡ false
        → first q (update_where (t.same_key row) (changed t c kek new_kek nonces dek n) table)
          ≡ first q table
    first-missed row dek n table miss = elim (Option-cases (first q table)) [
      | inl e ↦ first-change row dek n table ∙ rw e refl
      | inr (x, e) ↦
          ground (arith, first-change row dek n table, key.other row x miss (first-hit q table x e))
    ]

    first-absent :
        (row : A) (rows : List A)
        → first q (row ∷ rows) ≡ none
        → (q row ≡ false) × (first q rows ≡ none)
    unfolding first
    first-absent row rows h = ground arith

    first-past : (row : A) (rows : List A) → q row ≡ false → first q (row ∷ rows) ≡ first q rows
    unfolding first
    first-past row rows h = ground arith

    first-here : (row : A) (rows : List A) → q row ≡ true → first q (row ∷ rows) ≡ some row
    unfolding first
    first-here row rows h = ground arith

    -- A key that no row to come has keeps its row.
    rewrap_rows-other :
        (rows table : List A) (n : ℕ) (out : List A × ℕ)
        → rewrap_rows t c kek new_kek nonces rows table n ≡ done out
        → first q rows ≡ none
        → first q out.0 ≡ first q table
    rewrap_rows-other [] table n out h gone = unfold rewrap_rows in ground (arith, h)
    rewrap_rows-other (row ∷ rows) table n out h gone =
        elim (Option-cases (open_dek c kek (t.sealed row))) [
          | inl e ↦ absurd (cc (h, rewrap_rows-refused t c kek new_kek nonces row rows table n e))
          | inr (dek, e) ↦
              let (miss, gone') = first-absent row rows gone in
              rewrap_rows-other rows
                (update_where (t.same_key row) (changed t c kek new_kek nonces dek n) table) (suc n)
                out (sym (rewrap_rows-round t c kek new_kek nonces row rows table n dek e) ∙ h)
                gone'
              ∙ first-missed row dek n table miss
        ]

    -- A key of which the row is still to come: it reads with the new key as it did with the old.
    rewrap_rows-reads :
        (rows table : List A) (n : ℕ) (out : List A × ℕ) (r : A)
        → Opens c
        → Unique t.same_key rows
        → rewrap_rows t c kek new_kek nonces rows table n ≡ done out
        → first q rows ≡ some r
        → first q table ≡ some r
        → read_sealed c new_kek t.sealed (first q out.0) ≡ decrypt c kek (t.sealed r)
    rewrap_rows-reads [] table n out r opens u h there same = absurd (unfold first in cc there)
    rewrap_rows-reads (row ∷ rows) table n out r opens u h there same =
        elim (Option-cases (open_dek c kek (t.sealed row))) [
          | inl e ↦ absurd (cc (h, rewrap_rows-refused t c kek new_kek nonces row rows table n e))
          | inr (dek, e) ↦ elim (Bool-cases (q row)) [
            | inl hit ↦
                let written =
                  update_where (t.same_key row) (changed t c kek new_kek nonces dek n) table in
                let same_row : row ≡ r = ground (arith, first-here row rows hit) in
                let kept =
                  rewrap_rows-other rows written (suc n) out
                    (sym (rewrap_rows-round t c kek new_kek nonces row rows table n dek e) ∙ h)
                    (sym (first-same row rows hit) ∙ u.0) in
                let found : first q written ≡ some (changed t c kek new_kek nonces dek n r) =
                  ground (arith, first-change row dek n table, key.same row r hit) in
                let dek_of : open_dek c kek (t.sealed r) ≡ some dek =
                  subst (λ x. open_dek c kek (t.sealed x) ≡ some dek) same_row e in
                ap (read_sealed c new_kek t.sealed) (kept ∙ found)
                ∙ ap (decrypt c new_kek)
                    (key.sealed-write (rewrap c new_kek (nonces n) dek (t.sealed r)) r)
                ∙ decrypt-rewrap c kek new_kek (nonces n) dek (t.sealed r) opens dek_of
            | inr miss ↦
                rewrap_rows-reads rows
                  (update_where (t.same_key row) (changed t c kek new_kek nonces dek n) table)
                  (suc n) out r opens u.1
                  (sym (rewrap_rows-round t c kek new_kek nonces row rows table n dek e) ∙ h)
                  (sym (first-past row rows miss) ∙ there)
                  (first-missed row dek n table miss ∙ same)
          ]
        ]

    -- On the table that was read, every key reads with the new key as it did with the old one.
    pub rewrap_rows-same :
        (rows : List A) (n : ℕ) (out : List A × ℕ)
        → Opens c
        → Unique t.same_key rows
        → rewrap_rows t c kek new_kek nonces rows rows n ≡ done out
        → read_sealed c new_kek t.sealed (first q out.0) ≡ read_sealed c kek t.sealed (first q rows)
    rewrap_rows-same rows n out opens u h = elim (Option-cases (first q rows)) [
      | inl e ↦
          ap (read_sealed c new_kek t.sealed) (rewrap_rows-other rows rows n out h e ∙ e)
          ∙ sym (ap (read_sealed c kek t.sealed) e)
      | inr (r, e) ↦
          rewrap_rows-reads rows rows n out r opens u h e e
          ∙ sym (ap (read_sealed c kek t.sealed) e)
    ]
