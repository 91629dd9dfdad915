-- ===== src/Rotate/Spent.antt =====
-- A link of api/rotate.ts that is consumed stays consumed, whatever a handler does.
use gatehouse.Common.{
  ℕ, ◌+◌, ◌≤◌, ◌<◌, ◌≡◌, refl, inl, inr, subst, Text, text_eq, text_eq_iff, Bool, false, ◌&&◌,
  Option, none, some, List, [], ◌∷◌, ◌++◌, if◌then◌else◌, arith, Bool-cases, Option-cases, first,
  update_where, count_where, trim,
}
use gatehouse.Rotate.Hits.{Hit, ok, retry_after}
use gatehouse.Rotate.Tokens.{
  Token, Role, State, Library, Body, find_role, has_hash, is_unused, is_live, find_live, hash_token,
  require_admin_identity, ttl_of,
}
use gatehouse.Rotate.Links.{
  Request, is_taken, new_token, insert_link, create_with_ttl, create_for_role, create_for_id,
  create_from, create_by, create_after, fetch_row,
}
use gatehouse.Rotate.Exchange.{
  Pending, is_refused, is_suspended, allowlist_of, consume, check_row, start_row, start_after,
  commit, finish_exchange,
}

abbrev pub is_unused_of : Text → Token → Bool
is_unused_of hash t = has_hash hash t && is_unused t

-- A link is there, and it is consumed.
abbrev pub IsSpent : Text → List Token → Type 0
IsSpent hash tokens =
    (0 < count_where (has_hash hash) tokens) × (count_where (is_unused_of hash) tokens ≡ 0)

pub count_where-consume :
    (hash : Text) (p : Token → Bool) (now : ℕ) (ip : Text) (ts : List Token)
    → count_where (has_hash hash) (update_where p (consume now ip) ts)
      ≡ count_where (has_hash hash) ts
unfolding count_where update_where
count_where-consume hash p now ip [] = refl
count_where-consume hash p now ip (t ∷ ts) = ground (arith, count_where-consume hash p now ip ts)

unused-consume :
    (hash : Text) (p : Token → Bool) (now : ℕ) (ip : Text) (ts : List Token)
    → count_where (is_unused_of hash) (update_where p (consume now ip) ts)
      ≤ count_where (is_unused_of hash) ts
unfolding count_where update_where
unused-consume hash p now ip [] = omega arith
unused-consume hash p now ip (t ∷ ts) = ground (arith, unused-consume hash p now ip ts)

-- A commit takes the live links out of the unused ones.
pub unused-commit :
    (hash : Text) (now at : ℕ) (ip : Text) (ts : List Token)
    → count_where (is_unused_of hash) (update_where (is_live now hash) (consume at ip) ts)
        + count_where (is_live now hash) ts
      ≡ count_where (is_unused_of hash) ts
unfolding count_where update_where
unused-commit hash now at ip [] = omega arith
unused-commit hash now at ip (t ∷ ts) = ground (arith, unused-commit hash now at ip ts)

pub unused-le :
    (hash : Text) (ts : List Token)
    → count_where (is_unused_of hash) ts ≤ count_where (has_hash hash) ts
unfolding count_where
unused-le hash [] = omega arith
unused-le hash (t ∷ ts) = ground (arith, unused-le hash ts)

pub live-le :
    (hash : Text) (now : ℕ) (ts : List Token)
    → count_where (is_live now hash) ts ≤ count_where (is_unused_of hash) ts
unfolding count_where
live-le hash now [] = omega arith
live-le hash now (t ∷ ts) = ground (arith, live-le hash now ts)

pub count_where-append :
    (p : Token → Bool) (t : Token) (ts : List Token)
    → count_where p (ts ++ t ∷ []) ≡ count_where p ts + (if p t then 1 else 0)
unfolding count_where
count_where-append p t [] = ground arith
count_where-append p t (x ∷ ts) = ground (arith, count_where-append p t ts)

pub first-absent-count :
    (p : Token → Bool) (ts : List Token) → first p ts ≡ none → count_where p ts ≡ 0
unfolding first count_where
first-absent-count p [] h = refl
first-absent-count p (t ∷ ts) h = ground (arith, first-absent-count p ts)

pub count-first-absent :
    (p : Token → Bool) (ts : List Token) → count_where p ts ≡ 0 → first p ts ≡ none
unfolding first count_where
count-first-absent p [] h = refl
count-first-absent p (t ∷ ts) h = ground (arith, count-first-absent p ts)

pub consume-IsSpent :
    (hash : Text) (p : Token → Bool) (now : ℕ) (ip : Text) (ts : List Token)
    → IsSpent hash ts
    → IsSpent hash (update_where p (consume now ip) ts)
consume-IsSpent hash p now ip ts h = (
  omega (arith, count_where-consume hash p now ip ts),
  omega (arith, unused-consume hash p now ip ts),
)

pub not_taken :
    (id hash : Text) (ts : List Token)
    → is_taken id hash ts ≡ none
    → first (has_hash hash) ts ≡ none
unfolding is_taken
not_taken id hash ts h = elim (Option-cases (first (has_hash hash) ts)) [
  | inl e ↦ e
  | inr (t, e) ↦ absurd (ground (arith, h))
]

-- The hash of a new link is on no row.
append-IsSpent :
    (hash : Text) (t : Token) (ts : List Token)
    → is_taken t.id t.token_hash ts ≡ none
    → IsSpent hash ts
    → IsSpent hash (ts ++ t ∷ [])
append-IsSpent hash t ts new h =
    let absent =
      first-absent-count (has_hash t.token_hash) ts (not_taken t.id t.token_hash ts new) in
    let differs : text_eq t.token_hash hash ≡ false =
      elim (Bool-cases (text_eq t.token_hash hash)) [
        | inr e ↦ e
        | inl e ↦ absurd (
            let same = (text_eq_iff t.token_hash hash).0 e in
            omega (arith, subst (λ k. count_where (has_hash k) ts ≡ 0) same absent))
      ] in
    (
      omega (arith, count_where-append (has_hash hash) t ts),
      ground (arith, count_where-append (is_unused_of hash) t ts, differs),
    )

insert_link-IsSpent :
    (hash : Text) (lib : Library) (r : Request) (identity : Text) (role : Role) (ttl : ℕ)
    (label : Option Text) (s : State)
    → IsSpent hash s.tokens
    → IsSpent hash (insert_link lib r identity role ttl label s).1.tokens
unfolding insert_link
insert_link-IsSpent hash lib r identity role ttl label s h =
    let t = new_token lib r identity role.role_id ttl label in
    elim (Option-cases (is_taken t.id t.token_hash s.tokens)) [
      | inl e ↦ rw (e, insert_link) (append-IsSpent hash t s.tokens e h)
      | inr (old, e) ↦ rw (e, insert_link) h
    ]

module _ (hash : Text) where
  create_with_ttl-IsSpent :
      (lib : Library) (r : Request) (identity : Text) (role : Role) (label : Text) (ttl : Option ℕ)
      (s : State)
      → IsSpent hash s.tokens
      → IsSpent hash (create_with_ttl lib r identity role label ttl s).1.tokens
  create_with_ttl-IsSpent lib r identity role label none s h = h
  create_with_ttl-IsSpent lib r identity role label (some ttl) s h =
      insert_link-IsSpent hash lib r identity role ttl _ s h

  create_for_role-IsSpent :
      (lib : Library) (r : Request) (identity : Text) (body : Body) (role : Option Role) (s : State)
      → IsSpent hash s.tokens
      → IsSpent hash (create_for_role lib r identity body role s).1.tokens
  create_for_role-IsSpent lib r identity body none s h = h
  create_for_role-IsSpent lib r identity body (some role) s h =
      create_with_ttl-IsSpent lib r identity role body.label (ttl_of body.ttl_seconds) s h

  create_for_id-IsSpent :
      (lib : Library) (r : Request) (identity : Text) (body : Body) (id : Text) (s : State)
      → IsSpent hash s.tokens
      → IsSpent hash (create_for_id lib r identity body id s).1.tokens
  create_for_id-IsSpent lib r identity body [] s h = h
  create_for_id-IsSpent lib r identity body (c ∷ cs) s h =
      create_for_role-IsSpent lib r identity body (find_role (c ∷ cs) s.roles) s h

  create_from-IsSpent :
      (lib : Library) (r : Request) (identity : Text) (body : Option Body) (s : State)
      → IsSpent hash s.tokens
      → IsSpent hash (create_from lib r identity body s).1.tokens
  create_from-IsSpent lib r identity none s h = h
  create_from-IsSpent lib r identity (some body) s h =
      create_for_id-IsSpent lib r identity body (trim body.role_id) s h

  create_by-IsSpent :
      (lib : Library) (r : Request) (identity : Option Text) (s : State)
      → IsSpent hash s.tokens
      → IsSpent hash (create_by lib r identity s).1.tokens
  create_by-IsSpent lib r none s h = h
  create_by-IsSpent lib r (some identity) s h = create_from-IsSpent lib r identity r.body s h

  pub create_after-IsSpent :
      (lib : Library) (r : Request) (answer : Hit) (s : State)
      → IsSpent hash s.tokens
      → IsSpent hash (create_after lib r answer s).1.tokens
  create_after-IsSpent lib r (retry_after n) s h = h
  create_after-IsSpent lib r ok s h =
      create_by-IsSpent lib r (require_admin_identity lib r.authorization) s h

  pub fetch_row-tokens :
      (ip : Option Text) (token : Text) (t : Option Token) (s : State)
      → (fetch_row ip token t s).1.tokens ≡ s.tokens
  fetch_row-tokens ip token none s = refl
  fetch_row-tokens ip token (some t) s = refl

  check_row-IsSpent :
      (now : ℕ) (ip h : Text) (t : Token) (s : State)
      → IsSpent hash s.tokens
      → IsSpent hash (check_row now ip h t s).1.tokens
  unfolding check_row
  check_row-IsSpent now ip h t s spent =
      let role = find_role t.role_id s.roles in
      elim (Bool-cases (is_refused ip (allowlist_of role))) [
        | inl a ↦ rw (a, check_row) spent
        | inr a ↦ elim (Bool-cases (is_suspended role)) [
          | inl b ↦
              rw (a, b, check_row)
                (consume-IsSpent hash (λ x. text_eq x.id t.id && is_unused x) now ip s.tokens spent)
          | inr b ↦ rw (a, b, check_row) spent
        ]
      ]

  start_row-IsSpent :
      (now : ℕ) (ip h : Text) (t : Option Token) (s : State)
      → IsSpent hash s.tokens
      → IsSpent hash (start_row now ip h t s).1.tokens
  start_row-IsSpent now ip h none s spent = spent
  start_row-IsSpent now ip h (some t) s spent = check_row-IsSpent now ip h t s spent

  pub start_after-IsSpent :
      (lib : Library) (now : ℕ) (ip token : Text) (answer : Hit) (s : State)
      → IsSpent hash s.tokens
      → IsSpent hash (start_after lib now ip token answer s).1.tokens
  start_after-IsSpent lib now ip token (retry_after n) s spent = spent
  start_after-IsSpent lib now ip token ok s spent =
      start_row-IsSpent now ip (hash_token lib token)
        (find_live now (hash_token lib token) s.tokens) s spent

  pub finish-tokens :
      (now : ℕ) (p : Pending) (secret_id secret_hash : Text) (s : State)
      → (finish_exchange now p secret_id secret_hash s).1.tokens
        ≡ update_where (is_live now p.token_hash) (consume now p.ip) s.tokens
  unfolding finish_exchange commit
  finish-tokens now p secret_id secret_hash s = ground arith
