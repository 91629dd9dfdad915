-- ===== src/Rotate/Outcomes.antt =====
-- A link that api/rotate.ts has created can be exchanged until it is over.
use gatehouse.Common.{
  ℕ, ◌+◌, ◌*◌, ◌<◌, ◌≡◌, refl, ◌∙◌, ap, Text, text_eq, text_eq_iff, true, false, Option, none, some,
  List, [], ◌∷◌, ◌++◌, arith, update_where, count_where,
}
use gatehouse.Lease.State.{sql_datetime}
use gatehouse.Rotate.Hits.{ok, hit, exchange_max}
use gatehouse.Rotate.Tokens.{
  Token, Role, State, Library, has_hash, is_live, find_live, find_role, hash_token,
}
use gatehouse.Rotate.Links.{Request, new_token, is_taken, insert_link}
use gatehouse.Rotate.Exchange.{
  Pending, exchanged, goes_on, is_refused, check_row, start_row, start_after, start_exchange,
  commit, finish_exchange, with_secret,
}
use gatehouse.Rotate.Spent.{
  not_taken, first-absent-count, count-first-absent, live-le, unused-le, count_where-append,
}
use gatehouse.Secrets.Tables.{first-append, first-hit, first-update_where}

-- The row of a link that was just created is the live one of its hash.
appended_live :
    (now : ℕ) (t : Token) (ts : List Token)
    → is_taken t.id t.token_hash ts ≡ none
    → is_live now t.token_hash t ≡ true
    → (find_live now t.token_hash (ts ++ t ∷ []) ≡ some t)
      × (count_where (is_live now t.token_hash) (ts ++ t ∷ []) ≡ 1)
unfolding find_live
appended_live now t ts new live =
    let hash = t.token_hash in
    let absent = first-absent-count (has_hash hash) ts (not_taken t.id hash ts new) in
    let not_live : count_where (is_live now hash) ts ≡ 0 =
      omega (arith, live-le hash now ts, unused-le hash ts) in
    (
      first-append (is_live now hash) ts t
          ∙ rw (count-first-absent (is_live now hash) ts not_live, live) refl,
      count_where-append (is_live now hash) t ts ∙ rw (not_live, live) refl,
    )

find_role-with_secret :
    (now : ℕ) (id secret_hash : Text) (role : Role) (roles : List Role)
    → find_role id roles ≡ some role
    → find_role id (update_where (λ r. text_eq r.role_id id) (with_secret now secret_hash) roles)
      ≡ some (with_secret now secret_hash role)
unfolding find_role
find_role-with_secret now id secret_hash role roles there =
    let named = λ (r : Role). text_eq r.role_id id in
    let found = first-hit named roles role there in
    first-update_where named named (with_secret now secret_hash) roles (λ x. refl)
    ∙ rw (there, found) refl

finish-exchanged :
    (now : ℕ) (p : Pending) (secret_id secret_hash : Text) (role : Role) (s : State)
    → count_where (is_live now p.token_hash) s.tokens ≡ 1
    → find_role p.token.role_id s.roles ≡ some role
    → ((finish_exchange now p secret_id secret_hash s).0
        ≡ exchanged p.token.role_id secret_id p.display_name)
      × (find_role p.token.role_id (finish_exchange now p secret_id secret_hash s).1.roles
          ≡ some (with_secret now secret_hash role))
unfolding finish_exchange commit
finish-exchanged now p secret_id secret_hash role s one there =
    rw one (refl, find_role-with_secret now p.token.role_id secret_hash role s.roles there)

abbrev pending_of : Text → Token → Role → Pending
pending_of ip t role = record {
  ip = ip;
  token_hash = t.token_hash;
  token = t;
  display_name = some role.display_name;
}

check_row-goes_on :
    (now : ℕ) (ip hash : Text) (t : Token) (role : Role) (s : State)
    → find_role t.role_id s.roles ≡ some role
    → role.suspended ≡ false
    → is_refused ip role.ip_allowlist ≡ false
    → check_row now ip hash t s ≡ (
      goes_on
          (record { ip = ip; token_hash = hash; token = t; display_name = some role.display_name }),
      s,
    )
unfolding check_row
check_row-goes_on now ip hash t role s there active permitted =
    rw (there, permitted, active, check_row) refl

start-goes_on :
    (now : ℕ) (lib : Library) (ip token : Text) (t : Token) (role : Role) (s : State)
    → (hit now ip exchange_max s.exchanged).0 ≡ ok
    → hash_token lib token ≡ t.token_hash
    → find_live now t.token_hash s.tokens ≡ some t
    → find_role t.role_id s.roles ≡ some role
    → role.suspended ≡ false
    → is_refused ip role.ip_allowlist ≡ false
    → start_exchange lib now ip token s ≡ (
      goes_on (pending_of ip t role),
      record s { exchanged = (hit now ip exchange_max s.exchanged).1 },
    )
unfolding start_exchange
start-goes_on now lib ip token t role s free same live there active permitted =
    let s1 : State = record s { exchanged = (hit now ip exchange_max s.exchanged).1 } in
    ap (λ answer. start_after lib now ip token answer s1) free
    ∙ ap (λ hash. start_row now ip hash (find_live now hash s.tokens) s1) same
    ∙ ap (λ found. start_row now ip t.token_hash found s1) live
    ∙ check_row-goes_on now ip t.token_hash t role s1 there active permitted

linked-state :
    (lib : Library) (r : Request) (identity : Text) (role : Role) (ttl : ℕ) (label : Option Text)
    (s : State)
    → is_taken r.id (hash_token lib r.token) s.tokens ≡ none
    → let s' = (insert_link lib r identity role ttl label s).1 in
      (s'.tokens ≡ s.tokens ++ new_token lib r identity role.role_id ttl label ∷ [])
      × (s'.roles ≡ s.roles)
      × (s'.exchanged ≡ s.exchanged)
unfolding insert_link
linked-state lib r identity role ttl label s new = rw (new, insert_link) (refl, refl, refl)

is_live-new :
    (now : ℕ) (t : Token)
    → t.consumed_at ≡ none
    → sql_datetime now < t.expires_at
    → is_live now t.token_hash t ≡ true
is_live-new now t unused early = ground (arith, text_eq_iff t.token_hash t.token_hash)

-- A new link gives a secret: an exchange that starts and ends before the link is over, from an
-- address that the role permits and that has not called too often, is answered with the new secret,
-- and the role's row then holds the hash of that secret and the time, and is otherwise as it was.
-- The role is in the table and not suspended, and no row has the link's
-- identifier or hash when it is created.
pub insert_link-GivesSecret :
    (lib : Library) (r : Request) (identity : Text) (role : Role) (ttl : ℕ) (label : Option Text)
    (s : State) (now later : ℕ) (ip secret_id secret_hash : Text)
    → is_taken r.id (hash_token lib r.token) s.tokens ≡ none
    → find_role role.role_id s.roles ≡ some role
    → role.suspended ≡ false
    → is_refused ip role.ip_allowlist ≡ false
    → (hit now ip exchange_max s.exchanged).0 ≡ ok
    → sql_datetime now < sql_datetime r.now + ttl * 1000
    → sql_datetime later < sql_datetime r.now + ttl * 1000
    → (p : Pending) × (let (answer, s') =
          start_exchange lib now ip r.token (insert_link lib r identity role ttl label s).1 in
        let (reply, s'') = finish_exchange later p secret_id secret_hash s' in
        (answer ≡ goes_on p)
        × (reply ≡ exchanged role.role_id secret_id (some role.display_name))
        × (find_role role.role_id s''.roles
            ≡ some
                (record role { secret_hash = secret_hash; last_used = some (sql_datetime later) })))
insert_link-GivesSecret lib r identity role ttl label s now later ip secret_id secret_hash new there
      active permitted free early still =
    let t = new_token lib r identity role.role_id ttl label in
    let p = pending_of ip t role in
    let s1 = (insert_link lib r identity role ttl label s).1 in
    let (tokens, roles, counters) = linked-state lib r identity role ttl label s new in
    let row = appended_live now t s.tokens new (is_live-new now t refl early) in
    let row' = appended_live later t s.tokens new (is_live-new later t refl still) in
    let named = ap (find_role role.role_id) roles ∙ there in
    let started =
      start-goes_on now lib ip r.token t role s1
        (ap (λ e. (hit now ip exchange_max e).0) counters ∙ free) refl
        (ap (find_live now t.token_hash) tokens ∙ row.0) named active permitted in
    let s2 : State = record s1 { exchanged = (hit now ip exchange_max s1.exchanged).1 } in
    let finished =
      finish-exchanged later p secret_id secret_hash role s2
        (ap (count_where (is_live later t.token_hash)) tokens ∙ row'.1) named in
    let same = ap (λ x. x.1) started in
    (
      p,
      (
        ap (λ x. x.0) started,
        ap (λ x. (finish_exchange later p secret_id secret_hash x).0) same ∙ finished.0,
        ap (λ x. find_role role.role_id (finish_exchange later p secret_id secret_hash x).1.roles)
              same
            ∙ finished.1,
      ),
    )
