-- ===== src/Rotate/Links.antt =====
-- The creation and the fetching of a link in api/rotate.ts.
use gatehouse.Common.{
  ℕ, ◌+◌, ◌*◌, Text, text_eq, codes, true, Option, none, some, List, [], ◌∷◌, ◌++◌, first, take,
  trim,
}
use gatehouse.Audit.{MetaValue, or_null, rotate_token_create, rotate_token_fetch}
use gatehouse.Lease.State.{sql_datetime}
use gatehouse.Rotate.Hits.{Hit, ok, retry_after, hit, create_max}
use gatehouse.Rotate.Tokens.{
  Token, Role, State, Library, Body, Response, link, instructions, rate_limited, admin_required,
  invalid_json, role_required, role_not_found, ttl_out_of_range, gone, failed, hash_token,
  require_admin_identity, find_role, has_hash, find_live, ttl_of, entry, audited,
}

abbrev pub or_empty : Option Text → Text
or_empty none = []
or_empty (some t) = t

-- What the handler reads of its request, and what it draws from the random source.
pub record Request : Type 0 where
  pub now : ℕ
  pub ip : Text
  pub authorization : Option Text
  pub body : Option Body
  pub token : Text
  pub id : Text

-- The INSERT fails on an identifier or a hash that is there.
unfoldable pub is_taken : Text → Text → List Token → Option Token
is_taken id hash tokens = elim (first (has_hash hash) tokens) [
  | some t ↦ some t
  | none ↦ first (λ t. text_eq t.id id) tokens
]

abbrev pub new_token : Library → Request → Text → Text → ℕ → Option Text → Token
new_token lib r identity role_id ttl label = record {
  id = r.id;
  token_hash = hash_token lib r.token;
  role_id = role_id;
  created_by = identity;
  label = label;
  expires_at = sql_datetime r.now + ttl * 1000;
  consumed_at = none;
  creator_ip = r.ip;
  consumer_ip = none;
}

unfoldable pub insert_link :
    Library → Request → Text → Role → ℕ → Option Text → State → Response × State
insert_link lib r identity role ttl label s =
    let t = new_token lib r identity role.role_id ttl label in
    elim (is_taken t.id t.token_hash s.tokens) [
      | some old ↦ (failed, s)
      | none ↦ (
        link r.id r.token t.expires_at role.display_name role.policies,
        audited
            (entry identity rotate_token_create (some r.ip)
              (("role_id", MetaValue.text role.role_id)
                ∷ ("token_id", MetaValue.text r.id)
                ∷ ("ttl", MetaValue.number ttl)
                ∷ ("label", MetaValue.text (or_empty label))
                ∷ [])
              true)
            (record s { tokens = s.tokens ++ t ∷ [] }),
      )
    ]

abbrev pub create_with_ttl :
    Library → Request → Text → Role → Text → Option ℕ → State → Response × State
create_with_ttl lib r identity role label none s = (ttl_out_of_range, s)
create_with_ttl lib r identity role label (some ttl) s =
    insert_link lib r identity role ttl (or_null (some (take 200 label))) s

abbrev pub create_for_role :
    Library → Request → Text → Body → Option Role → State → Response × State
create_for_role lib r identity body none s = (role_not_found, s)
create_for_role lib r identity body (some role) s =
    create_with_ttl lib r identity role body.label (ttl_of body.ttl_seconds) s

abbrev pub create_for_id : Library → Request → Text → Body → Text → State → Response × State
create_for_id lib r identity body [] s = (role_required, s)
create_for_id lib r identity body (c ∷ cs) s =
    create_for_role lib r identity body (find_role (c ∷ cs) s.roles) s

abbrev pub create_from : Library → Request → Text → Option Body → State → Response × State
create_from lib r identity none s = (invalid_json, s)
create_from lib r identity (some body) s = create_for_id lib r identity body (trim body.role_id) s

abbrev pub create_by : Library → Request → Option Text → State → Response × State
create_by lib r none s = (admin_required, s)
create_by lib r (some identity) s = create_from lib r identity r.body s

abbrev pub create_after : Library → Request → Hit → State → Response × State
create_after lib r (retry_after n) s = (rate_limited n, s)
create_after lib r ok s = create_by lib r (require_admin_identity lib r.authorization) s

unfoldable pub create : Library → Request → State → Response × State
create lib r s =
    let (answer, counters) = hit r.now r.ip create_max s.created in
    create_after lib r answer (record s { created = counters })

abbrev pub display_name_of : Option Role → Text
display_name_of none = []
display_name_of (some role) = role.display_name

abbrev pub fetch_row : Option Text → Text → Option Token → State → Response × State
fetch_row ip token none s = (gone, s)
fetch_row ip token (some t) s = (
  instructions token (display_name_of (find_role t.role_id s.roles)) t.role_id,
  audited
      (entry (codes "rotate:fetch") rotate_token_fetch ip
        (("token_id", MetaValue.text t.id) ∷ ("role_id", MetaValue.text t.role_id) ∷ []) true)
      s,
)

unfoldable pub fetch : Library → ℕ → Option Text → Text → State → Response × State
fetch lib now ip token s = fetch_row ip token (find_live now (hash_token lib token) s.tokens) s
