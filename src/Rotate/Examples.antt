-- ===== src/Rotate/Examples.antt =====
-- Runs of api/rotate.ts on a table with one role.
use gatehouse.Common.{
  ◌≡◌, refl, text_eq, codes, true, false, none, some, [], ◌∷◌, first, count_where, arith, List,
}
use gatehouse.Common.Dict.{get}
use gatehouse.Rotate.Hits.{ok, hit, exchange_max}
use gatehouse.Rotate.Tokens.{Role, State, Library, has_hash, find_live, find_role, hash_token}
use gatehouse.Rotate.Links.{Request, new_token, is_taken, insert_link}
use gatehouse.Rotate.Exchange.{
  Pending, gone, exchanged, goes_on, is_refused, start_exchange, commit, finish_exchange,
}
use gatehouse.Rotate.OneShot.{Step, starts, finishes, sweeps, steps, finish_exchange-IsOneShot}
use gatehouse.Rotate.Outcomes.{insert_link-GivesSecret}

-- A text is its own hash, and no session token is valid.
abbrev plain_library : Library
plain_library = record { sha256 = λ t. t; jwt_verify = λ t. none; root_token = none }

abbrev builder : Role
builder = record {
  role_id = codes "role-1";
  secret_hash = codes "old";
  display_name = codes "builder";
  policies = [];
  suspended = false;
  ip_allowlist = [];
  last_used = none;
}

abbrev one_role : State
one_role = record { tokens = []; roles = builder ∷ []; audit = []; created = []; exchanged = [] }

abbrev request : Request
request = record {
  now = 0;
  ip = codes "10.0.0.1";
  authorization = none;
  body = none;
  token = codes "link";
  id = codes "rotate-1";
}

abbrev linked : State
linked = (insert_link plain_library request (codes "root") builder 900 none one_role).1

abbrev waiting : Pending
waiting = record {
  ip = codes "10.0.0.2";
  token_hash = codes "link";
  token = new_token plain_library request (codes "root") (codes "role-1") 900 none;
  display_name = some (codes "builder");
}

new_link : is_taken request.id (hash_token plain_library request.token) one_role.tokens ≡ none
unfolding is_taken first
new_link = refl

role_there : find_role builder.role_id one_role.roles ≡ some builder
unfolding find_role first text_eq
role_there = refl

permitted : is_refused (codes "10.0.0.2") builder.ip_allowlist ≡ false
unfolding is_refused
permitted = refl

first_hit : (hit 5000 (codes "10.0.0.2") exchange_max one_role.exchanged).0 ≡ ok
unfolding hit get
first_hit = refl

insert_link-GivesSecret_example :
    (p : Pending) × (let (answer, s') =
        start_exchange plain_library 5000 (codes "10.0.0.2") request.token linked in
      let (reply, s'') = finish_exchange 6000 p (codes "new-id") (codes "new") s' in
      (answer ≡ goes_on p)
      × (reply ≡ exchanged builder.role_id (codes "new-id") (some builder.display_name))
      × (find_role builder.role_id s''.roles
          ≡ some (record builder { secret_hash = codes "new"; last_used = some 6000 })))
insert_link-GivesSecret_example =
    insert_link-GivesSecret plain_library request (codes "root") builder 900 none one_role 5000 6000
      (codes "10.0.0.2") (codes "new-id") (codes "new") new_link role_there refl permitted first_hit
      (omega arith) (omega arith)

one_link : count_where (has_hash waiting.token_hash) linked.tokens ≡ 1
unfolding count_where insert_link is_taken first hash_token text_eq
one_link = refl

goes_through : (commit 6000 waiting (codes "new") linked).0 ≡ true
unfolding commit count_where insert_link is_taken first hash_token text_eq
goes_through = refl

abbrev other_steps : List Step
other_steps =
    starts plain_library 6500 (codes "10.0.0.3") (codes "link")
    ∷ sweeps 7000
    ∷ finishes 7500 waiting (codes "x") (codes "y")
    ∷ []

finish_exchange-IsOneShot_example :
    let s' =
      steps other_steps (finish_exchange 6000 waiting (codes "new-id") (codes "new") linked).1 in
    ((finish_exchange 8000 waiting (codes "id-2") (codes "other") s').0 ≡ gone)
    × ((finish_exchange 8000 waiting (codes "id-2") (codes "other") s').1.roles ≡ s'.roles)
    × (find_live 8000 waiting.token_hash s'.tokens ≡ none)
finish_exchange-IsOneShot_example =
    finish_exchange-IsOneShot 6000 8000 waiting waiting (codes "new-id") (codes "new")
      (codes "id-2") (codes "other") other_steps linked (omega (arith, one_link)) goes_through refl
