-- ===== src/Rotate/OneShot.antt =====
-- A link of api/rotate.ts gives one secret at most, however its requests interleave.
use gatehouse.Common.{
  ℕ, ◌≤◌, ◌≡◌, sym, subst, Text, true, Option, none, List, [], ◌∷◌, arith, update_where,
  count_where,
}
use gatehouse.Rotate.Hits.{hit, sweep, create_max, exchange_max}
use gatehouse.Rotate.Tokens.{Token, State, Library, has_hash, is_live, find_live, hash_token}
use gatehouse.Rotate.Links.{Request, create, fetch}
use gatehouse.Rotate.Exchange.{Pending, gone, consume, start_exchange, commit, finish_exchange}
use gatehouse.Rotate.Spent.{
  IsSpent, unused-commit, unused-le, live-le, count-first-absent, consume-IsSpent, fetch_row-tokens,
  finish-tokens, create_after-IsSpent, start_after-IsSpent, count_where-consume,
}

-- What the server may run between two steps of an exchange: a whole handler, one of the two halves
-- of another exchange, or the sweep of the counters.
pub data Step : Type 0 where
  creates : Library → Request → Step
  fetches : Library → ℕ → Option Text → Text → Step
  starts : Library → ℕ → Text → Text → Step
  finishes : ℕ → Pending → Text → Text → Step
  sweeps : ℕ → Step

unfoldable pub step : Step → State → State
step (creates lib r) s = (create lib r s).1
step (fetches lib now ip token) s = (fetch lib now ip token s).1
step (starts lib now ip token) s = (start_exchange lib now ip token s).1
step (finishes now p secret_id secret_hash) s = (finish_exchange now p secret_id secret_hash s).1
step (sweeps now) s = record s { created = sweep now s.created; exchanged = sweep now s.exchanged }

unfoldable pub steps : List Step → State → State
steps [] s = s
steps (x ∷ xs) s = steps xs (step x s)

step-IsSpent :
    (hash : Text) (x : Step) (s : State) → IsSpent hash s.tokens → IsSpent hash (step x s).tokens
unfolding step create fetch start_exchange
step-IsSpent hash (creates lib r) s h =
    create_after-IsSpent hash lib r (hit r.now r.ip create_max s.created).0 _ h
step-IsSpent hash (fetches lib now ip token) s h =
    subst (IsSpent hash)
      (sym (fetch_row-tokens hash ip token (find_live now (hash_token lib token) s.tokens) s)) h
step-IsSpent hash (starts lib now ip token) s h =
    start_after-IsSpent hash lib now ip token (hit now ip exchange_max s.exchanged).0 _ h
step-IsSpent hash (finishes now p secret_id secret_hash) s h =
    subst (IsSpent hash) (sym (finish-tokens hash now p secret_id secret_hash s))
      (consume-IsSpent hash (is_live now p.token_hash) now p.ip s.tokens h)
step-IsSpent hash (sweeps now) s h = h

steps-IsSpent :
    (hash : Text) (xs : List Step) (s : State)
    → IsSpent hash s.tokens
    → IsSpent hash (steps xs s).tokens
unfolding steps
steps-IsSpent hash [] s h = h
steps-IsSpent hash (x ∷ xs) s h = steps-IsSpent hash xs (step x s) (step-IsSpent hash x s h)

-- A commit goes through on exactly one live row.
commit-IsSpent :
    (now : ℕ) (p : Pending) (secret_hash : Text) (s : State)
    → count_where (has_hash p.token_hash) s.tokens ≤ 1
    → (commit now p secret_hash s).0 ≡ true
    → IsSpent p.token_hash (update_where (is_live now p.token_hash) (consume now p.ip) s.tokens)
commit-IsSpent now p secret_hash s unique through =
    let one : count_where (is_live now p.token_hash) s.tokens ≡ 1 =
      unfold commit in ground (arith, through) in
    (
      omega (
        arith,
        one,
        count_where-consume p.token_hash (is_live now p.token_hash) now p.ip s.tokens,
        live-le p.token_hash now s.tokens,
        unused-le p.token_hash s.tokens,
      ),
      omega (
        arith,
        one,
        unused-commit p.token_hash now now p.ip s.tokens,
        unused-le p.token_hash s.tokens,
      ),
    )

spent-not-live :
    (hash : Text) (now : ℕ) (ts : List Token)
    → IsSpent hash ts
    → count_where (is_live now hash) ts ≡ 0
spent-not-live hash now ts h = omega (arith, live-le hash now ts)

finish-gone :
    (now : ℕ) (p : Pending) (secret_id secret_hash : Text) (s : State)
    → count_where (is_live now p.token_hash) s.tokens ≡ 0
    → ((finish_exchange now p secret_id secret_hash s).0 ≡ gone)
      × ((finish_exchange now p secret_id secret_hash s).1.roles ≡ s.roles)
unfolding finish_exchange commit
finish-gone now p secret_id secret_hash s h = ground (arith, h)

-- Once an exchange of a link has gone through, and after any steps of the server, another exchange
-- of it that has already passed its checks is told that the link is gone and changes no role, and
-- the link is found by no request that starts. The hash of a link is on one row at most.
pub finish_exchange-IsOneShot :
    (now later : ℕ) (p q : Pending) (secret_id secret_hash other_id other_hash : Text)
    (xs : List Step) (s : State)
    → count_where (has_hash p.token_hash) s.tokens ≤ 1
    → (commit now p secret_hash s).0 ≡ true
    → q.token_hash ≡ p.token_hash
    → let s' = steps xs (finish_exchange now p secret_id secret_hash s).1 in
      ((finish_exchange later q other_id other_hash s').0 ≡ gone)
      × ((finish_exchange later q other_id other_hash s').1.roles ≡ s'.roles)
      × (find_live later p.token_hash s'.tokens ≡ none)
unfolding find_live
finish_exchange-IsOneShot now later p q secret_id secret_hash other_id other_hash xs s unique
      through same =
    let hash = p.token_hash in
    let s1 = (finish_exchange now p secret_id secret_hash s).1 in
    let spent : IsSpent hash s1.tokens =
      subst (IsSpent hash) (sym (finish-tokens hash now p secret_id secret_hash s))
        (commit-IsSpent now p secret_hash s unique through) in
    let none_live =
      spent-not-live hash later (steps xs s1).tokens (steps-IsSpent hash xs s1 spent) in
    let refused =
      finish-gone later q other_id other_hash (steps xs s1) (
        subst (λ h. count_where (is_live later h) (steps xs s1).tokens ≡ 0) (sym same) none_live) in
    (refused.0, refused.1, count-first-absent (is_live later hash) (steps xs s1).tokens none_live)
