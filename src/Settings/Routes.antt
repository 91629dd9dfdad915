-- ===== src/Settings/Routes.antt =====
-- api/settings.proxyLimits.ts: the two handlers, for a caller that the middleware has read.
use gatehouse.Common.{
  ◌≡◌, inl, inr, ◌∙◌, Text, codes, Bool, true, Option, none, some, List, [], ◌∷◌, if◌then◌else◌,
  arith, Bool-cases,
}
use gatehouse.Audit.{or_null}
use gatehouse.Policy.Engine.{Engine, admin, check}
use gatehouse.Policy.Check.{IsCoherent, Grants, check-iff-Grants}
use gatehouse.Settings.ProxyLimits.{
  ProxyLimits, Input, not_object, object, not_whole, LimitError, State, SetResult, updated, refused,
  get_proxy_limits, set_proxy_limits, validate_proxy_limits,
}
use gatehouse.Settings.Cache.{
  in_range, ValidationResult-cases, validated-in_range, read_row-written,
}

pub record Caller : Type 0 where
  pub policies : List Text
  pub identity : Text
  pub source_ip : Option Text

-- The parts that the handlers are given.
pub record App : Type 0 where
  pub engine : Engine
  pub settings : State

-- With status 200, 200, 403, 400 and 400.
pub data Response : Type 0 where
  current : ProxyLimits → Response
  saved : ProxyLimits → Response
  forbidden invalid_json : Response
  invalid : List LimitError → Response

unfoldable pub admin_gate : Caller → Engine → Bool × Engine
admin_gate caller engine = check engine caller.policies (codes "*") admin

unfoldable pub handle_get_proxy_limits : Caller → App → Response × App
handle_get_proxy_limits caller app =
    let (allowed, engine) = admin_gate caller app.engine in
    if allowed
    then (let (limits, settings) = get_proxy_limits app.settings in
        (current limits, record { engine = engine; settings = settings }))
    else (forbidden, record app { engine = engine })

-- Only the two fields are kept; a body that is no object has neither.
unfoldable pub sanitized : Input → Input
sanitized not_object = object not_whole not_whole
sanitized (object t b) = object t b

abbrev or_anonymous : Text → Text
or_anonymous [] = codes "anonymous"
or_anonymous (c ∷ s) = c ∷ s

abbrev respond : SetResult → Response
respond (updated previous next) = saved next
respond (refused errors) = invalid errors

-- `none` is a body that is not JSON.
abbrev save : Caller → Option Input → State → Response × State
save caller none s = (invalid_json, s)
save caller (some body) s =
    let (result, s') =
      set_proxy_limits (or_anonymous caller.identity) (or_null caller.source_ip) (sanitized body)
        s in
    (respond result, s')

unfoldable pub handle_post_proxy_limits : Caller → Option Input → App → Response × App
handle_post_proxy_limits caller body app =
    let (allowed, engine) = admin_gate caller app.engine in
    if allowed
    then (let (response, settings) = save caller body app.settings in
        (response, record { engine = engine; settings = settings }))
    else (forbidden, record app { engine = engine })

set-saves :
    (identity : Text) (ip : Option Text) (input : Input) (s : State) (limits : ProxyLimits)
    → respond (set_proxy_limits identity ip input s).0 ≡ saved limits
    → (in_range limits ≡ true)
      × ((get_proxy_limits (set_proxy_limits identity ip input s).1).0 ≡ limits)
unfolding set_proxy_limits get_proxy_limits
set-saves identity ip input s limits e =
    elim (ValidationResult-cases (validate_proxy_limits input)) [
      | inr (errors, v) ↦ absurd (ground (arith, v, e))
      | inl (next, v) ↦
          let inside = validated-in_range input next v in
          let reread = read_row-written next inside in
          let same : next ≡ limits = ground (arith, v, e) in
          (rw (← same) inside, rw (v, set_proxy_limits) (reread ∙ same))
    ]

save-saves :
    (caller : Caller) (body : Option Input) (s : State) (limits : ProxyLimits)
    → (save caller body s).0 ≡ saved limits
    → (in_range limits ≡ true) × ((get_proxy_limits (save caller body s).1).0 ≡ limits)
save-saves caller none s limits e = absurd (cc e)
save-saves caller (some body) s limits e = set-saves _ _ (sanitized body) s limits e

-- With a coherent cache of patterns, when a post is answered with saved limits, some rule of the
-- caller's policies grants `admin` on `*`, the limits lie between the hard floor and the hard
-- ceiling, and they are the ones in force afterwards.
pub handle_post-IsGuarded :
    (caller : Caller) (body : Option Input) (app : App) (limits : ProxyLimits)
    → IsCoherent app.engine.pattern_cache
    → (handle_post_proxy_limits caller body app).0 ≡ saved limits
    → Grants app.engine caller.policies (codes "*") admin
      × (in_range limits ≡ true)
      × ((get_proxy_limits (handle_post_proxy_limits caller body app).1.settings).0 ≡ limits)
unfolding handle_post_proxy_limits admin_gate
handle_post-IsGuarded caller body app limits coherent e =
    let gate = check app.engine caller.policies (codes "*") admin in
    elim (Bool-cases gate.0) [
      | inr denied ↦ absurd (ground (arith, denied, e))
      | inl allowed ↦
          let answer : (save caller body app.settings).0 ≡ saved limits =
            ground (arith, allowed, e) in
          let (inside, kept) = save-saves caller body app.settings limits answer in
          (
            (check-iff-Grants app.engine caller.policies (codes "*") admin coherent).0.0 allowed,
            inside,
            rw (allowed, handle_post_proxy_limits) kept,
          )
    ]
