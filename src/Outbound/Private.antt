-- ===== src/Outbound/Private.antt =====
-- Private hosts, told apart from the tests of lease/webhook.ts, get no request for approval.
use gatehouse.Common.{
  ℕ, ◌≡◌, ◌≢◌, refl, sym, subst, ap, ◌∙◌, inl, inr, Text, codes, text_eq_iff, starts_with, split_on,
  Bool, true, false, ◌&&◌, Option, none, some, List, [], ◌∷◌, ◌++◌, Any, arith, Bool-cases,
  if◌then◌else◌, trim, trim_start, is_space, digits_value,
}
use gatehouse.Address.Cidr.{lower_case}
use gatehouse.Address.Number.{number_up_to_255}
use gatehouse.Outbound.Webhook.{
  Environment, LeaseRequestPayload, State, nonempty, is_true, is_refused, is_private_hostname,
  second_part, refuse, send_lease_request_webhook, warn_if_webhook_private, send_all,
}

abbrev pub twelve_bits : List Text
twelve_bits =
    codes "16"
    ∷ codes "17"
    ∷ codes "18"
    ∷ codes "19"
    ∷ codes "20"
    ∷ codes "21"
    ∷ codes "22"
    ∷ codes "23"
    ∷ codes "24"
    ∷ codes "25"
    ∷ codes "26"
    ∷ codes "27"
    ∷ codes "28"
    ∷ codes "29"
    ∷ codes "30"
    ∷ codes "31"
    ∷ []

-- The local host by its name or its usual addresses, and the addresses that RFC 1918 sets aside.
pub data PrivateHost (h : Text) : Type 0 where
  local_name : h ≡ codes "localhost" → PrivateHost h
  loopback : h ≡ codes "127.0.0.1" → PrivateHost h
  unspecified : h ≡ codes "0.0.0.0" → PrivateHost h
  loopback_v6 : h ≡ codes "::1" → PrivateHost h
  net_10 : (rest : Text) → h ≡ codes "10." ++ rest → PrivateHost h
  net_192_168 : (rest : Text) → h ≡ codes "192.168." ++ rest → PrivateHost h
  net_172_16 :
      (second rest : Text)
      → Any (λ t. second ≡ t) twelve_bits
      → h ≡ codes "172." ++ second ++ b'.' ∷ rest
      → PrivateHost h

-- The last test of the code, for one second part.
abbrev has_second : Text → Text → Bool
has_second rest t = second_part (split_on b'.' (codes "172." ++ t ++ b'.' ∷ rest))

abbrev every : (Text → Bool) → List Text → Bool
every p [] = true
every p (t ∷ ts) = p t && every p ts

every-twelve_bits : (rest : Text) → every (has_second rest) twelve_bits ≡ true
unfolding split_on number_up_to_255 trim trim_start is_space digits_value
every-twelve_bits rest = refl

every-Any :
    (p : Text → Bool) (t : Text) (ts : List Text)
    → Any (λ u. t ≡ u) ts
    → every p ts ≡ true
    → p t ≡ true
every-Any p t [] h all = absurd h
every-Any p t (u ∷ ts) (inl e) all = ap p e ∙ ground arith
every-Any p t (u ∷ ts) (inr h) all = every-Any p t ts h (ground arith)

starts_with-append : (p rest : Text) → starts_with p (p ++ rest) ≡ true
unfolding starts_with
starts_with-append [] rest = refl
starts_with-append (c ∷ p) rest = ground (arith, starts_with-append p rest)

begins : (h p rest : Text) → h ≡ p ++ rest → starts_with p h ≡ true
begins h p rest e = ap (starts_with p) e ∙ starts_with-append p rest

private-PrivateHost :
    (host : Text) → PrivateHost (lower_case host) → is_private_hostname host ≡ true
unfolding is_private_hostname
private-PrivateHost host (local_name e) =
    ground (arith, text_eq_iff (lower_case host) (codes "localhost"))
private-PrivateHost host (loopback e) =
    ground (arith, text_eq_iff (lower_case host) (codes "127.0.0.1"))
private-PrivateHost host (unspecified e) =
    ground (arith, text_eq_iff (lower_case host) (codes "0.0.0.0"))
private-PrivateHost host (loopback_v6 e) =
    ground (arith, text_eq_iff (lower_case host) (codes "::1"))
private-PrivateHost host (net_10 rest e) =
    ground (arith, begins (lower_case host) (codes "10.") rest e)
private-PrivateHost host (net_192_168 rest e) =
    ground (arith, begins (lower_case host) (codes "192.168.") rest e)
private-PrivateHost host (net_172_16 second rest among e) = ground (
  arith,
  begins (lower_case host) (codes "172.") (second ++ b'.' ∷ rest) e,
  ap (λ h. second_part (split_on b'.' h)) e
      ∙ every-Any (has_second rest) second twelve_bits among (every-twelve_bits rest),
)

lower_case-lower_case : (s : Text) → lower_case (lower_case s) ≡ lower_case s
unfolding lower_case
lower_case-lower_case [] = refl
lower_case-lower_case (c ∷ s) = ground (arith, lower_case-lower_case s)

not_allowed : (o : Option Text) → o ≢ some (codes "true") → is_true o ≡ false
not_allowed none h = refl
not_allowed (some v) h = ground (arith, text_eq_iff v (codes "true"), h)

refused_lem :
    (env : Environment) (host : Text)
    → PrivateHost (lower_case host)
    → env.allow_private ≢ some (codes "true")
    → is_refused env host ≡ true
refused_lem env host p h = ground (
  arith,
  not_allowed env.allow_private h,
  private-PrivateHost (lower_case host) (subst PrivateHost (sym (lower_case-lower_case host)) p),
)

module _ (env : Environment) (host url : Text) (there : nonempty env.url ≡ some url)
    (named : env.hostname ≡ some host) (refused : is_refused env host ≡ true) where
  send-refuse :
      (now : ℕ) (payload : LeaseRequestPayload) (s : State)
      → send_lease_request_webhook now env payload s ≡ refuse (lower_case host) s
  unfolding send_lease_request_webhook
  send-refuse now payload s = rw (there, send_lease_request_webhook) (rw (named, refused) refl)

  warn-refuse : (s : State) → warn_if_webhook_private env s ≡ refuse (lower_case host) s
  unfolding warn_if_webhook_private
  warn-refuse s = rw (there, warn_if_webhook_private) (rw (named, refused) refl)

  refuse-again : (s : State) → s.warned_private ≡ true → refuse (lower_case host) s ≡ s
  unfolding refuse
  refuse-again s w = rw (w, refuse) refl

  send_all-again :
      (ps : List (ℕ × LeaseRequestPayload)) (s : State)
      → s.warned_private ≡ true
      → send_all env ps s ≡ s
  unfolding send_all
  send_all-again [] s w = refl
  send_all-again ((now, payload) ∷ ps) s w =
      let same = send-refuse now payload s ∙ refuse-again s w in
      ap (send_all env ps) same ∙ send_all-again ps s w

after_refusal :
    (host : Text) (s : State)
    → refuse (lower_case host) s ≡ (record s {
      warned_private = true;
      warnings = if s.warned_private then s.warnings else s.warnings ++ lower_case host ∷ [];
    })
unfolding refuse
after_refusal host s = elim (Bool-cases s.warned_private) [
  | inl w ↦ ground (arith, w)
  | inr w ↦ ground (arith, w)
]

-- While the host of the webhook's address is `localhost` in any case of letters, `127.0.0.1`,
-- `0.0.0.0`, `::1`, or begins as an address of 10.0.0.0/8, 192.168.0.0/16 or 172.16.0.0/12, and the
-- operator has not allowed private hosts by `true`: whatever requests follow the start, none is
-- delivered, no error is reported, and the console is warned once, at the start if not before.
pub send_all-IsSilent :
    (env : Environment) (host : Text) (c : ℕ) (url : Text) (ps : List (ℕ × LeaseRequestPayload))
    (s : State)
    → env.url ≡ some (c ∷ url)
    → env.hostname ≡ some host
    → PrivateHost (lower_case host)
    → env.allow_private ≢ some (codes "true")
    → send_all env ps (warn_if_webhook_private env s) ≡ (record s {
      warned_private = true;
      warnings = if s.warned_private then s.warnings else s.warnings ++ lower_case host ∷ [];
    })
send_all-IsSilent env host c url ps s there named p allowed =
    let refused = refused_lem env host p allowed in
    let target = ap nonempty there in
    let first = warn-refuse env host (c ∷ url) target named refused s ∙ after_refusal host s in
    ap (send_all env ps) first
    ∙ send_all-again env host (c ∷ url) target named refused ps
        (record s {
          warned_private = true;
          warnings = if s.warned_private then s.warnings else s.warnings ++ lower_case host ∷ [];
        })
        refl
