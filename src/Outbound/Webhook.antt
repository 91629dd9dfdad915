-- ===== src/Outbound/Webhook.antt =====
-- lease/webhook.ts. The environment is an argument, with the host that `new URL` reads in the
-- address. A delivery is recorded as it is handed to `fetch`; its HMAC, which a library makes, is
-- the secret and the second it is made with.
use gatehouse.Common.{
  ℕ, ◌+◌, ◌/◌, Text, codes, text_eq, starts_with, split_on, Bool, true, false, not, ◌&&◌, ◌||◌,
  Option, none, some, List, [], ◌∷◌, ◌++◌, leb, ◌==◌, if◌then◌else◌,
}
use gatehouse.Address.Cidr.{lower_case}
use gatehouse.Address.Number.{number_up_to_255}

pub record LeaseRequestPayload : Type 0 where
  pub lease_id : Text
  pub identity : Text
  pub secret_path : Text
  pub justification : Text
  pub ttl_seconds : ℕ
  pub request_expires_at : Text
  pub server_base_url : Text

-- `none` for a variable that is not set; `hostname` is none where `new URL` throws.
pub record Environment : Type 0 where
  pub url : Option Text
  pub hostname : Option Text
  pub allow_private : Option Text
  pub secret : Option Text

pub record Body : Type 0 where
  pub payload : LeaseRequestPayload
  pub approve_url : Text
  pub ui_url : Text

pub record Delivery : Type 0 where
  pub url : Text
  pub body : Body
  pub signed_at : Option (ℕ × Text)

-- `warnings` are the hosts that the console was warned of; `errors` counts the calls of `onError`.
pub record State : Type 0 where
  pub warned_private : Bool
  pub deliveries : List Delivery
  pub warnings : List Text
  pub errors : ℕ

-- The second part of a dotted host, from 16 to 31.
abbrev pub second_part : List Text → Bool
second_part (a ∷ b ∷ rest) = elim (number_up_to_255 b) [
  | none ↦ false
  | some n ↦ leb 16 n && leb n 31
]
second_part _ = false

unfoldable pub is_private_hostname : Text → Bool
is_private_hostname hostname =
    let h = lower_case hostname in
    text_eq h (codes "localhost")
    || text_eq h (codes "127.0.0.1")
    || text_eq h (codes "0.0.0.0")
    || text_eq h (codes "::1")
    || starts_with (codes "10.") h
    || starts_with (codes "192.168.") h
    || starts_with (codes "172.") h && second_part (split_on b'.' h)

-- `replace(/\/+$/, "")`
abbrev drop_if_empty : ℕ → Text → Text
drop_if_empty c [] = if c == b'/' then [] else c ∷ []
drop_if_empty c (d ∷ s) = c ∷ d ∷ s

unfoldable pub strip_slashes : Text → Text
strip_slashes [] = []
strip_slashes (c ∷ s) = drop_if_empty c (strip_slashes s)

unfoldable pub build_body : LeaseRequestPayload → Body
unfolding strip_slashes
build_body payload =
    let base = strip_slashes payload.server_base_url in
    record {
      payload = payload;
      approve_url = base ++ codes "/v1/lease/" ++ payload.lease_id ++ codes "/approve";
      ui_url = base ++ codes "/#leases";
    }

abbrev pub is_true : Option Text → Bool
is_true none = false
is_true (some v) = text_eq v (codes "true")

abbrev pub nonempty : Option Text → Option Text
nonempty (some (c ∷ s)) = some (c ∷ s)
nonempty _ = none

-- The refusal of a private host: the first one is written to the console.
unfoldable pub refuse : Text → State → State
refuse host s =
    if s.warned_private
    then s
    else (record s { warned_private = true; warnings = s.warnings ++ host ∷ [] })

unfoldable pub deliver : ℕ → Environment → Text → LeaseRequestPayload → State → State
unfolding build_body
deliver now env url payload s = record s {
  deliveries =
      s.deliveries
      ++ record {
        url = url;
        body = build_body payload;
        signed_at = elim (nonempty env.secret) [ none ↦ none | some key ↦ some (now / 1000, key) ];
      }
        ∷ [];
}

-- The host is private, and the operator has not allowed it.
abbrev pub is_refused : Environment → Text → Bool
is_refused env host = is_private_hostname (lower_case host) && not (is_true env.allow_private)

unfoldable pub send_lease_request_webhook : ℕ → Environment → LeaseRequestPayload → State → State
send_lease_request_webhook now env payload s = elim (nonempty env.url) [
  | none ↦ s
  | some url ↦ elim env.hostname [
    | none ↦ record s { errors = s.errors + 1 }
    | some host ↦
        if is_refused env host then refuse (lower_case host) s else deliver now env url payload s
  ]
]

unfoldable pub warn_if_webhook_private : Environment → State → State
warn_if_webhook_private env s = elim (nonempty env.url) [
  | none ↦ s
  | some url ↦ elim env.hostname [
    | none ↦ s
    | some host ↦ if is_refused env host then refuse (lower_case host) s else s
  ]
]

unfoldable pub send_all : Environment → List (ℕ × LeaseRequestPayload) → State → State
send_all env [] s = s
send_all env ((now, payload) ∷ ps) s =
    send_all env ps (send_lease_request_webhook now env payload s)
