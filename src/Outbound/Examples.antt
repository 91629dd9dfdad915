-- ===== src/Outbound/Examples.antt =====
-- Runs of lease/webhook.ts against a private address, and of the path prefixes of security/ssrf.ts.
use gatehouse.Common.{
  ◌≡◌, refl, inl, inr, if◌then◌else◌, Text, codes, text_eq, starts_with, true, false, none, some,
  List, [], ◌∷◌, ◌++◌,
}
use gatehouse.Address.Cidr.{lower_case}
use gatehouse.Outbound.Webhook.{
  LeaseRequestPayload, Environment, State, is_private_hostname, send_all, warn_if_webhook_private,
}
use gatehouse.Outbound.Private.{PrivateHost, net_172_16, send_all-IsSilent}
use gatehouse.Outbound.Paths.{drop_last_slash, path_matches_any_prefix}

abbrev private_target : Environment
private_target = record {
  url = some (codes "http://172.20.0.9/hook");
  hostname = some (codes "172.20.0.9");
  allow_private = none;
  secret = none;
}

abbrev request : LeaseRequestPayload
request = record {
  lease_id = codes "lease-1";
  identity = codes "agent";
  secret_path = codes "db/prod";
  justification = codes "to repair it";
  ttl_seconds = 60;
  request_expires_at = [];
  server_base_url = codes "http://gate/";
}

abbrev start : State
start = record { warned_private = false; deliveries = []; warnings = []; errors = 0 }

target_PrivateHost : PrivateHost (lower_case (codes "172.20.0.9"))
unfolding lower_case
target_PrivateHost = net_172_16 (codes "20") (codes "0.9") (inr (inr (inr (inr (inl refl))))) refl

-- The host of `http://[::1]/` keeps its brackets, so it is not taken for the local one; nor is
-- another address of the loopback network.
bracketed_passes : is_private_hostname (codes "[::1]") ≡ false
unfolding is_private_hostname lower_case text_eq starts_with
bracketed_passes = refl

loopback_passes : is_private_hostname (codes "127.0.0.2") ≡ false
unfolding is_private_hostname lower_case text_eq starts_with
loopback_passes = refl

send_all-IsSilent_example :
    send_all private_target
      ((1000, request) ∷ (2000, request) ∷ [])
      (warn_if_webhook_private private_target start)
    ≡ (record start {
      warned_private = true;
      warnings =
          if start.warned_private
          then start.warnings
          else start.warnings ++ lower_case (codes "172.20.0.9") ∷ [];
    })
send_all-IsSilent_example =
    send_all-IsSilent private_target (codes "172.20.0.9") b'h' (codes "ttp://172.20.0.9/hook")
      ((1000, request) ∷ (2000, request) ∷ []) start refl refl target_PrivateHost (λ e. cc)

abbrev prefixes : List Text
prefixes = codes "/repos/a/" ∷ []

below_prefix : path_matches_any_prefix (codes "/repos/a/pulls") prefixes ≡ true
unfolding path_matches_any_prefix drop_last_slash starts_with text_eq
below_prefix = refl

sibling_refused : path_matches_any_prefix (codes "/repos/ab") prefixes ≡ false
unfolding path_matches_any_prefix drop_last_slash starts_with text_eq
sibling_refused = refl
