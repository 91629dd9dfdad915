-- ===== src/Gates/Examples.antt =====
-- A run of `enforceProxyGates` on a secret whose approval is there.
use gatehouse.Common.{
  ◌≡◌, inl, refl, Text, codes, text_eq, true, none, [], ◌∷◌, select, sort_by, insert_by,
}
use gatehouse.Common.Dict.{Dict, get, set}
use gatehouse.Common.Exec.{done}
use gatehouse.RateLimit.Limiter.{init}
use gatehouse.Lease.State.{find_active_approved_lease}
use gatehouse.Lease.Manager.{requires_approval}
use gatehouse.Lease.Examples.{agent, path, gated_secrets, two_leases, two_leases-UniqueIds}
use gatehouse.Gates.Enforce.{
  GatesContext, AuthSource, gates_allowed, gate_role, limits_of, approle_gate, secret_limit,
  secret_refusal, secrets_gate, approval_of, approval_gate, settle, enforce_proxy_gates,
}
use gatehouse.Gates.Coverage.{HasLease, enforce_proxy_gates-HasLease}

abbrev call : GatesContext
call = record {
  source = AuthSource.user;
  role_id = none;
  identity = agent;
  source_ip = codes "203.0.113.9";
  secret_paths = path ∷ [];
  role_limits = λ r. none;
  rate_limiter = init;
  secrets = gated_secrets;
}

abbrev lease_ids : Dict Text
lease_ids = (path, codes "lease-1") ∷ []

let_through :
    enforce_proxy_gates 1000 (codes "7" ∷ []) call two_leases
    ≡ (done (gates_allowed [] lease_ids), two_leases)
unfolding enforce_proxy_gates approle_gate gate_role limits_of secrets_gate secret_refusal
    secret_limit approval_gate approval_of settle requires_approval find_active_approved_lease
    select sort_by insert_by get set text_eq
let_through = refl

wants_approval : requires_approval (gated_secrets.get_meta path) ≡ true
unfolding requires_approval get text_eq
wants_approval = refl

enforce_proxy_gates-HasLease_example : HasLease 1000 call path lease_ids two_leases
enforce_proxy_gates-HasLease_example =
    enforce_proxy_gates-HasLease 1000 (codes "7" ∷ []) call path [] lease_ids two_leases two_leases
      two_leases-UniqueIds let_through (inl refl) wants_approval
