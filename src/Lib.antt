-- ===== src/Lib.antt =====
-- Gatehouse, a server that keeps secrets for agents: who may use which secret, for how long, how
-- often, and from where.
--
-- A call of an agent comes in from an address that src/auth/sourceIp.ts resolves and that lists of
-- networks in src/auth/cidr.ts are held against (Address.*). Policies in src/policy/engine.ts say
-- what the names a caller holds allow on a path (Policy.*). The values are in
-- src/secrets/engine.ts, each under a key of its own that the key of the server wraps (Secrets.*),
-- and leave it by the lease manager in src/lease/manager.ts (Lease.*), whose routes in
-- src/api/lease.ts ask the policies first, as do the routes of values in src/api/secrets.ts
-- (Api.*). Before a proxied call may use secrets, src/api/proxyGates.ts asks the rate limiter in
-- src/rateLimits/ (RateLimit.*) and, for each secret that wants approval, the lease manager; it may
-- mint a lease for an allowed address (Gates.*). The bounds of a proxied request are in
-- src/settings/proxyLimits.ts (Settings.*), with their routes in src/api/settings.proxyLimits.ts.
-- src/dynamic/manager.ts leases credentials that providers make, and src/dynamic/grants.ts reads
-- the privileges of database users (Dynamic.*). src/api/rotate.ts gives an agent a new secret for
-- its role by a link that works once (Rotate.*). src/lease/webhook.ts tells an operator of a
-- request, and src/security/ssrf.ts bounds the paths of outgoing requests (Outbound.*). All write
-- to the log of src/audit/logger.ts (Audit).
--
-- A class is a record, its methods are functions from the state to an answer and the next state,
-- and a method that may throw is an `Exec` (Common.Exec), which keeps what was written before
-- the throw. A table is the list of its rows; UPDATE, DELETE and SELECT are `update_where` and
-- `select` (Common.Lists). A `Map` and a JSON object are association lists (Common.Dict). Texts
-- are lists of UTF-16 code units (Common.Strings). The clock is an argument in milliseconds, and
-- so are the identifiers that `uuid` makes. A text that the database or the configuration holds
-- is an argument as the parser reads it. Numbers are whole; those that the source reads from
-- texts are converted as JavaScript does it (Address.Number for `Number`, Gates.Enforce for
-- `parseInt`).
--
-- Files: Common and its children are shared; Common.Utf8 is `TextEncoder` and `TextDecoder`.
-- RateLimit.Limiter and RateLimit.Validation, Policy.Glob and Policy.Engine, Secrets.Vault,
-- Secrets.Engine and Secrets.Rekey, Lease.State, Lease.Manager and Lease.Decisions, Address.Number,
-- Address.Cidr and Address.Source, Gates.Enforce, Api.Leases, Api.Checkout, Api.Secrets and
-- Api.Writes, Settings.ProxyLimits, Settings.Routes, Dynamic.Grants, Dynamic.Sealing,
-- Dynamic.Saving, Dynamic.Minting, Dynamic.Manager and Dynamic.Keys, Rotate.Hits, Rotate.Tokens,
-- Rotate.Links and Rotate.Exchange, Outbound.Webhook, Outbound.Paths and Audit model code, under
-- the names the source uses in snake case; the other files prove what the list below says, and the
-- Examples files run the definitions. No definition uses fuel: all loops run over lists.
--
-- Leases see the secrets engine as the record `Secrets` of Lease.State, which Api.Leases fills
-- with the engine of Secrets.Vault. `nacl.secretbox` and `hkdfSync` are the record `Crypto`, and
-- a theorem that needs it says that a box opens by its nonce and key (`Opens`). Random bytes are
-- arguments. A provider of dynamic credentials is a record of its answers. In Rotate.Exchange the
-- wait for a password hash splits the handler in two steps, between which any other step may run;
-- the other handlers that wait are taken as one step. A row of the table `app_roles` is a
-- function of the role in Gates.Enforce and a row in Rotate.Tokens.
--
-- Not modelled: the drivers of databases, which are third-party code; the other HTTP routes, MCP
-- and the start-up, which move data between the parts; timers; and the texts of messages.
pub mod Common
pub mod RateLimit
pub mod Policy
pub mod Audit
pub mod Secrets
pub mod Rotate
pub mod Lease
pub mod Address
pub mod Gates
pub mod Settings
pub mod Dynamic
pub mod Outbound
pub mod Api
