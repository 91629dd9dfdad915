-- ===== src/Lease/Life.antt =====
-- The life of a lease: which rows a table gets, and what becomes of a row. Nothing here is taken from
-- the methods of lease/manager.ts but the data.
use gatehouse.Common.{
  ℕ, ◌+◌, ◌*◌, ◌/◌, codes, take, trim, ◌≤◌, ◌<◌, ◌≡◌, Text, false, true, none, some, List, [], ◌∷◌,
  ◌++◌,
}
use gatehouse.Common.Int.{ℤ, pos}
use gatehouse.Lease.State.{Lease, pending, approved, denied, expired, get_lease}

-- The methods of the manager, with their arguments.
pub data Operation : Type 0 where
  checks_out : Text → Text → Text → ℕ → Operation
  requests : Text → Text → Text → ℤ → Text → ℤ → Operation
  approves : Text → Text → Operation
  denies : Text → Text → Text → Operation
  auto_approves : Text → Text → Text → ℕ → Text → Text → Operation
  renews : Text → ℕ → Text → Operation
  revokes : Text → Text → Operation
  revokes_path : Text → Text → Operation
  deletes_pending : Text → Operation
  reaps : Operation

-- Which rows a method may revoke at a time.
pub data Closes (now : ℕ) (op : Operation) (l : Lease) : Type 0 where
  by_id : (who : Text) → op ≡ revokes l.id who → Closes now op l
  by_path : (who : Text) → op ≡ revokes_path l.secret_path who → Closes now op l
  by_time : op ≡ reaps → l.status ≡ approved → l.expires_at ≤ now → Closes now op l

-- What may become of one lease in a call of a method at a time.
pub data RowStep (now : ℕ) (op : Operation) : Lease → Lease → Type 0 where
  same : (l : Lease) → RowStep now op l l
  opens :
      (l : Lease) (approver : Text)
      → op ≡ approves l.id approver
      → l.status ≡ pending
      → l.revoked ≡ false
      → RowStep now op l (record l {
        status = approved;
        approved_by = some approver;
        approved_at = some now;
        expires_at = now + l.ttl_seconds * 1000;
      })
  refuses :
      (l : Lease) (approver reason : Text)
      → op ≡ denies l.id approver reason
      → l.status ≡ pending
      → l.revoked ≡ false
      → RowStep now op l (record l {
        status = denied;
        approved_by = some approver;
        approved_at = some (now / 1000 * 1000);
        denied_reason = some (take 500 reason);
      })
  prolongs :
      (l : Lease) (ttl : ℕ) (who : Text)
      → op ≡ renews l.id ttl who
      → l.status ≡ approved
      → l.revoked ≡ false
      → now < l.expires_at
      → RowStep now op l (record l { ttl_seconds = ttl; expires_at = now + ttl * 1000 })
  closes :
      (l : Lease)
      → Closes now op l
      → l.revoked ≡ false
      → RowStep now op l (record l { revoked = true })
  lapses :
      (l : Lease) (limit : ℕ)
      → op ≡ reaps
      → l.status ≡ pending
      → l.revoked ≡ false
      → l.request_expires_at ≡ some limit
      → limit ≤ now
      → RowStep now op l (record l { status = expired; revoked = true })

-- The row that a method may insert. A checkout opens a window for its ttl, and so does an
-- approval without a request; a request gives nothing, and waits between a minute and a day.
pub data NewRow (now : ℕ) (op : Operation) : Lease → Type 0 where
  taken :
      (uuid path identity : Text) (ttl : ℕ)
      → op ≡ checks_out uuid path identity ttl
      → NewRow now op (record {
        id = codes "lease-" ++ uuid;
        secret_path = path;
        identity = identity;
        ttl_seconds = ttl;
        created_at = now / 1000 * 1000;
        expires_at = now + ttl * 1000;
        revoked = false;
        status = approved;
        justification = none;
        approved_by = none;
        approved_at = none;
        denied_reason = none;
        request_expires_at = none;
      })
  pre_approved :
      (uuid path identity approver why : Text) (ttl : ℕ)
      → op ≡ auto_approves uuid path identity ttl approver why
      → NewRow now op (record {
        id = codes "lease-" ++ uuid;
        secret_path = path;
        identity = identity;
        ttl_seconds = ttl;
        created_at = now / 1000 * 1000;
        expires_at = now + ttl * 1000;
        revoked = false;
        status = approved;
        justification = some (take 2000 why);
        approved_by = some approver;
        approved_at = some now;
        denied_reason = none;
        request_expires_at = none;
      })
  asked :
      (uuid path identity why : Text) (ttl : ℕ) (request_ttl : ℤ) (wait : ℕ)
      → op ≡ requests uuid path identity (pos ttl) why request_ttl
      → (10 ≤ ttl) × (ttl ≤ 86400)
      → (60 ≤ wait) × (wait ≤ 86400)
      → NewRow now op (record {
        id = codes "lease-" ++ uuid;
        secret_path = path;
        identity = identity;
        ttl_seconds = ttl;
        created_at = now / 1000 * 1000;
        expires_at = now + ttl * 1000;
        revoked = false;
        status = pending;
        justification = some (trim why);
        approved_by = none;
        approved_at = none;
        denied_reason = none;
        request_expires_at = some (now + wait * 1000);
      })

-- The rows that were there: each makes a step, or is a pending one that the method deletes.
pub data RowSteps (now : ℕ) (op : Operation) : List Lease → List Lease → Type 0 where
  nil : RowSteps now op [] []
  keep :
      {l m : Lease} {ls ms : List Lease}
      → RowStep now op l m
      → RowSteps now op ls ms
      → RowSteps now op (l ∷ ls) (m ∷ ms)
  drop :
      (l : Lease) {ls ms : List Lease}
      → op ≡ deletes_pending l.identity
      → l.status ≡ pending
      → RowSteps now op ls ms
      → RowSteps now op (l ∷ ls) ms

-- A row is added at the end, under an identifier that is free.
pub data TableStep (now : ℕ) (op : Operation) : List Lease → List Lease → Type 0 where
  change : {ls ms : List Lease} → RowSteps now op ls ms → TableStep now op ls ms
  insert :
      (l : Lease) (ls : List Lease)
      → get_lease l.id ls ≡ none
      → NewRow now op l
      → TableStep now op ls (ls ++ l ∷ [])

-- What one call may do to the table.
pub data Reach (now : ℕ) (op : Operation) (ls : List Lease) : List Lease → Type 0 where
  here : Reach now op ls ls
  next : {ms ns : List Lease} → Reach now op ls ms → TableStep now op ms ns → Reach now op ls ns
