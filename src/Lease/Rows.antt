-- ===== src/Lease/Rows.antt =====
-- What the steps of a lease's life keep: identifiers, and the end of a lease.
use gatehouse.Common.{
  ℕ, ◌≡◌, ◌⊎◌, inl, inr, refl, subst, Text, text_eq, text_eq_iff, Bool, true, false, not, ◌&&◌,
  ◌||◌, none, some, List, [], ◌∷◌, ◌++◌, if◌then◌else◌, first, arith, Bool-cases,
}
use gatehouse.Lease.State.{Lease, pending, get_lease, is_pending, is_approved}
use gatehouse.Lease.Life.{
  RowStep, same, opens, refuses, prolongs, closes, lapses, Operation, RowSteps, nil, keep, drop,
  TableStep, change, insert, Reach, here, next,
}

-- `id` is the primary key.
abbrev pub UniqueIds : List Lease → Type 0
UniqueIds [] = Unit {0}
UniqueIds (l ∷ ls) = (get_lease l.id ls ≡ none) × UniqueIds ls

RowStep-id : {now : ℕ} {op : Operation} {l m : Lease} → RowStep now op l m → m.id ≡ l.id
RowStep-id (same l) = refl
RowStep-id (opens l approver e waits live) = refl
RowStep-id (refuses l approver reason e waits live) = refl
RowStep-id (prolongs l ttl who e open_lease live early) = refl
RowStep-id (closes l cause live) = refl
RowStep-id (lapses l limit e waits live given over) = refl

pub get_lease-cons :
    (id : Text) (l : Lease) (ls : List Lease)
    → get_lease id (l ∷ ls) ≡ (if text_eq l.id id then some l else get_lease id ls)
unfolding get_lease first
get_lease-cons id l ls = refl

absent-RowSteps :
    {now : ℕ} {op : Operation} (id : Text) {ls ms : List Lease}
    → RowSteps now op ls ms
    → get_lease id ls ≡ none
    → get_lease id ms ≡ none
absent-RowSteps id nil h = h
absent-RowSteps id (keep {l} {m} {ls} {ms} st rest) h =
    ground (
      arith,
      RowStep-id st,
      get_lease-cons id l ls,
      get_lease-cons id m ms,
      absent-RowSteps id rest,
    )
absent-RowSteps id (drop l {ls} {ms} cause p rest) h =
    ground (arith, get_lease-cons id l ls, absent-RowSteps id rest)

pub get_lease-append :
    (id : Text) (ls : List Lease) (x : Lease)
    → get_lease id (ls ++ x ∷ [])
      ≡ elim (get_lease id ls) [ some l ↦ some l | none ↦ if text_eq x.id id then some x else none ]
unfolding get_lease first
get_lease-append id [] x = refl
get_lease-append id (l ∷ ls) x = ground (arith, get_lease-append id ls x)

pub UniqueIds-RowSteps :
    {now : ℕ} {op : Operation} {ls ms : List Lease}
    → RowSteps now op ls ms
    → UniqueIds ls
    → UniqueIds ms
UniqueIds-RowSteps nil u = tt
UniqueIds-RowSteps (keep {l} {m} {ls} {ms} st rest) u =
    (rw (RowStep-id st) (absent-RowSteps l.id rest u.0), UniqueIds-RowSteps rest u.1)
UniqueIds-RowSteps (drop l cause p rest) u = UniqueIds-RowSteps rest u.1

UniqueIds-append :
    (ls : List Lease) (x : Lease)
    → get_lease x.id ls ≡ none
    → UniqueIds ls
    → UniqueIds (ls ++ x ∷ [])
UniqueIds-append [] x h u = (unfold get_lease first in refl, tt)
UniqueIds-append (l ∷ ls) x h u = (
  ground (
    arith,
    u.0,
    h,
    get_lease-cons x.id l ls,
    get_lease-append l.id ls x,
    text_eq_iff l.id x.id,
    text_eq_iff x.id l.id,
  ),
  UniqueIds-append ls x (ground (arith, get_lease-cons x.id l ls)) u.1,
)

pub UniqueIds-Reach :
    {now : ℕ} {op : Operation} {ls ms : List Lease}
    → Reach now op ls ms
    → UniqueIds ls
    → UniqueIds ms
UniqueIds-Reach here u = u
UniqueIds-Reach (next r (change st)) u = UniqueIds-RowSteps st (UniqueIds-Reach r u)
UniqueIds-Reach (next r (insert l ls new live)) u = UniqueIds-append ls l new (UniqueIds-Reach r u)

same_lease :
    (id : Text) (x l : Lease) (ls : List Lease)
    → text_eq x.id id ≡ true
    → get_lease id (x ∷ ls) ≡ some l
    → x ≡ l
same_lease id x l ls hit h = ground (arith, get_lease-cons id x ls)

-- What becomes of the lease with a given identifier: it makes a step, or it was pending and is gone.
abbrev pub Fate : ℕ → Operation → Text → Lease → List Lease → Type 0
Fate now op id l ms =
    ((m : Lease) × (get_lease id ms ≡ some m) × RowStep now op l m)
    ⊎ (l.status ≡ pending) × (get_lease id ms ≡ none)

Fate-cons :
    {now : ℕ} {op : Operation} (id : Text) (l m : Lease) (ms : List Lease)
    → text_eq m.id id ≡ false
    → Fate now op id l ms
    → Fate now op id l (m ∷ ms)
Fate-cons id l m ms miss (inl (m', e, st)) = inl (m', ground (arith, get_lease-cons id m ms), st)
Fate-cons id l m ms miss (inr (p, e)) = inr (p, ground (arith, get_lease-cons id m ms))

row-Fate :
    {now : ℕ} {op : Operation} (id : Text) (l : Lease) {ls ms : List Lease}
    → RowSteps now op ls ms
    → UniqueIds ls
    → get_lease id ls ≡ some l
    → Fate now op id l ms
row-Fate id l nil u h = absurd (unfold get_lease first in cc h)
row-Fate {now} {op} id l (keep {l = x} {m} {ls} {ms} st rest) u h =
    elim (Bool-cases (text_eq x.id id)) [
      | inl hit ↦ inl (
        m,
        ground (arith, RowStep-id st, get_lease-cons id m ms),
        subst (λ y. RowStep now op y m) (same_lease id x l ls hit h) st,
      )
      | inr miss ↦
          Fate-cons id l m ms (ground (arith, RowStep-id st))
            (row-Fate id l rest u.1 (ground (arith, get_lease-cons id x ls)))
    ]
row-Fate id l (drop x {ls} {ms} cause p rest) u h = elim (Bool-cases (text_eq x.id id)) [
  | inl hit ↦ inr (
    subst (λ y. y.status ≡ pending) (same_lease id x l ls hit h) p,
    absent-RowSteps id rest (ground (arith, u.0, text_eq_iff x.id id)),
  )
  | inr miss ↦ row-Fate id l rest u.1 (ground (arith, get_lease-cons id x ls))
]

pub table-Fate :
    {now : ℕ} {op : Operation} (id : Text) (l : Lease) {ls ms : List Lease}
    → TableStep now op ls ms
    → UniqueIds ls
    → get_lease id ls ≡ some l
    → Fate now op id l ms
table-Fate id l (change st) u h = row-Fate id l st u h
table-Fate id l (insert x ls new live) u h =
    inl (l, ground (arith, get_lease-append id ls x), same l)

-- A lease that can never open again: it was decided on, and it is revoked, denied or expired.
abbrev pub is_dead : Lease → Bool
is_dead l = not (is_pending l.status) && (l.revoked || not (is_approved l.status))

RowStep-is_dead :
    {now : ℕ} {op : Operation} {l m : Lease}
    → RowStep now op l m
    → is_dead l ≡ true
    → is_dead m ≡ true
RowStep-is_dead (same l) d = d
RowStep-is_dead (opens l approver e waits live) d = ground arith
RowStep-is_dead (refuses l approver reason e waits live) d = ground arith
RowStep-is_dead (prolongs l ttl who e open_lease live early) d = ground arith
RowStep-is_dead (closes l cause live) d = ground arith
RowStep-is_dead (lapses l limit e waits live given over) d = ground arith

pub Reach-is_dead :
    {now : ℕ} {op : Operation} (id : Text) (l : Lease) {ls ms : List Lease}
    → Reach now op ls ms
    → UniqueIds ls
    → get_lease id ls ≡ some l
    → is_dead l ≡ true
    → (m : Lease) × (get_lease id ms ≡ some m) × (is_dead m ≡ true)
Reach-is_dead id l here u h d = (l, h, d)
Reach-is_dead id l (next r st) u h d =
    let (m, e, d') = Reach-is_dead id l r u h d in
    elim (table-Fate id m st (UniqueIds-Reach r u) e) [
      | inl (n, e', s) ↦ (n, e', RowStep-is_dead s d')
      | inr (p, gone) ↦ absurd (cc (d', p))
    ]
