-- ===== src/Lease/Finding.antt =====
-- lease/manager.ts: the window that `findActiveApprovedLease` chooses, and `checkout` behind it.
use gatehouse.Common.{
  ℕ, ◌≡◌, inl, inr, refl, Text, Bool, true, false, not, ◌&&◌, ◌||◌, Option, none, some, List, [],
  ◌∷◌, leb, if◌then◌else◌, Any, All, select, sort_by, insert_by, head?, arith, Bool-cases,
}
use gatehouse.Lease.State.{Lease, is_for, is_open, expires_later, find_active_approved_lease}

-- The answer is a row that passes and that no passing row outlasts, or there is no such row.
abbrev pub IsLongest : (Lease → Bool) → List Lease → Option Lease → Type 0
IsLongest p ls none = All (λ x. p x ≡ false) ls
IsLongest p ls (some l) =
    Any (λ x. x ≡ l) ls
    × (p l ≡ true)
    × All (λ x. (not (p x) || leb x.expires_at l.expires_at) ≡ true) ls

head-insert_by :
    (x : Lease) (ys : List Lease)
    → head? (insert_by expires_later x ys)
      ≡ elim (head? ys) [ none ↦ some x | some y ↦ if expires_later y x then some y else some x ]
unfolding insert_by
head-insert_by x [] = refl
head-insert_by x (y ∷ ys) = ground arith

abbrev longest : (Lease → Bool) → List Lease → Option Lease
longest p ls = head? (sort_by expires_later (select p ls))

abbrev better : Lease → Option Lease → Option Lease
better x none = some x
better x (some y) = if expires_later y x then some y else some x

longest-cons :
    (p : Lease → Bool) (x : Lease) (ls : List Lease)
    → longest p (x ∷ ls) ≡ (if p x then better x (longest p ls) else longest p ls)
unfolding select sort_by
longest-cons p x ls = ground (arith, head-insert_by x (sort_by expires_later (select p ls)))

none_outlasts :
    (p : Lease → Bool) (l m : Lease) (ls : List Lease)
    → leb l.expires_at m.expires_at ≡ true
    → All (λ x. (not (p x) || leb x.expires_at l.expires_at) ≡ true) ls
    → All (λ x. (not (p x) || leb x.expires_at m.expires_at) ≡ true) ls
none_outlasts p l m [] h all = tt
none_outlasts p l m (x ∷ ls) h (a, all) = (ground arith, none_outlasts p l m ls h all)

none_passes :
    (p : Lease → Bool) (m : Lease) (ls : List Lease)
    → All (λ x. p x ≡ false) ls
    → All (λ x. (not (p x) || leb x.expires_at m.expires_at) ≡ true) ls
none_passes p m [] all = tt
none_passes p m (x ∷ ls) (a, all) = (ground arith, none_passes p m ls all)

IsLongest-skip :
    (p : Lease → Bool) (x : Lease) (ls : List Lease) (o : Option Lease)
    → p x ≡ false
    → IsLongest p ls o
    → IsLongest p (x ∷ ls) o
IsLongest-skip p x ls none miss all = (miss, all)
IsLongest-skip p x ls (some l) miss (there, passes, all) = (inr there, passes, (ground arith, all))

IsLongest-better :
    (p : Lease → Bool) (x : Lease) (ls : List Lease) (o : Option Lease)
    → p x ≡ true
    → IsLongest p ls o
    → IsLongest p (x ∷ ls) (better x o)
IsLongest-better p x ls none hit all = (inl refl, hit, (ground arith, none_passes p x ls all))
IsLongest-better p x ls (some l) hit (there, passes, all) = elim (Bool-cases (expires_later l x)) [
  | inl later ↦ rw later (inr there, passes, (ground arith, all))
  | inr sooner ↦
      rw sooner (inl refl, hit, (ground arith, none_outlasts p l x ls (ground arith) all))
]

longest-IsLongest : (p : Lease → Bool) (ls : List Lease) → IsLongest p ls (longest p ls)
longest-IsLongest p [] = unfold select sort_by in tt
longest-IsLongest p (x ∷ ls) =
    let ih = longest-IsLongest p ls in
    elim (Bool-cases (p x)) [
      | inl hit ↦ rw (longest-cons p x ls, hit) (IsLongest-better p x ls (longest p ls) hit ih)
      | inr miss ↦ rw (longest-cons p x ls, miss) (IsLongest-skip p x ls (longest p ls) miss ih)
    ]

-- The search for an access window answers a lease of that identity and path that is approved, not
-- revoked and not over, and that no other such lease outlasts; it answers none only when the table
-- has no such lease.
pub find_active_approved_lease-IsLongest :
    (now : ℕ) (identity path : Text) (ls : List Lease)
    → IsLongest
        (λ l. is_for identity path l && is_open now l)
        ls
        (find_active_approved_lease now identity path ls)
unfolding find_active_approved_lease
find_active_approved_lease-IsLongest now identity path ls = longest-IsLongest _ ls
