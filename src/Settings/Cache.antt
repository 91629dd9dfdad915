-- ===== src/Settings/Cache.antt =====
-- settings/proxyLimits.ts: the cache never shows, and every limit in force lies in the hard range.
use gatehouse.Common.{
  ◌≡◌, ◌⊎◌, inl, inr, refl, sym, ap, subst, ◌∙◌, Text, Bool, true, ◌&&◌, Option, none, some, List,
  [], ◌∷◌, leb, arith,
}
use gatehouse.Settings.ProxyLimits.{
  ProxyLimits, hard_ceiling, hard_floor, Input, LimitError, Stored, malformed, stored,
  ValidationResult, ok, not_ok, State, read_row, get_proxy_limits, set_proxy_limits,
  validate_proxy_limits, written, field_errors,
}

-- The methods, in any order. `resets` is the one for tests.
pub data Operation : Type 0 where
  reads resets : Operation
  writes : Text → Option Text → Input → Operation

unfoldable pub perform : Operation → State → State
perform reads s = (get_proxy_limits s).1
perform resets s = record s { cached_limits = none }
perform (writes identity source_ip input) s = (set_proxy_limits identity source_ip input s).1

unfoldable pub perform_all : List Operation → State → State
perform_all [] s = s
perform_all (op ∷ ops) s = perform_all ops (perform op s)

-- The limits in force after one method: an accepted write replaces them.
unfoldable pub after : Operation → ProxyLimits → ProxyLimits
after reads limits = limits
after resets limits = limits
after (writes identity source_ip input) limits = elim (validate_proxy_limits input) [
  | ok next ↦ next
  | not_ok errors ↦ limits
]

-- The limits that the last accepted write set, or the ones before.
unfoldable pub last_written : List Operation → ProxyLimits → ProxyLimits
last_written [] limits = limits
last_written (op ∷ ops) limits = last_written ops (after op limits)

-- What is cached is what a read of the table answers.
abbrev pub IsCoherent : State → Type 0
IsCoherent s = (s.cached_limits ≡ none) ⊎ (s.cached_limits ≡ some (read_row s.row))

abbrev pub in_range : ProxyLimits → Bool
in_range l =
    leb hard_floor.max_timeout_ms l.max_timeout_ms
    && leb l.max_timeout_ms hard_ceiling.max_timeout_ms
    && leb hard_floor.max_body_bytes l.max_body_bytes
    && leb l.max_body_bytes hard_ceiling.max_body_bytes

pub validated-in_range :
    (input : Input) (limits : ProxyLimits)
    → validate_proxy_limits input ≡ ok limits
    → in_range limits ≡ true
unfolding validate_proxy_limits field_errors
validated-in_range input limits e = ground (arith, e)

pub read_row-written :
    (limits : ProxyLimits) → in_range limits ≡ true → read_row (some (written limits)) ≡ limits
unfolding read_row validate_proxy_limits field_errors
read_row-written limits h = ground (arith, h)

pub ValidationResult-cases :
    (v : ValidationResult)
    → ((limits : ProxyLimits) × (v ≡ ok limits))
      ⊎ ((errors : List LimitError) × (v ≡ not_ok errors))
ValidationResult-cases (ok limits) = inl (limits, refl)
ValidationResult-cases (not_ok errors) = inr (errors, refl)

read_row-in_range : (row : Option Stored) → in_range (read_row row) ≡ true
unfolding read_row
read_row-in_range none = refl
read_row-in_range (some malformed) = refl
read_row-in_range (some (stored input)) =
    elim (ValidationResult-cases (validate_proxy_limits input)) [
      | inl (limits, e) ↦ rw (e, read_row) (validated-in_range input limits e)
      | inr (errors, e) ↦ rw (e, read_row) refl
    ]

get-read_row : (s : State) → IsCoherent s → (get_proxy_limits s).0 ≡ read_row s.row
unfolding get_proxy_limits
get-read_row s (inl e) = rw (e, get_proxy_limits) refl
get-read_row s (inr e) = rw (e, get_proxy_limits) refl

perform-row :
    (op : Operation) (s : State)
    → IsCoherent s
    → IsCoherent (perform op s) × (read_row (perform op s).row ≡ after op (read_row s.row))
unfolding perform after get_proxy_limits set_proxy_limits
perform-row reads s (inl e) = rw (e, perform) (inr refl, refl)
perform-row reads s (inr e) = rw (e, perform) (inr e, refl)
perform-row resets s c = (inl refl, refl)
perform-row (writes identity source_ip input) s c =
    elim (ValidationResult-cases (validate_proxy_limits input)) [
      | inl (next, e) ↦
          rw (e, perform, after) (inl refl, read_row-written next (validated-in_range input next e))
      | inr (errors, e) ↦ rw (e, perform, after) (c, refl)
    ]

perform_all-row :
    (ops : List Operation) (s : State)
    → IsCoherent s
    → IsCoherent (perform_all ops s)
      × (read_row (perform_all ops s).row ≡ last_written ops (read_row s.row))
unfolding perform_all last_written
perform_all-row [] s c = (c, refl)
perform_all-row (op ∷ ops) s c =
    let (c', e) = perform-row op s c in
    let (c'', e') = perform_all-row ops (perform op s) c' in (c'', e' ∙ ap (last_written ops) e)

-- From a cache that is empty or agrees with the table, after any methods in any order, the
-- limits answered are those of the last write that was accepted, or else those of the table
-- before, and they lie between the hard floor and the hard ceiling.
pub perform_all-InForce :
    (ops : List Operation) (s : State)
    → IsCoherent s
    → ((get_proxy_limits (perform_all ops s)).0 ≡ last_written ops (read_row s.row))
      × (in_range (get_proxy_limits (perform_all ops s)).0 ≡ true)
perform_all-InForce ops s c =
    let (c', e) = perform_all-row ops s c in
    let g = get-read_row (perform_all ops s) c' in
    (g ∙ e, subst (λ l. in_range l ≡ true) (sym g) (read_row-in_range (perform_all ops s).row))
