-- ===== src/Address/Spoofing.antt =====
-- auth/sourceIp.ts: no header that a client writes chooses the address it counts as coming from.
use gatehouse.Common.{
  ℕ, ◌≡◌, inl, inr, refl, ap, Text, split_on, includes, filter_nonempty, true, false, Option, some,
  List, [], ◌∷◌, ◌++◌, ◌==◌, ==_iff, if◌then◌else◌, arith, Bool-cases,
}
use gatehouse.Address.Cidr.{ip_matches_allowlist}
use gatehouse.Address.Source.{
  ResolveSourceIpInput, map_text, strip_mapped, socket_of, is_peer_trusted, hops_of, last_untrusted,
  client_of, from_forwarded, or_unknown, resolve_source_ip,
}

split_on-absent : (c : ℕ) (s : Text) → includes c s ≡ false → split_on c s ≡ s ∷ []
unfolding split_on includes
split_on-absent c [] h = refl
split_on-absent c (x ∷ s) h = ground (arith, split_on-absent c s)

abbrev extend : ℕ → List Text → List Text
extend x [] = (x ∷ []) ∷ []
extend x (t ∷ ts) = (x ∷ t) ∷ ts

split_on-cons :
    (c x : ℕ) (s : Text)
    → split_on c (x ∷ s) ≡ (if x == c then [] ∷ split_on c s else extend x (split_on c s))
unfolding split_on
split_on-cons c x s = ground arith

-- `split` never answers an empty list.
split_on-some : (c : ℕ) (s : Text) → (t : Text) × (ts : List Text) × (split_on c s ≡ t ∷ ts)
unfolding split_on
split_on-some c [] = ([], [], refl)
split_on-some c (x ∷ s) = elim (Bool-cases (x == c)) [
  | inl cut ↦ ([], split_on c s, rw cut refl)
  | inr kept ↦ let (t, ts, e) = split_on-some c s in (x ∷ t, ts, rw (kept, e) refl)
]

same_code : (c : ℕ) → (c == c) ≡ true
same_code c = (==_iff c c).1 refl

split_on-empty : (c : ℕ) → split_on c [] ≡ [] ∷ []
unfolding split_on
split_on-empty c = refl

pub split_on-append : (c : ℕ) (s t : Text) → split_on c (s ++ c ∷ t) ≡ split_on c s ++ split_on c t
split_on-append c [] t = rw (split_on-cons c c t, same_code c, split_on-empty c) refl
split_on-append c (x ∷ s) t = elim (Bool-cases (x == c)) [
  | inl cut ↦
      rw (split_on-cons c x (s ++ c ∷ t), split_on-cons c x s, cut, split_on-append c s t) refl
  | inr kept ↦
      let (first, others, e) = split_on-some c s in
      rw (split_on-cons c x (s ++ c ∷ t), split_on-cons c x s, kept, split_on-append c s t, e) refl
]

filter-cons :
    (v : Text) (ts us more : List Text)
    → filter_nonempty us ≡ filter_nonempty ts ++ more
    → filter_nonempty (v ∷ us) ≡ filter_nonempty (v ∷ ts) ++ more
unfolding filter_nonempty
filter-cons [] ts us more e = e
filter-cons (a ∷ v) ts us more e = ap (λ rest. (a ∷ v) ∷ rest) e

filter_map-append :
    (f : Text → Text) (ts : List Text) (c : ℕ) (s u : Text)
    → f u ≡ c ∷ s
    → filter_nonempty (map_text f (ts ++ u ∷ [])) ≡ filter_nonempty (map_text f ts) ++ (c ∷ s) ∷ []
unfolding filter_nonempty
filter_map-append f [] c s u e = rw e refl
filter_map-append f (t ∷ ts) c s u e =
    filter-cons (f t) (map_text f ts) (map_text f (ts ++ u ∷ [])) ((c ∷ s) ∷ [])
      (filter_map-append f ts c s u e)

last_untrusted-append :
    (trusted : List Text) (hops : List Text) (hop : Text)
    → ip_matches_allowlist hop trusted ≡ false
    → last_untrusted trusted (hops ++ hop ∷ []) ≡ some hop
unfolding last_untrusted
last_untrusted-append trusted [] hop h = rw h refl
last_untrusted-append trusted (x ∷ hops) hop h = rw (last_untrusted-append trusted hops hop h) refl

hops_of-append :
    (written last : Text) (c : ℕ) (hop : Text)
    → includes b',' last ≡ false
    → strip_mapped last ≡ c ∷ hop
    → hops_of (written ++ b',' ∷ last) ≡ hops_of written ++ (c ∷ hop) ∷ []
unfolding hops_of
hops_of-append written last c hop one e =
    rw (split_on-append b',' written last, split_on-absent b',' last one)
      (filter_map-append strip_mapped (split_on b',' written) c hop last e)

-- The request as a proxy hands it on: what the client wrote in `X-Forwarded-For`, then the address
-- that the proxy saw.
abbrev pub forwarded_request :
    Option Text → Text → Text → Option Text → List Text → ResolveSourceIpInput
forwarded_request socket written last real trusted = record {
  socket_ip = socket;
  forwarded_for = some (written ++ b',' ∷ last);
  real_ip = real;
  trusted_proxies = trusted;
}

-- When the last entry of `X-Forwarded-For` is an address that is not a trusted proxy, the request
-- counts as coming from that address if its peer is a trusted proxy, and from the peer's own address
-- otherwise, whatever the client wrote before the last comma and in `X-Real-IP`.
pub resolve_source_ip-IsNotSpoofed :
    (socket : Option Text) (written last : Text) (real : Option Text) (trusted : List Text) (c : ℕ)
    (hop : Text)
    → includes b',' last ≡ false
    → strip_mapped last ≡ c ∷ hop
    → ip_matches_allowlist (c ∷ hop) trusted ≡ false
    → resolve_source_ip (forwarded_request socket written last real trusted) ≡ (
        if is_peer_trusted (forwarded_request socket written last real trusted)
        then c ∷ hop
        else or_unknown (socket_of socket))
unfolding resolve_source_ip from_forwarded client_of
resolve_source_ip-IsNotSpoofed socket written last real trusted c hop one e untrusted =
    rw
      (
        hops_of-append written last c hop one e,
        last_untrusted-append trusted (hops_of written) (c ∷ hop) untrusted,
      )
      refl
