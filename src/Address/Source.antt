-- ===== src/Address/Source.antt =====
-- auth/sourceIp.ts: the address a request counts as coming from, behind trusted proxies or not.
use gatehouse.Common.{
  Text, codes, trim, split_on, filter_nonempty, Bool, true, false, not, ◌&&◌, Option, none, some,
  List, [], ◌∷◌, ◌++◌, if◌then◌else◌, head?,
}
use gatehouse.Address.Cidr.{strip_v4_mapped, ip_matches_allowlist}

abbrev pub default_trusted_proxies : List Text
default_trusted_proxies = codes "127.0.0.0/8" ∷ codes "::1/128" ∷ []

abbrev pub text_or_empty : Option Text → Text
text_or_empty none = []
text_or_empty (some t) = t

abbrev pub map_text : (Text → Text) → List Text → List Text
map_text f [] = []
map_text f (t ∷ ts) = f t ∷ map_text f ts

unfoldable pub parse_trusted_proxies : Option Text → List Text
parse_trusted_proxies env =
    default_trusted_proxies ++ filter_nonempty (map_text trim (split_on b',' (text_or_empty env)))

unfoldable pub strip_mapped : Text → Text
strip_mapped ip = strip_v4_mapped (trim ip)

pub record ResolveSourceIpInput : Type 0 where
  pub socket_ip : Option Text
  pub forwarded_for : Option Text
  pub real_ip : Option Text
  pub trusted_proxies : List Text

abbrev pub unknown : Text
unknown = codes "unknown"

abbrev pub or_unknown : Text → Text
or_unknown [] = unknown
or_unknown (c ∷ s) = c ∷ s

-- An empty address and none are the same; any other one loses its mapping prefix.
unfoldable pub socket_of : Option Text → Text
socket_of none = []
socket_of (some []) = []
socket_of (some (c ∷ s)) = strip_mapped (c ∷ s)

abbrev is_empty : Text → Bool
is_empty [] = true
is_empty (c ∷ s) = false

unfoldable pub is_peer_trusted : ResolveSourceIpInput → Bool
is_peer_trusted input =
    not (is_empty (socket_of input.socket_ip))
    && ip_matches_allowlist (socket_of input.socket_ip) input.trusted_proxies

-- The hops that `X-Forwarded-For` names, left to right.
unfoldable pub hops_of : Text → List Text
hops_of header = filter_nonempty (map_text strip_mapped (split_on b',' header))

-- The rightmost hop that is not a trusted proxy.
unfoldable pub last_untrusted : List Text → List Text → Option Text
last_untrusted trusted [] = none
last_untrusted trusted (hop ∷ hops) = elim (last_untrusted trusted hops) [
  | some later ↦ some later
  | none ↦ if ip_matches_allowlist hop trusted then none else some hop
]

-- The hop the chain settles on: when all of them are trusted, the leftmost one.
unfoldable pub client_of : List Text → List Text → Option Text
client_of trusted chain = elim (last_untrusted trusted chain) [
  | some hop ↦ some hop
  | none ↦ head? chain
]

unfoldable pub from_forwarded : List Text → Option Text → Option Text
from_forwarded trusted none = none
from_forwarded trusted (some header) = client_of trusted (hops_of header)

unfoldable pub from_real_ip : Option Text → Text → Text
from_real_ip none socket = or_unknown socket
from_real_ip (some header) socket = elim (strip_mapped header) [
  | [] ↦ or_unknown socket
  | c ∷ s ↦ c ∷ s
]

unfoldable pub resolve_source_ip : ResolveSourceIpInput → Text
resolve_source_ip input =
    if is_peer_trusted input
    then elim (from_forwarded input.trusted_proxies input.forwarded_for) [
      | some client ↦ client
      | none ↦ from_real_ip input.real_ip (socket_of input.socket_ip)
    ]
    else or_unknown (socket_of input.socket_ip)
