-- ===== src/Address/Cidr.antt =====
-- auth/cidr.ts: IPv4 and IPv6 addresses, and the lists of networks that callers are held against.
use gatehouse.Common.{
  ℕ, zero, suc, ◌+◌, ◌-◌, ◌*◌, ◌/◌, ◌%◌, ◌^◌, Text, codes, trim, length, drop, replicate, split_on,
  starts_with, includes, Bool, true, false, not, ◌&&◌, ◌||◌, Option, none, some, List, [], ◌∷◌,
  ◌++◌, ltb, leb, ◌==◌, if◌then◌else◌,
}
use gatehouse.Address.Number.{digit_of, number_up_to_255}

-- The loop over the four parts, each a whole number from 0 to 255.
unfoldable pub ipv4_parts : ℕ → List Text → Option ℕ
ipv4_parts n [] = some n
ipv4_parts n (p ∷ ps) = elim (number_up_to_255 p) [
  | none ↦ none
  | some x ↦ ipv4_parts (n * 256 + x) ps
]

unfoldable pub ipv4_to_int : Text → Option ℕ
ipv4_to_int ip =
    let parts = split_on b'.' ip in if length parts == 4 then ipv4_parts 0 parts else none

-- `toLowerCase`: an address has ASCII letters, and no other letter becomes a hexadecimal digit, a
-- colon or a percent sign.
abbrev lower : ℕ → ℕ
lower c = if leb b'A' c && leb c b'Z' then c + 32 else c

unfoldable pub lower_case : Text → Text
lower_case [] = []
lower_case (c ∷ s) = lower c ∷ lower_case s

-- The text before the first `%`.
unfoldable pub before_zone : Text → Text
before_zone [] = []
before_zone (c ∷ s) = let rest = before_zone s in if c == b'%' then [] else c ∷ rest

-- `split("::", 2)`, once the text has `::`: what stands before the first one, and between that one
-- and the next one or the end.
unfoldable pub before_gap : Text → Text
before_gap [] = []
before_gap (c ∷ s) =
    let rest = before_gap s in if starts_with (codes "::") (c ∷ s) then [] else c ∷ rest

unfoldable pub after_gap : Text → Option Text
after_gap [] = none
after_gap (c ∷ s) =
    let rest = after_gap s in if starts_with (codes "::") (c ∷ s) then some (drop 1 s) else rest

abbrev groups_of : Text → List Text
groups_of [] = []
groups_of (c ∷ s) = split_on b':' (c ∷ s)

-- Head and tail groups.
unfoldable pub ipv6_groups : Text → List Text × List Text
unfolding before_gap after_gap
ipv6_groups s = elim (after_gap s) [
  | none ↦ (split_on b':' s, [])
  | some t ↦ (groups_of (before_gap s), groups_of (before_gap t))
]

-- One to four hexadecimal digits, lower case: the value.
unfoldable pub hex_value : ℕ → Text → Option ℕ
hex_value acc [] = some acc
hex_value acc (c ∷ s) =
    let rest = hex_value (acc * 16 + digit_of c) s in
    if ltb (digit_of c) 16 && not (leb b'A' c && leb c b'F') then rest else none

unfoldable pub group_value : Text → Option ℕ
unfolding hex_value
group_value g = if leb 1 (length g) && leb (length g) 4 then hex_value 0 g else none

unfoldable pub group_bytes : List Text → Option (List ℕ)
unfolding group_value
group_bytes [] = some []
group_bytes (g ∷ gs) = elim (group_value g) [
  | none ↦ none
  | some v ↦ elim (group_bytes gs) [
    | none ↦ none
    | some bytes ↦ some (v / 256 % 256 ∷ v % 256 ∷ bytes)
  ]
]

unfoldable pub ipv6_to_bytes : Text → Option (List ℕ)
unfolding ipv6_groups lower_case before_zone
ipv6_to_bytes ip =
    let (head, tail) = ipv6_groups (before_zone (lower_case ip)) in
    let filled = length head + length tail in
    if ltb 8 filled then none else group_bytes (head ++ replicate (8 - filled) (codes "0") ++ tail)

-- `const [net, lenStr] = cidr.split("/")`: what follows a second slash is dropped.
abbrev net_and_length : List Text → Text × Option Text
net_and_length [] = ([], none)
net_and_length (net ∷ []) = (net, none)
net_and_length (net ∷ len ∷ _) = (net, some len)

unfoldable pub split_cidr : Text → Text × Option Text
split_cidr cidr = net_and_length (split_on b'/' cidr)

-- The prefix length: the whole address where none is written.
unfoldable pub prefix_length : ℕ → Option Text → Option ℕ
prefix_length bits none = some bits
prefix_length bits (some len) = elim (number_up_to_255 len) [
  | none ↦ none
  | some n ↦ if leb n bits then some n else none
]

-- `a & b` on words of `w` bits.
unfoldable pub bit_and : ℕ → ℕ → ℕ → ℕ
bit_and zero a b = 0
bit_and (suc w) a b = a % 2 * (b % 2) + 2 * bit_and w (a / 2) (b / 2)

-- `(~0 << (32 - len)) >>> 0`
unfoldable pub mask_v4 : ℕ → ℕ
mask_v4 len = (2 ^ 32 - 1) * 2 ^ (32 - len) % 2 ^ 32

unfoldable pub in_subnet_v4 : ℕ → ℕ → ℕ → Bool
in_subnet_v4 ip net len =
    if len == 0 then true else bit_and 32 ip (mask_v4 len) == bit_and 32 net (mask_v4 len)

unfoldable pub cidr_match_v4 : ℕ → Text → Bool
cidr_match_v4 ip cidr = elim (ipv4_to_int (split_cidr cidr).0) [
  | none ↦ false
  | some net ↦ elim (prefix_length 32 (split_cidr cidr).1) [
    | none ↦ false
    | some len ↦ in_subnet_v4 ip net len
  ]
]

-- `(0xff << (8 - remBits)) & 0xff`
unfoldable pub mask_byte : ℕ → ℕ
mask_byte rem = 255 * 2 ^ (8 - rem) % 256

-- The loop over the full bytes, then the bits that are left in the next one. An address has 16
-- bytes, so an index that the code reads is there.
unfoldable pub in_subnet_v6 : ℕ → ℕ → List ℕ → List ℕ → Bool
in_subnet_v6 (suc full) rem (x ∷ ip) (y ∷ net) = x == y && in_subnet_v6 full rem ip net
in_subnet_v6 zero rem (x ∷ ip) (y ∷ net) =
    rem == 0 || (bit_and 8 x (mask_byte rem) == bit_and 8 y (mask_byte rem))
in_subnet_v6 full rem _ _ = true

unfoldable pub cidr_match_v6 : List ℕ → Text → Bool
cidr_match_v6 ip cidr = elim (ipv6_to_bytes (split_cidr cidr).0) [
  | none ↦ false
  | some net ↦ elim (prefix_length 128 (split_cidr cidr).1) [
    | none ↦ false
    | some len ↦ in_subnet_v6 (len / 8) (len % 8) ip net
  ]
]

-- An address as the code reads it: IPv4 if it can be, else IPv6, else neither.
pub data Address : Type 0 where
  v4 : ℕ → Address
  v6 : List ℕ → Address
  neither : Address

abbrev pub strip_v4_mapped : Text → Text
strip_v4_mapped ip = if starts_with (codes "::ffff:") ip then drop 7 ip else ip

unfoldable pub read_address : Text → Address
read_address ip = elim (ipv4_to_int (strip_v4_mapped ip)) [
  | some n ↦ v4 n
  | none ↦ elim (ipv6_to_bytes (strip_v4_mapped ip)) [ none ↦ neither | some bytes ↦ v6 bytes ]
]

-- One entry, trimmed and not empty.
unfoldable pub entry_matches : Address → Text → Bool
entry_matches (v4 n) cidr = includes b'.' cidr && cidr_match_v4 n cidr
entry_matches (v6 bytes) cidr = not (includes b'.' cidr) && cidr_match_v6 bytes cidr
entry_matches neither cidr = false

unfoldable pub some_entry_matches : Address → List Text → Bool
some_entry_matches a [] = false
some_entry_matches a (raw ∷ rest) =
    elim (trim raw) [ [] ↦ false | c ∷ s ↦ entry_matches a (c ∷ s) ] || some_entry_matches a rest

unfoldable pub ip_matches_allowlist : Text → List Text → Bool
ip_matches_allowlist ip [] = true
ip_matches_allowlist ip (raw ∷ rest) = some_entry_matches (read_address ip) (raw ∷ rest)

-- What `validateCIDRs` finds wrong with an entry; its message also quotes the entry.
pub data CidrProblem : Type 0 where
  bad_v4_address bad_v6_address bad_length : CidrProblem

abbrev is_none {ℓ} : {A : Type ℓ} → Option A → Bool
is_none none = true
is_none (some a) = false

unfoldable pub entry_problem : Text → Option CidrProblem
entry_problem cidr =
    let (net, len) = split_cidr cidr in
    if includes b'.' net
    then (if is_none (ipv4_to_int net)
        then some bad_v4_address
        else if is_none (prefix_length 32 len)
        then some bad_length
        else none)
    else if is_none (ipv6_to_bytes net)
    then some bad_v6_address
    else if is_none (prefix_length 128 len)
    then some bad_length
    else none

-- An entry that is blank is passed over.
abbrev trimmed_problem : Text → Option CidrProblem
trimmed_problem [] = none
trimmed_problem (c ∷ s) = entry_problem (c ∷ s)

unfoldable pub validate_cidrs : List Text → Option CidrProblem
validate_cidrs [] = none
validate_cidrs (raw ∷ rest) = elim (trimmed_problem (trim raw)) [
  | some problem ↦ some problem
  | none ↦ validate_cidrs rest
]
