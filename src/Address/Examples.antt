-- ===== src/Address/Examples.antt =====
-- Runs of auth/cidr.ts and auth/sourceIp.ts at concrete addresses.
use gatehouse.Common.{
  ◌-◌, ◌≡◌, ◌↔◌, refl, Text, codes, ◌∷◌, [], none, some, true, false, arith, if◌then◌else◌,
  split_on, includes, starts_with, trim, trim_start, is_space, digits_value,
}
use gatehouse.Address.Number.{
  digit_of, radix_value, digits_run, exponent, nearest_whole, decimal_parts, unsigned_decimal,
  number_literal, number_up_to_255,
}
use gatehouse.Address.Cidr.{
  ipv4_parts, ipv4_to_int, lower_case, before_zone, before_gap, after_gap, ipv6_groups, hex_value,
  group_value, group_bytes, ipv6_to_bytes, split_cidr, prefix_length, bit_and, mask_v4,
  in_subnet_v4, cidr_match_v4, mask_byte, in_subnet_v6, cidr_match_v6, read_address, entry_matches,
  some_entry_matches, ip_matches_allowlist, entry_problem, validate_cidrs,
}
use gatehouse.Address.Subnet.{leading, in_subnet_v4-SharesPrefix}
use gatehouse.Address.Source.{
  default_trusted_proxies, strip_mapped, socket_of, is_peer_trusted, or_unknown, resolve_source_ip,
}
use gatehouse.Address.Spoofing.{forwarded_request, resolve_source_ip-IsNotSpoofed}

office : ipv4_to_int (codes "10.1.2.3") ≡ some 167838211
unfolding ipv4_to_int ipv4_parts split_on number_up_to_255 number_literal radix_value digit_of
    digits_run decimal_parts unsigned_decimal nearest_whole exponent trim trim_start is_space
    digits_value
office = refl

in_office : ip_matches_allowlist (codes "10.1.2.3") (codes " 10.0.0.0/8 " ∷ []) ≡ true
unfolding ip_matches_allowlist some_entry_matches read_address entry_matches cidr_match_v4
    cidr_match_v6 in_subnet_v4 bit_and mask_v4 split_cidr prefix_length includes starts_with
    ipv4_to_int ipv4_parts split_on number_up_to_255 number_literal radix_value digit_of digits_run
    decimal_parts unsigned_decimal nearest_whole exponent trim trim_start is_space digits_value
in_office = refl

-- An empty prefix length reads as 0, so the entry is accepted and holds every IPv4 address.
empty_length_accepted : validate_cidrs (codes "10.0.0.0/" ∷ []) ≡ none
unfolding validate_cidrs entry_problem split_cidr prefix_length includes starts_with ipv4_to_int
    ipv4_parts split_on number_up_to_255 number_literal radix_value digit_of digits_run
    decimal_parts unsigned_decimal nearest_whole exponent trim trim_start is_space digits_value
empty_length_accepted = refl

empty_length_matches : ip_matches_allowlist (codes "203.0.113.9") (codes "10.0.0.0/" ∷ []) ≡ true
unfolding ip_matches_allowlist some_entry_matches read_address entry_matches cidr_match_v4
    cidr_match_v6 in_subnet_v4 bit_and mask_v4 split_cidr prefix_length includes starts_with
    ipv4_to_int ipv4_parts split_on number_up_to_255 number_literal radix_value digit_of digits_run
    decimal_parts unsigned_decimal nearest_whole exponent trim trim_start is_space digits_value
empty_length_matches = refl

in_subnet_v6_loopback : ip_matches_allowlist (codes "::1") default_trusted_proxies ≡ true
unfolding ip_matches_allowlist some_entry_matches read_address entry_matches cidr_match_v4
    cidr_match_v6 in_subnet_v4 in_subnet_v6 mask_byte bit_and mask_v4 split_cidr prefix_length
    includes starts_with ipv4_to_int ipv4_parts ipv6_to_bytes ipv6_groups lower_case before_zone
    before_gap after_gap hex_value group_value group_bytes split_on number_up_to_255 number_literal
    radix_value digit_of digits_run decimal_parts unsigned_decimal nearest_whole exponent trim
    trim_start is_space digits_value
in_subnet_v6_loopback = refl

in_subnet_v4-SharesPrefix_example :
    (in_subnet_v4 167838211 167772160 8 ≡ true)
    ↔ (leading (32 - 8) 167838211 ≡ leading (32 - 8) 167772160)
in_subnet_v4-SharesPrefix_example =
    in_subnet_v4-SharesPrefix 167838211 167772160 8 (omega arith) (omega arith) (omega arith)

abbrev client : Text
client = codes "203.0.113.9"

one_entry : includes b',' client ≡ false
unfolding includes
one_entry = refl

client_stripped : strip_mapped (b' ' ∷ client) ≡ client
unfolding strip_mapped trim trim_start is_space starts_with
client_stripped = refl

one_entry_spaced : includes b',' (b' ' ∷ client) ≡ false
unfolding includes
one_entry_spaced = refl

client_untrusted : ip_matches_allowlist client default_trusted_proxies ≡ false
unfolding ip_matches_allowlist some_entry_matches read_address entry_matches cidr_match_v4
    cidr_match_v6 in_subnet_v4 in_subnet_v6 mask_byte bit_and mask_v4 split_cidr prefix_length
    includes starts_with ipv4_to_int ipv4_parts ipv6_to_bytes ipv6_groups lower_case before_zone
    before_gap after_gap hex_value group_value group_bytes split_on number_up_to_255 number_literal
    radix_value digit_of digits_run decimal_parts unsigned_decimal nearest_whole exponent trim
    trim_start is_space digits_value
client_untrusted = refl

resolve_source_ip-IsNotSpoofed_example :
    resolve_source_ip (
      forwarded_request
        (some (codes "127.0.0.1"))
        (codes "10.0.0.1")
        (b' ' ∷ client)
        (some (codes "10.0.0.2"))
        default_trusted_proxies)
    ≡ (if is_peer_trusted (
          forwarded_request
            (some (codes "127.0.0.1"))
            (codes "10.0.0.1")
            (b' ' ∷ client)
            (some (codes "10.0.0.2"))
            default_trusted_proxies)
        then client
        else or_unknown (socket_of (some (codes "127.0.0.1"))))
resolve_source_ip-IsNotSpoofed_example =
    resolve_source_ip-IsNotSpoofed (some (codes "127.0.0.1")) (codes "10.0.0.1") (b' ' ∷ client)
      (some (codes "10.0.0.2")) default_trusted_proxies b'2' (codes "03.0.113.9") one_entry_spaced
      client_stripped client_untrusted
