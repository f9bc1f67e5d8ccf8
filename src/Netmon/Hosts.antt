-- ===== src/Netmon/Hosts.antt =====
-- The addresses that a scan of a range probes.
use asset_it.Prelude.{
  ℕ, zero, suc, ◌+◌, ◌-◌, ◌%◌, ◌≤◌, ◌<◌, true, false, ==_iff, leb, ◌≡◌, refl, ap, sym, subst, ◌∙◌,
  Option, some, List, [], ◌∷◌, Text, trim, split, length, All, Bool-cases, Option-cases, inl, inr,
  arith,
}
use native.Mathlib.Nat.{mod-eq_of_lt, pow-le-pow_right}
use asset_it.Netmon.Addresses.{number_from, ip_to_int, int_to_ip}
use asset_it.Netmon.Addresses.RoundTrip.{ip_to_int-int_to_ip}
use asset_it.Netmon.Blocks.{ip_to_int-bound, block-below, block-within}
use asset_it.Netmon.Ranges.{
  ParsedCidr, block_size, block_start, parse_parts, parse_cidr, parsed_block, addresses_from,
  hosts_of, host_addresses, in_block, is_in_cidr,
}

parse_parts-block :
    (parts : List Text) (p : ParsedCidr)
    → parse_parts parts ≡ some p
    → (prefix : ℕ) × (v : ℕ) × (22 ≤ prefix)
      × (prefix ≤ 32)
      × (v < 4294967296)
      × (parsed_block prefix v ≡ p)
parse_parts-block (address ∷ prefix_text ∷ []) p e = elim (Option-cases (ip_to_int address)) [
  | inl bad ↦ absurd (ground arith)
  | inr (v, read) ↦ (
    number_from 0 prefix_text,
    v,
    ground arith,
    ground arith,
    ip_to_int-bound address v read,
    ground arith,
  )
]
parse_parts-block _ p e = absurd (ground arith)

length-addresses_from : (base offset count : ℕ) → length (addresses_from base offset count) ≡ count
unfolding addresses_from
length-addresses_from base offset zero = refl
length-addresses_from base offset (suc count) =
    ap suc (length-addresses_from base (suc offset) count)

block_host :
    (prefix v o : ℕ)
    → prefix ≤ 32
    → v < 4294967296
    → o < block_size prefix
    → in_block
        (some (parsed_block prefix v))
        (ip_to_int (int_to_ip ((block_start (block_size prefix) v + o) % 4294967296)))
      ≡ true
block_host prefix v o most low inside =
    let below = block-below prefix v o most low inside in
    let itself = mod-eq_of_lt below in
    ap (λ n. in_block (some (parsed_block prefix v)) (ip_to_int (int_to_ip n))) itself
    ∙ ap (in_block (some (parsed_block prefix v)))
        (ip_to_int-int_to_ip (block_start (block_size prefix) v + o) below)
    ∙ (==_iff _ _).1 (block-within prefix v o inside)

addresses_from-in_block :
    (prefix v offset count : ℕ)
    → prefix ≤ 32
    → v < 4294967296
    → offset + count ≤ block_size prefix
    → All
        (λ h. in_block (some (parsed_block prefix v)) (ip_to_int h) ≡ true)
        (addresses_from (block_start (block_size prefix) v) offset count)
unfolding addresses_from
addresses_from-in_block prefix v offset zero most low fits = tt
addresses_from-in_block prefix v offset (suc count) most low fits = (
  block_host prefix v offset most low (omega (arith, fits)),
  addresses_from-in_block prefix v (suc offset) count most low (omega (arith, fits)),
)

block_size-few : (prefix : ℕ) → 22 ≤ prefix → block_size prefix ≤ 1024
block_size-few prefix least = pow-le-pow_right (omega arith) {j = 10} (omega (arith, least))

record HostList (p : ParsedCidr) (hosts : List Text) : Type 0 where
  inside : All (λ h. in_block (some p) (ip_to_int h) ≡ true) hosts
  few : length hosts ≤ 1022
  count : length hosts ≡ p.host_count

tiny_block :
    (prefix v : ℕ)
    → leb (block_size prefix) 2 ≡ true
    → addresses_from (block_start (block_size prefix) v) 0 (block_size prefix)
      ≡ hosts_of (some (parsed_block prefix v))
tiny_block prefix v tiny = ground arith

large_block :
    (prefix v : ℕ)
    → leb (block_size prefix) 2 ≡ false
    → addresses_from (block_start (block_size prefix) v) 1 (block_size prefix - 2)
      ≡ hosts_of (some (parsed_block prefix v))
large_block prefix v large = ground arith

parsed_block-HostList :
    (prefix v : ℕ)
    → 22 ≤ prefix
    → prefix ≤ 32
    → v < 4294967296
    → HostList (parsed_block prefix v) (hosts_of (some (parsed_block prefix v)))
parsed_block-HostList prefix v least most low =
    let base = block_start (block_size prefix) v in
    let size = block_size prefix in
    let small = block_size-few prefix least in
    elim (Bool-cases (leb size 2)) [
      | inl tiny ↦
          let all = length-addresses_from base 0 size in
          subst (HostList (parsed_block prefix v)) (tiny_block prefix v tiny) (record {
            inside = addresses_from-in_block prefix v 0 size most low (omega arith);
            few = ground arith;
            count = ground arith;
          })
      | inr large ↦
          let all = length-addresses_from base 1 (size - 2) in
          subst (HostList (parsed_block prefix v)) (large_block prefix v large) (record {
            inside = addresses_from-in_block prefix v 1 (size - 2) most low (ground arith);
            few = ground arith;
            count = ground arith;
          })
    ]

parse_cidr-block :
    (cidr : Text) (p : ParsedCidr) → parse_cidr cidr ≡ some p → HostList p (hosts_of (some p))
unfolding parse_cidr
parse_cidr-block cidr p e =
    let (prefix, v, least, most, low, is) = parse_parts-block (split 47 (trim cidr)) p e in
    subst (λ q. HostList q (hosts_of (some q))) is (parsed_block-HostList prefix v least most low)

abbrev Probed : Option ParsedCidr → Type 0
Probed o = (length (hosts_of o) ≤ 1022) × All (λ h. in_block o (ip_to_int h) ≡ true) (hosts_of o)

-- Whatever the text of a range, a scan of it probes 1022 addresses at most, and each of them is an
-- address in the range.
pub host_addresses-in_cidr :
    (cidr : Text)
    → (length (host_addresses cidr) ≤ 1022)
      × All (λ h. is_in_cidr h cidr ≡ true) (host_addresses cidr)
unfolding host_addresses is_in_cidr
host_addresses-in_cidr cidr = elim (Option-cases (parse_cidr cidr)) [
  | inl bad ↦ subst Probed (sym bad) (omega arith, tt)
  | inr (p, parsed) ↦
      let hosts = parse_cidr-block cidr p parsed in
      subst Probed (sym parsed) (hosts.few, hosts.inside)
]

-- For a range that parses, the addresses that a scan probes are as many as the parsed range says.
pub host_addresses-counts :
    (cidr : Text) (p : ParsedCidr)
    → parse_cidr cidr ≡ some p
    → length (host_addresses cidr) ≡ p.host_count
unfolding host_addresses
host_addresses-counts cidr p parsed =
    ap (λ q. length (hosts_of q)) parsed ∙ (parse_cidr-block cidr p parsed).count
