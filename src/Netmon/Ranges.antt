-- ===== src/Netmon/Ranges.antt =====
-- CIDR ranges of apps/api/src/modules/netmon/network.ts. `value & mask`, for a mask that leaves out
-- the bits of a block of 2 ^ (32 - prefix) addresses, is the first address of the block of `value`,
-- and `base | ~mask` the last one.
use asset_it.Prelude.{
  ℕ, zero, suc, ◌+◌, ◌-◌, ◌*◌, ◌/◌, ◌%◌, ◌^◌, Bool, false, not, ◌&&◌, ◌||◌, ◌==◌, leb, ltb, Option,
  none, some, List, [], ◌∷◌, Text, trim, split, length, any, if◌then◌else◌,
}
use asset_it.Netmon.Addresses.{is_digit, number_from, ip_to_int, int_to_ip}

pub record ParsedCidr : Type 0 where
  pub base : ℕ
  pub prefix : ℕ
  pub network : Text
  pub broadcast : Text
  pub host_count : ℕ

-- `2 ** (32 - prefix)`
abbrev pub block_size : ℕ → ℕ
block_size prefix = 2 ^ (32 - prefix)

abbrev pub block_start : ℕ → ℕ → ℕ
block_start size value = value / size * size

-- `/^\d{1,2}$/.test(prefixText)`
abbrev pub is_prefix_text : Text → Bool
is_prefix_text t = not (any (λ c. not (is_digit c)) t) && leb 1 (length t) && leb (length t) 2

-- `total <= 2 ? total : total - 2`
abbrev pub usable : ℕ → ℕ
usable total = if leb total 2 then total else total - 2

abbrev pub parsed_block : ℕ → ℕ → ParsedCidr
parsed_block prefix value =
    let size = block_size prefix in
    let base = block_start size value in
    record {
      base = base;
      prefix = prefix;
      network = int_to_ip base;
      broadcast = int_to_ip (base + (size - 1));
      host_count = usable size;
    }

abbrev pub parse_block : ℕ → Option ℕ → Option ParsedCidr
parse_block prefix none = none
parse_block prefix (some value) = some (parsed_block prefix value)

abbrev pub parse_parts : List Text → Option ParsedCidr
parse_parts (address ∷ prefix_text ∷ []) =
    let prefix = number_from 0 prefix_text in
    if not (is_prefix_text prefix_text) || ltb prefix 22 || ltb 32 prefix
    then none
    else parse_block prefix (ip_to_int address)
parse_parts _ = none

-- `parseCidr`; 47 is the slash.
unfoldable pub parse_cidr : Text → Option ParsedCidr
unfolding number_from
parse_cidr input = parse_parts (split 47 (trim input))

-- The loops of `hostAddresses`: `count` addresses from `base + offset` on.
unfoldable pub addresses_from : ℕ → ℕ → ℕ → List Text
addresses_from base offset zero = []
addresses_from base offset (suc count) =
    int_to_ip ((base + offset) % 4294967296) ∷ addresses_from base (suc offset) count

abbrev pub hosts_of : Option ParsedCidr → List Text
hosts_of none = []
hosts_of (some parsed) =
    let total = block_size parsed.prefix in
    if leb total 2
    then addresses_from parsed.base 0 total
    else addresses_from parsed.base 1 (total - 2)

unfoldable pub host_addresses : Text → List Text
host_addresses cidr = hosts_of (parse_cidr cidr)

abbrev pub in_block : Option ParsedCidr → Option ℕ → Bool
in_block none value = false
in_block (some parsed) none = false
in_block (some parsed) (some value) = block_start (block_size parsed.prefix) value == parsed.base

unfoldable pub is_in_cidr : Text → Text → Bool
is_in_cidr ip cidr = in_block (parse_cidr cidr) (ip_to_int ip)
