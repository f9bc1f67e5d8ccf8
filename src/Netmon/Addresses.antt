-- ===== src/Netmon/Addresses.antt =====
-- IPv4 addresses of apps/api/src/modules/netmon/network.ts. An address is a number below 2 ^ 32.
pub mod RoundTrip
use asset_it.Prelude.{
  ℕ, ◌+◌, ◌-◌, ◌*◌, ◌/◌, ◌%◌, Bool, true, false, not, ◌&&◌, ◌||◌, ◌==◌, leb, ltb, Option, none,
  some, List, [], ◌∷◌, Text, trim, split, join, decimal, length, any, if◌then◌else◌, option_bind,
}

abbrev pub is_digit : ℕ → Bool
is_digit c = leb 48 c && leb c 57

-- `/^\d{1,3}$/.test(part)`
abbrev pub is_short_number : Text → Bool
is_short_number part =
    not (any (λ c. not (is_digit c)) part) && leb 1 (length part) && leb (length part) 3

-- `Number(part)` on digits
unfoldable pub number_from : ℕ → Text → ℕ
number_from n [] = n
number_from n (c ∷ cs) = number_from (n * 10 + (c - 48)) cs

-- `part.length > 1 && part.startsWith('0')`
abbrev pub has_leading_zero : Text → Bool
has_leading_zero [] = false
has_leading_zero (c ∷ []) = false
has_leading_zero (c ∷ d ∷ cs) = c == 48

-- One round of the loop of `ipToInt`.
unfoldable pub read_octet : Text → Option ℕ
unfolding number_from
read_octet part =
    if not (is_short_number part) || ltb 255 (number_from 0 part) || has_leading_zero part
    then none
    else some (number_from 0 part)

unfoldable pub read_octets : ℕ → List Text → Option ℕ
read_octets value [] = some value
read_octets value (part ∷ parts) = elim (read_octet part) [
  | none ↦ none
  | some octet ↦ read_octets (value * 256 + octet) parts
]

abbrev pub read_parts : List Text → Option ℕ
read_parts parts = if length parts == 4 then read_octets 0 parts else none

-- `ipToInt`
unfoldable pub ip_to_int : Text → Option ℕ
ip_to_int ip = read_parts (split 46 (trim ip))

-- `(value >>> bits) & 255`, where `size` is 2 ^ bits
abbrev pub byte_at : ℕ → ℕ → ℕ
byte_at size value = value / size % 256

-- `intToIp`
unfoldable pub int_to_ip : ℕ → Text
unfolding join decimal
int_to_ip value = join 46 (
    decimal (byte_at 16777216 value)
    ∷ decimal (byte_at 65536 value)
    ∷ decimal (byte_at 256 value)
    ∷ decimal (byte_at 1 value)
    ∷ [])
