-- ===== src/Netmon/Blocks.antt =====
-- Bounds on the numbers that `ipToInt` reads, and on the block of addresses of a prefix.
use asset_it.Prelude.{
  ℕ, zero, suc, ◌+◌, ◌-◌, ◌*◌, ◌/◌, ◌^◌, ◌≤◌, ◌<◌, ◌≡◌, ap, sym, subst, ◌∙◌, some, List, [], ◌∷◌,
  Text, trim, split, Option-cases, inl, inr, arith,
}
use native.Mathlib.Nat.{
  add-suc, add-zero, mul-one, suc-mul, sub-add_cancel, mul_assoc, mul_comm, pow-suc, one-le-pow,
  mul-add-div_right, div-eq_of_lt, div-lt_iff_lt-mul, mul-le-mul_right,
}
use asset_it.Netmon.Addresses.{read_octet, read_octets, read_parts, ip_to_int}
use asset_it.Netmon.Ranges.{block_size, block_start}

-- What four octets can come to at most.
limit : ℕ → List Text → ℕ
limit value [] = suc value
limit value (part ∷ parts) = limit (value * 256 + 255) parts

read_octet-bound : (part : Text) (octet : ℕ) → read_octet part ≡ some octet → octet ≤ 255
unfolding read_octet
read_octet-bound part octet e = ground arith

read_octets-bound :
    (value most : ℕ) (parts : List Text) (v : ℕ)
    → value ≤ most
    → read_octets value parts ≡ some v
    → v < limit most parts
unfolding read_octets limit
read_octets-bound value most [] v le e = ground arith
read_octets-bound value most (part ∷ parts) v le e = elim (Option-cases (read_octet part)) [
  | inl bad ↦ absurd (ground arith)
  | inr (octet, good) ↦
      let small = read_octet-bound part octet good in
      read_octets-bound (value * 256 + octet) (most * 256 + 255) parts v (omega (arith, small, le))
        (ground arith)
]

read_parts-bound : (parts : List Text) (v : ℕ) → read_parts parts ≡ some v → v < 4294967296
unfolding limit
read_parts-bound (a ∷ b ∷ c ∷ d ∷ []) v e =
    read_octets-bound 0 0 (a ∷ b ∷ c ∷ d ∷ []) v (omega arith) e
read_parts-bound _ v e = absurd (ground arith)

pub ip_to_int-bound : (ip : Text) (v : ℕ) → ip_to_int ip ≡ some v → v < 4294967296
unfolding ip_to_int
ip_to_int-bound ip v e = read_parts-bound (split 46 (trim ip)) v e

pow_split : (b c : ℕ) → 2 ^ c * 2 ^ b ≡ 2 ^ (c + b)
pow_split zero c = mul-one (2 ^ c) ∙ ap (λ n. 2 ^ n) (sym (add-zero c))
pow_split (suc b) c =
    let less = pow_split b c in
    let one = ap (λ x. 2 ^ c * x) (pow-suc 2 b) in
    let two = ap (λ n. 2 ^ n) (add-suc c b) ∙ pow-suc 2 (c + b) in
    one ∙ sym (mul_assoc (2 ^ c) (2 ^ b) 2) ∙ ap (λ x. x * 2) less ∙ sym two

start-below :
    (size room v o : ℕ)
    → 1 ≤ size
    → size * room ≡ 4294967296
    → v < 4294967296
    → o < size
    → block_start size v + o < 4294967296
start-below size room v o some_left full low inside =
    let early =
      (div-lt_iff_lt-mul some_left).1 (subst (λ n. v < n) (sym full ∙ mul_comm size room) low) in
    let top = mul-le-mul_right size early in
    let next = suc-mul (v / size) size in
    let all = mul_comm room size ∙ full in omega (arith, top, next, all, inside)

-- The addresses of the block of `v` stay below 2 ^ 32, and in the block.
pub block-below :
    (prefix v o : ℕ)
    → prefix ≤ 32
    → v < 4294967296
    → o < block_size prefix
    → block_start (block_size prefix) v + o < 4294967296
block-below prefix v o most low inside =
    start-below (2 ^ (32 - prefix)) (2 ^ prefix) v o (one-le-pow (32 - prefix) 2 (omega arith))
      (pow_split prefix (32 - prefix) ∙ ap (λ n. 2 ^ n) (sub-add_cancel most)) low inside

pub block-within :
    (prefix v o : ℕ)
    → o < block_size prefix
    → block_start (block_size prefix) (block_start (block_size prefix) v + o)
      ≡ block_start (block_size prefix) v
block-within prefix v o inside =
    let size = 2 ^ (32 - prefix) in
    ap (λ q. q * size)
      (mul-add-div_right (one-le-pow (32 - prefix) 2 (omega arith)) (v / size) o
        ∙ ap (λ r. v / size + r) (div-eq_of_lt inside)
        ∙ omega arith)
