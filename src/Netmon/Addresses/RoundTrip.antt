-- ===== src/Netmon/Addresses/RoundTrip.antt =====
-- What `intToIp` prints is what `ipToInt` reads.
use asset_it.Prelude.{
  ℕ, ◌+◌, ◌*◌, ◌<◌, Bool, true, false, not, ◌&&◌, ◌==◌, ◌≡◌, refl, ap, ◌∙◌, none, some, List, [],
  ◌∷◌, ◌++◌, Text, trim, split, join, decimal, drop_spaces, is_space, any, all_below,
  all_below-true, arith,
}
use mathlib.Core.List.{reverse, reverse-cons, reverse-reverse}
use asset_it.Netmon.Addresses.{read_octet, read_octets, read_parts, ip_to_int, byte_at, int_to_ip}

split-word :
    (sep : ℕ) (w rest : Text)
    → any (λ c. c == sep) w ≡ false
    → split sep (w ++ (sep ∷ rest)) ≡ w ∷ split sep rest
unfolding split
split-word sep [] rest clean = ground arith
split-word sep (c ∷ w) rest clean = let later = split-word sep w rest (ground arith) in ground arith

split-last : (sep : ℕ) (w : Text) → any (λ c. c == sep) w ≡ false → split sep w ≡ w ∷ []
unfolding split
split-last sep [] clean = refl
split-last sep (c ∷ w) clean = let later = split-last sep w (ground arith) in ground arith

abbrev reads_back : ℕ → Bool
reads_back n =
    (elim (read_octet (decimal n)) [ none ↦ false | some m ↦ m == n ])
    && not (any (λ c. c == 46) (decimal n))
    && not (any is_space (decimal n))

octets_read_back : all_below 256 reads_back ≡ true
unfolding read_octet decimal all_below
octets_read_back = refl

any-append :
    (p : ℕ → Bool) (v w : Text) → any p v ≡ false → any p w ≡ false → any p (v ++ w) ≡ false
any-append p [] w hv hw = hw
any-append p (c ∷ v) w hv hw = let later = any-append p v w (ground arith) hw in ground arith

any-reverse : (p : ℕ → Bool) (w : Text) → any p w ≡ false → any p (reverse w) ≡ false
any-reverse p [] h = refl
any-reverse p (c ∷ w) h =
    ap (any p) (reverse-cons c w)
    ∙ any-append p (reverse w) (c ∷ []) (any-reverse p w (ground arith)) (ground arith)

drop_spaces-clean : (w : Text) → any is_space w ≡ false → drop_spaces w ≡ w
unfolding drop_spaces
drop_spaces-clean [] h = refl
drop_spaces-clean (c ∷ w) h = ground arith

trim-clean : (w : Text) → any is_space w ≡ false → trim w ≡ w
unfolding trim
trim-clean w h =
    ap (λ (s : Text). reverse (drop_spaces (reverse s))) (drop_spaces-clean w h)
    ∙ ap reverse (drop_spaces-clean (reverse w) (any-reverse is_space w h))
    ∙ reverse-reverse w

record Octet (n : ℕ) : Type 0 where
  reads : read_octet (decimal n) ≡ some n
  no_dot : any (λ c. c == 46) (decimal n) ≡ false
  no_space : any is_space (decimal n) ≡ false

Octet-below : (n : ℕ) → n < 256 → Octet n
Octet-below n below =
    let h : reads_back n ≡ true = all_below-true 256 reads_back n octets_read_back below in
    record { reads = ground arith; no_dot = ground arith; no_space = ground arith }

read_octets-cons :
    (value octet : ℕ) (part : Text) (parts : List Text)
    → read_octet part ≡ some octet
    → read_octets value (part ∷ parts) ≡ read_octets (value * 256 + octet) parts
unfolding read_octets
read_octets-cons value octet part parts reads = ground arith

module _ (a b c d : ℕ) (oa : Octet a) (ob : Octet b) (oc : Octet c) (od : Octet d) where
  dotted : Text
  dotted = decimal a ++ (46 ∷ (decimal b ++ (46 ∷ (decimal c ++ (46 ∷ decimal d)))))

  dotted-clean : any is_space dotted ≡ false
  unfolding dotted
  dotted-clean = any-append is_space (decimal a) _ oa.no_space (
      any-append is_space (decimal b) _ ob.no_space
        (any-append is_space (decimal c) _ oc.no_space od.no_space))

  dotted-split : split 46 dotted ≡ decimal a ∷ decimal b ∷ decimal c ∷ decimal d ∷ []
  unfolding dotted
  dotted-split =
      split-word 46 (decimal a) _ oa.no_dot
      ∙ ap (λ (w : List Text). decimal a ∷ w)
          (split-word 46 (decimal b) _ ob.no_dot
            ∙ ap (λ (w : List Text). decimal b ∷ w)
                (split-word 46 (decimal c) _ oc.no_dot
                  ∙ ap (λ (w : List Text). decimal c ∷ w) (split-last 46 (decimal d) od.no_dot)))

  octets-read :
      read_parts (decimal a ∷ decimal b ∷ decimal c ∷ decimal d ∷ [])
      ≡ some ((((0 * 256 + a) * 256 + b) * 256 + c) * 256 + d)
  unfolding read_octets
  octets-read =
      read_octets-cons 0 a (decimal a) (decimal b ∷ decimal c ∷ decimal d ∷ []) oa.reads
      ∙ read_octets-cons (0 * 256 + a) b (decimal b) (decimal c ∷ decimal d ∷ []) ob.reads
      ∙ read_octets-cons ((0 * 256 + a) * 256 + b) c (decimal c) (decimal d ∷ []) oc.reads
      ∙ read_octets-cons (((0 * 256 + a) * 256 + b) * 256 + c) d (decimal d) [] od.reads

  dotted-read : ip_to_int dotted ≡ some ((((0 * 256 + a) * 256 + b) * 256 + c) * 256 + d)
  unfolding ip_to_int
  dotted-read =
      ap (λ (w : Text). read_parts (split 46 w)) (trim-clean dotted dotted-clean)
      ∙ ap read_parts dotted-split
      ∙ octets-read

-- A number below 2 ^ 32 that is printed as a dotted address and read again is the same number.
pub ip_to_int-int_to_ip : (v : ℕ) → v < 4294967296 → ip_to_int (int_to_ip v) ≡ some v
unfolding int_to_ip join dotted
ip_to_int-int_to_ip v below =
    let a = byte_at 16777216 v in
    let b = byte_at 65536 v in
    let c = byte_at 256 v in
    let d = byte_at 1 v in
    dotted-read a b c d (Octet-below a (omega arith)) (Octet-below b (omega arith))
      (Octet-below c (omega arith)) (Octet-below d (omega arith))
    ∙ ap (λ (n : ℕ). some n) (omega (arith, below))
