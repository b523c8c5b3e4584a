-- ===== src/Ruled/Suppress/Cidr/Networks.antt =====
-- src/ruled/src/suppress.rs, `cidr_contains` and `ipv4_to_u32`: dotted addresses, masks and networks.
use headless_siem.Prelude.{
  ℕ, zero, suc, ==_iff, and_left, and_right, ◌+◌, ◌-◌, ◌*◌, ◌/◌, ◌%◌, ◌^◌, ◌≤◌, ◌<◌, ◌≡◌, refl, ap,
  ◌∙◌, Text, Bool, true, false, ◌&&◌, ◌||◌, some, [], ◌∷◌, ◌++◌, all, ◌==◌, nat_eq, decimal, arith,
  subst, passes_until, passes_before, is_ascii_digit, split_once, parse_unsigned,
}
use headless_siem.Prelude.Results.{ok}
use headless_siem.Prelude.Bits.{bit_and-high, bit_and-ones, bit_or-field}
use headless_siem.Prelude.Numerals.{
  split-first, split-only, split_once-first, parse_unsigned-decimal, decimal-digits, all-append,
}
use native.Mathlib.Nat.{one-le-pow, le_of_mul-le-mul_right}
use Prim.Native.Nat.{bit_and}
use headless_siem.Ruled.Suppress.Cidr.{
  u32_mod, mask_of, same_network, join_octets, ipv4_to_u32, octets_to_u32, cidr_contains,
  check_prefix, compare_addresses,
}

join_octets-sum :
    (a b c d : ℕ)
    → a < 256
    → b < 256
    → c < 256
    → d < 256
    → join_octets a b c d ≡ a * 2 ^ 24 + b * 2 ^ 16 + c * 2 ^ 8 + d
unfolding join_octets
join_octets-sum a b c d la lb lc ld = ground (
  arith,
  bit_or-field 24 a (b * 2 ^ 16) (omega arith),
  bit_or-field 16 (a * 256 + b) (c * 2 ^ 8) (omega arith),
  bit_or-field 8 (a * 65536 + b * 256 + c) d (omega arith),
)

quotient_small : (p k x : ℕ) → x < 2 ^ p * 2 ^ k → x / 2 ^ k < 2 ^ p
quotient_small p k x lt = grind arith

-- The bits of a word that a mask leaves, for `p` bits of network and `k` of host.
bit_and-mask : (p k x : ℕ) → x < 2 ^ p * 2 ^ k → bit_and x ((2 ^ p - 1) * 2 ^ k) ≡ x / 2 ^ k * 2 ^ k
bit_and-mask p k x lt =
    let high =
      bit_and-high k (x / 2 ^ k) (x % 2 ^ k) (2 ^ p - 1) (ground (arith, one-le-pow k 2)) in
    let whole : x / 2 ^ k * 2 ^ k + x % 2 ^ k ≡ x = ground (arith, one-le-pow k 2) in
    subst (λ y. bit_and y ((2 ^ p - 1) * 2 ^ k) ≡ x / 2 ^ k * 2 ^ k) whole
      (high ∙ ap (λ (y : ℕ). y * 2 ^ k) (bit_and-ones p (x / 2 ^ k) (quotient_small p k x lt)))

-- Every mask, and that the two parts of a word have 32 bits.
mask_right : ℕ → Bool
unfolding mask_of
mask_right p = mask_of p == (2 ^ p - 1) * 2 ^ (32 - p)

width_right : ℕ → Bool
width_right p = 2 ^ p * 2 ^ (32 - p) == u32_mod

abbrev mask_is : ℕ → Bool
mask_is p = mask_right p && width_right p

masks : passes_until mask_is 33 ≡ true
unfolding mask_right width_right mask_of passes_until
masks = refl

mask_is-true : (p : ℕ) → p ≤ 32 → mask_is p ≡ true
mask_is-true p le = passes_before mask_is 33 p masks (omega arith)

masked : (p x : ℕ) → p ≤ 32 → x < u32_mod → bit_and x (mask_of p) ≡ x / 2 ^ (32 - p) * 2 ^ (32 - p)
unfolding mask_right width_right
masked p x le lx =
    let t = mask_is-true p le in
    let m =
      (==_iff (mask_of p) ((2 ^ p - 1) * 2 ^ (32 - p))).0
        (and_left (mask_right p) (width_right p) t) in
    let w =
      (==_iff (2 ^ p * 2 ^ (32 - p)) u32_mod).0 (and_right (mask_right p) (width_right p) t) in
    ap (bit_and x) m ∙ bit_and-mask p (32 - p) x (omega (arith, w, lx))

times-cancel : (k q r : ℕ) → q * 2 ^ k ≡ r * 2 ^ k → q ≡ r
times-cancel k q r h =
    let le : q ≤ r = le_of_mul-le-mul_right (omega (arith, h)) (one-le-pow k 2 (omega arith)) in
    let ge : r ≤ q = le_of_mul-le-mul_right (omega (arith, h)) (one-le-pow k 2 (omega arith)) in
    omega (arith, le, ge)

==-times : (k q r : ℕ) → (q * 2 ^ k == r * 2 ^ k) ≡ (q == r)
==-times k q r = ground (arith, times-cancel k q r)

same_network-quotients :
    (p net ip : ℕ)
    → p ≤ 32
    → net < u32_mod
    → ip < u32_mod
    → same_network p net ip ≡ (ip / 2 ^ (32 - p) == net / 2 ^ (32 - p))
unfolding same_network
same_network-quotients zero net ip le ln li = ground arith
same_network-quotients (suc p) net ip le ln li = ground (
  arith,
  masked (suc p) ip le li,
  masked (suc p) net le ln,
  ==-times (32 - suc p) (ip / 2 ^ (32 - suc p)) (net / 2 ^ (32 - suc p)),
)

-- An address by its four octets.
pub record Address : Type 0 where
  pub a : ℕ
  pub b : ℕ
  pub c : ℕ
  pub d : ℕ

abbrev pub IsAddress : Address → Type 0
IsAddress x = (x.a < 256) × (x.b < 256) × (x.c < 256) × (x.d < 256)

abbrev pub address_value : Address → ℕ
address_value x = x.a * 2 ^ 24 + x.b * 2 ^ 16 + x.c * 2 ^ 8 + x.d

abbrev pub dotted : Address → Text
dotted x = decimal x.a ++ b'.' ∷ (decimal x.b ++ b'.' ∷ (decimal x.c ++ b'.' ∷ decimal x.d))

octets_to_u32-sum :
    (x : Address) → IsAddress x → octets_to_u32 x.a x.b x.c x.d ≡ some (address_value x)
unfolding octets_to_u32
octets_to_u32-sum x h =
    ground (arith, h.0, h.1, h.2, h.3, join_octets-sum x.a x.b x.c x.d h.0 h.1 h.2 h.3)

no_dot : is_ascii_digit b'.' ≡ false
unfolding is_ascii_digit
no_dot = refl

ipv4_to_u32-dotted : (x : Address) → IsAddress x → ipv4_to_u32 (dotted x) ≡ some (address_value x)
unfolding ipv4_to_u32
ipv4_to_u32-dotted x h =
    rw
      (split-first is_ascii_digit b'.' no_dot (decimal x.a)
        (decimal x.b ++ b'.' ∷ (decimal x.c ++ b'.' ∷ decimal x.d)) (decimal-digits x.a))
      rw
      (split-first is_ascii_digit b'.' no_dot (decimal x.b) (decimal x.c ++ b'.' ∷ decimal x.d)
        (decimal-digits x.b))
      rw (split-first is_ascii_digit b'.' no_dot (decimal x.c) (decimal x.d) (decimal-digits x.c))
      rw (split-only is_ascii_digit b'.' no_dot (decimal x.d) (decimal-digits x.d)) rw
      (parse_unsigned-decimal u32_mod x.a (omega (arith, h.0))) rw
      (parse_unsigned-decimal u32_mod x.b (omega (arith, h.1))) rw
      (parse_unsigned-decimal u32_mod x.c (omega (arith, h.2))) rw
      (parse_unsigned-decimal u32_mod x.d (omega (arith, h.3))) (octets_to_u32-sum x h)

address_value-fits : (x : Address) → IsAddress x → address_value x < u32_mod
address_value-fits x h = omega (arith, h.0, h.1, h.2, h.3)

-- The characters of a dotted address.
is_dotted : ℕ → Bool
is_dotted c = is_ascii_digit c || c == b'.'

is_dotted-digits : (s : Text) → all is_ascii_digit s ≡ true → all is_dotted s ≡ true
unfolding is_dotted
is_dotted-digits [] h = refl
is_dotted-digits (c ∷ s) h =
    ground (arith, is_dotted-digits s (and_right (is_ascii_digit c) (all is_ascii_digit s) h))

no_slash : is_dotted b'/' ≡ false
unfolding is_dotted is_ascii_digit
no_slash = refl

dotted-join :
    (s t : Text)
    → all is_ascii_digit s ≡ true
    → all is_dotted t ≡ true
    → all is_dotted (s ++ b'.' ∷ t) ≡ true
unfolding is_dotted
dotted-join s t hs ht = ground (arith, all-append is_dotted s (b'.' ∷ t), is_dotted-digits s hs)

dotted-chars : (x : Address) → all is_dotted (dotted x) ≡ true
dotted-chars x = dotted-join (decimal x.a) _ (decimal-digits x.a) (
    dotted-join (decimal x.b) _ (decimal-digits x.b) (
      dotted-join (decimal x.c) (decimal x.d) (decimal-digits x.c)
        (is_dotted-digits (decimal x.d) (decimal-digits x.d))))

cidr_contains-split :
    (cidr net prefix ip : Text)
    → split_once b'/' cidr ≡ some (net, prefix)
    → cidr_contains cidr ip ≡ check_prefix (parse_unsigned u32_mod prefix) net ip
unfolding cidr_contains
cidr_contains-split cidr net prefix ip h = rw (h, cidr_contains) refl

check_prefix-value :
    (p n i : ℕ) (net ip : Text)
    → p ≤ 32
    → ipv4_to_u32 net ≡ some n
    → ipv4_to_u32 ip ≡ some i
    → check_prefix (some p) net ip ≡ ok (same_network p n i)
unfolding check_prefix compare_addresses
check_prefix-value p n i net ip le hn hi = rw hn (rw hi (ground arith))

-- On two dotted addresses and a prefix length up to 32, all printed in decimal, the CIDR test
-- succeeds, and is true exactly if the addresses agree in their first `p` bits, that is, have the
-- same quotient by 2^(32 - p).
pub cidr_contains-dotted :
    (net ip : Address) (p : ℕ)
    → IsAddress net
    → IsAddress ip
    → p ≤ 32
    → cidr_contains (dotted net ++ b'/' ∷ decimal p) (dotted ip)
      ≡ ok (address_value ip / 2 ^ (32 - p) == address_value net / 2 ^ (32 - p))
cidr_contains-dotted net ip p hn hi le =
    cidr_contains-split (dotted net ++ b'/' ∷ decimal p) (dotted net) (decimal p) (dotted ip)
      (split_once-first is_dotted b'/' no_slash (dotted net) (decimal p) (dotted-chars net))
    ∙ ap (λ o. check_prefix o (dotted net) (dotted ip))
        (parse_unsigned-decimal u32_mod p (omega arith))
    ∙ check_prefix-value p (address_value net) (address_value ip) (dotted net) (dotted ip) le
        (ipv4_to_u32-dotted net hn) (ipv4_to_u32-dotted ip hi)
    ∙ ap ok (
        same_network-quotients p (address_value net) (address_value ip) le
          (address_value-fits net hn) (address_value-fits ip hi))
