-- ===== src/Ruled/Suppress/Cidr.antt =====
-- src/ruled/src/suppress.rs, `cidr_contains` and `ipv4_to_u32`, over 32-bit words.
pub mod Networks
use Prim.Native.Nat.{bit_and, bit_or}
use headless_siem.Prelude.{
  ℕ, ◌-◌, ◌*◌, ◌%◌, ◌^◌, Text, split, split_once, parse_unsigned, Bool, true, false, ◌||◌, Option,
  none, some, List, [], ◌∷◌, ◌==◌, nat_eq, ltb, if◌then◌else◌,
}
use headless_siem.Prelude.Options.{◌>>=◌}
use headless_siem.Prelude.Results.{Result, ok, err}

abbrev pub u32_mod : ℕ
u32_mod = 2 ^ 32

abbrev pub shl32 : ℕ → ℕ → ℕ
shl32 x k = (x * 2 ^ k) % u32_mod

-- Four octets, joined.
pub join_octets : ℕ → ℕ → ℕ → ℕ → ℕ
join_octets a b c d = bit_or (bit_or (bit_or (shl32 a 24) (shl32 b 16)) (shl32 c 8)) d

pub octets_to_u32 : ℕ → ℕ → ℕ → ℕ → Option ℕ
unfolding join_octets
octets_to_u32 a b c d =
    if ltb 255 a || ltb 255 b || ltb 255 c || ltb 255 d then none else some (join_octets a b c d)

parts_to_u32 : List Text → Option ℕ
unfolding octets_to_u32
parts_to_u32 (a ∷ b ∷ c ∷ d ∷ []) = do
  a' ← parse_unsigned u32_mod a
  b' ← parse_unsigned u32_mod b
  c' ← parse_unsigned u32_mod c
  d' ← parse_unsigned u32_mod d
  octets_to_u32 a' b' c' d'
parts_to_u32 _ = none

pub ipv4_to_u32 : Text → Option ℕ
unfolding parts_to_u32
ipv4_to_u32 s = parts_to_u32 (split b'.' s)

pub data CidrError : Type 0 where
  missing_slash bad_prefix prefix_out_of_range bad_network : CidrError

-- `!0u32 << (32 - prefix_len)`
pub mask_of : ℕ → ℕ
mask_of prefix_len = shl32 (u32_mod - 1) (32 - prefix_len)

pub same_network : ℕ → ℕ → ℕ → Bool
unfolding mask_of
same_network prefix_len net ip =
    if prefix_len == 0
    then true
    else bit_and ip (mask_of prefix_len) == bit_and net (mask_of prefix_len)

pub compare_addresses : ℕ → Option ℕ → Option ℕ → Result CidrError Bool
unfolding same_network
compare_addresses prefix_len none ip = err bad_network
compare_addresses prefix_len (some net) none = ok false
compare_addresses prefix_len (some net) (some ip) = ok (same_network prefix_len net ip)

pub check_prefix : Option ℕ → Text → Text → Result CidrError Bool
unfolding compare_addresses
check_prefix none net ip = err bad_prefix
check_prefix (some prefix_len) net ip =
    if ltb 32 prefix_len
    then err prefix_out_of_range
    else compare_addresses prefix_len (ipv4_to_u32 net) (ipv4_to_u32 ip)

unfoldable pub cidr_contains : Text → Text → Result CidrError Bool
unfolding check_prefix
cidr_contains cidr ip = elim (split_once b'/' cidr) [
  | none ↦ err missing_slash
  | some (net, prefix) ↦ check_prefix (parse_unsigned u32_mod prefix) net ip
]
