-- ===== src/Wake/Address.antt =====
-- What server/wolpacket.go uses of Go's package net: addresses and networks as numbers. What a
-- text with a colon stands for in IPv6 is an argument.
use librawatch.Common.{
  ℕ, zero, suc, ◌+◌, ◌-◌, ◌*◌, ◌/◌, ◌%◌, Text, Bool, false, ◌&&◌, ◌||◌, ltb, leb, ◌==◌,
  if◌then◌else◌, Option, none, some, List, [], ◌∷◌, ◌++◌, length,
}
use librawatch.Shared.Version.{is_digit}

-- An address of 32 or of 128 bits.
pub record Address : Type 0 where
  pub value : ℕ
  pub size : ℕ

-- IP.To4: an IPv4 address, or one that IPv6 maps it to.
unfoldable pub to4 : Address → Option ℕ
to4 a =
    if a.size == 32
    then some a.value
    else if a.value / 4294967296 == 0xFFFF
    then some (a.value % 4294967296)
    else none

-- What the loop of parseIPv4Fields keeps.
pub record Quad : Type 0 where
  pub fields : List ℕ
  pub val : ℕ
  pub digits : ℕ

abbrev pub read_digit : ℕ → Quad → Option Quad
read_digit c q =
    if (q.digits == 1) && (q.val == 0)
    then none
    else if ltb 255 (q.val * 10 + (c - 48))
    then none
    else some (record q { val = q.val * 10 + (c - 48); digits = q.digits + 1 })

abbrev pub read_dot : Quad → Option Quad
read_dot q =
    if (q.digits == 0) || (length q.fields == 3)
    then none
    else some (record { fields = q.fields ++ q.val ∷ []; val = 0; digits = 0 })

unfoldable pub read_quad : Text → Option Quad → Option Quad
read_quad s none = none
read_quad [] (some q) = some q
read_quad (c ∷ s) (some q) =
    read_quad s (if is_digit c then read_digit c q else if c == 46 then read_dot q else none)

abbrev pub four_fields : List ℕ → ℕ → Option Address
four_fields (a ∷ (b ∷ (c ∷ []))) d =
    some (record { value = ((a * 256 + b) * 256 + c) * 256 + d; size = 32 })
four_fields _ d = none

abbrev pub close_quad : Option Quad → Option Address
close_quad none = none
close_quad (some q) = if q.digits == 0 then none else four_fields q.fields q.val

unfoldable pub parse_ipv4 : Text → Option Address
unfolding read_quad
parse_ipv4 s = close_quad (read_quad s (some (record { fields = []; val = 0; digits = 0 })))

abbrev pub as_ipv6 : Option ℕ → Option Address
as_ipv6 none = none
as_ipv6 (some v) = some (record { value = v; size = 128 })

-- netip.ParseAddr: the first of dot, colon and percent sign decides.
unfoldable pub first_mark : Text → ℕ
first_mark [] = 0
first_mark (c ∷ s) =
    let rest = first_mark s in if (c == 46) || ((c == 58) || (c == 37)) then c else rest

unfoldable pub parse_address : (Text → Option ℕ) → Text → Option Address
unfolding first_mark parse_ipv4
parse_address parse_ipv6 s =
    let mark = first_mark s in
    if mark == 46 then parse_ipv4 s else if mark == 58 then as_ipv6 (parse_ipv6 s) else none

-- x >> h, the bits cleared below h, and the bits set below h.
unfoldable pub shr : ℕ → ℕ → ℕ
shr zero x = x
shr (suc h) x = shr h (x / 2)

unfoldable pub fill : ℕ → ℕ → ℕ → ℕ
fill bit zero y = y
fill bit (suc h) y = 2 * fill bit h y + bit

-- IP.Mask with `h` bits for the hosts.
unfoldable pub mask : ℕ → ℕ → ℕ
unfolding shr fill
mask h x = fill 0 h (shr h x)

-- An IPNet: the network's address, and the number of bits for the hosts.
pub record IpNet : Type 0 where
  pub address : Address
  pub host_bits : ℕ

unfoldable pub decimal : ℕ → Text → Option ℕ
decimal n [] = some n
decimal n (c ∷ s) = let rest = decimal (n * 10 + (c - 48)) s in if is_digit c then rest else none

abbrev pub parse_decimal : Text → Option ℕ
parse_decimal [] = none
parse_decimal (c ∷ s) = decimal 0 (c ∷ s)

-- What stands before and after the first slash.
abbrev pub cons_before : ℕ → Option (Text × Text) → Option (Text × Text)
cons_before c none = none
cons_before c (some (s, t)) = some (c ∷ s, t)

unfoldable pub split_slash : Text → Option (Text × Text)
split_slash [] = none
split_slash (c ∷ s) =
    let rest = split_slash s in if c == 47 then some ([], s) else cons_before c rest

abbrev pub net_of : Option Address → Option ℕ → Option (Address × IpNet)
net_of none ones = none
net_of (some a) none = none
net_of (some a) (some ones) =
    if leb ones a.size
    then some (
      a,
      record {
        address = record a { value = mask (a.size - ones) a.value };
        host_bits = a.size - ones;
      },
    )
    else none

abbrev pub parse_parts : (Text → Option ℕ) → Option (Text × Text) → Option (Address × IpNet)
parse_parts parse_ipv6 none = none
parse_parts parse_ipv6 (some (s, t)) = net_of (parse_address parse_ipv6 s) (parse_decimal t)

unfoldable pub parse_cidr : (Text → Option ℕ) → Text → Option (Address × IpNet)
unfolding parse_address decimal split_slash mask
parse_cidr parse_ipv6 s = parse_parts parse_ipv6 (split_slash s)

-- IPNet.Contains: a network of IPv4 holds the addresses that have an IPv4 form.
abbrev pub same_prefix : ℕ → Address → Address → Option ℕ → Option ℕ → Bool
same_prefix h n a (some x) (some y) = shr h x == shr h y
same_prefix h n a none none = shr h n.value == shr h a.value
same_prefix h n a _ _ = false

unfoldable pub contains_address : IpNet → Address → Bool
unfolding to4 shr
contains_address n a = same_prefix n.host_bits n.address a (to4 n.address) (to4 a)
