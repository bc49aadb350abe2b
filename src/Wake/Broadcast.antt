-- ===== src/Wake/Broadcast.antt =====
-- The broadcast address is the last address of the network.
use librawatch.Common.{
  ℕ, zero, suc, ◌+◌, ◌-◌, ◌*◌, ◌/◌, ◌≤◌, Text, Bool, true, false, ◌==◌, if◌then◌else◌, Option, none,
  some, List, [], ◌∷◌, ◌≡◌, refl, sym, ap, ◌∙◌, subst, arith,
}
use librawatch.Wake.Address.{
  Address, to4, IpNet, contains_address, shr, fill, net_of, parse_address, parse_decimal,
  parse_parts, split_slash, parse_cidr,
}
use librawatch.Wake.Subnet.{
  WolNetwork, Parsed, net, refused, check_parsed, parse_wol_subnet, value_or_zero, cidr_broadcast,
  accepts, or_net, find_containing, find_parsed, find_wol_network, broadcast_of,
  resolve_wol_broadcast,
}

shr-fill : (h y : ℕ) → shr h (fill 1 h y) ≡ y
unfolding shr fill
shr-fill zero y = refl
shr-fill (suc h) y =
    let halved : (2 * fill 1 h y + 1) / 2 ≡ fill 1 h y = omega arith in
    ap (shr h) halved ∙ shr-fill h y

le-fill : (h x : ℕ) → x ≤ fill 1 h (shr h x)
unfolding shr fill
le-fill zero x = omega arith
le-fill (suc h) x = omega (arith, le-fill h (x / 2))

abbrev IsWithin : IpNet → Type 0
IsWithin n = n.host_bits ≤ n.address.size

checked-IsWithin :
    (a : Option Address) (ones : Option ℕ) (n : IpNet)
    → check_parsed (net_of a ones) ≡ net n
    → IsWithin n
checked-IsWithin none ones n h = cc
checked-IsWithin (some a) none n h = cc
checked-IsWithin (some a) (some ones) n h = ground arith

parse_wol_subnet-IsWithin :
    (parse_ipv6 : Text → Option ℕ) (s : Text) (n : IpNet)
    → parse_wol_subnet parse_ipv6 s ≡ net n
    → IsWithin n
unfolding parse_wol_subnet parse_cidr
parse_wol_subnet-IsWithin parse_ipv6 s n h = split (split_slash s) h
  where
    split :
        (o : Option (Text × Text)) → check_parsed (parse_parts parse_ipv6 o) ≡ net n → IsWithin n
    split none k = cc
    split (some (a, b)) k = checked-IsWithin (parse_address parse_ipv6 a) (parse_decimal b) n k

find_containing-IsWithin :
    (parse_ipv6 : Text → Option ℕ) (a : Address) (ns : List WolNetwork) (n : IpNet)
    → find_containing parse_ipv6 a ns ≡ some n
    → IsWithin n
unfolding find_containing
find_containing-IsWithin parse_ipv6 a [] n h = cc
find_containing-IsWithin parse_ipv6 a (m ∷ ns) n h =
    split (parse_wol_subnet parse_ipv6 m.subnet) refl h (find_containing-IsWithin parse_ipv6 a ns n)
  where
    split :
        (p : Parsed)
        → parse_wol_subnet parse_ipv6 m.subnet ≡ p
        → or_net (accepts p a) (find_containing parse_ipv6 a ns) ≡ some n
        → (find_containing parse_ipv6 a ns ≡ some n → IsWithin n)
        → IsWithin n
    split (refused e) r k ih = ih k
    split (net l) r k ih = choose (contains_address l a) k
      where
        choose :
            (b : Bool)
            → or_net (if b then some l else none) (find_containing parse_ipv6 a ns) ≡ some n
            → IsWithin n
        choose true e =
            let same : l ≡ n = cc in
            subst IsWithin same (parse_wol_subnet-IsWithin parse_ipv6 m.subnet l r)
        choose false e = ih e

found-IsWithin :
    (parse_ipv6 : Text → Option ℕ) (ip : Text) (ns : List WolNetwork) (n : IpNet)
    → find_wol_network parse_ipv6 ip ns ≡ some n
    → IsWithin n
unfolding find_wol_network
found-IsWithin parse_ipv6 ip ns n h = split (parse_address parse_ipv6 ip) h
  where
    split : (o : Option Address) → find_parsed parse_ipv6 o ns ≡ some n → IsWithin n
    split none k = cc
    split (some a) k = find_containing-IsWithin parse_ipv6 a ns n k

abbrev pub ipv4 : ℕ → Address
ipv4 x = record { value = x; size = 32 }

-- The host bits of a network of IPv4.
host_bits_lem :
    (n : IpNet)
    → n.address.size ≡ 32
    → IsWithin n
    → 32 - (n.address.size - n.host_bits) ≡ n.host_bits
host_bits_lem n s w = omega arith

to4-size : (a : Address) → a.size ≡ 32 → to4 a ≡ some a.value
unfolding to4
to4-size a s = ground arith

contains-ipv4 :
    (n : IpNet) (x : ℕ)
    → n.address.size ≡ 32
    → contains_address n (ipv4 x) ≡ (shr n.host_bits n.address.value == shr n.host_bits x)
unfolding contains_address
contains-ipv4 n x s = rw (to4-size n.address s) refl

broadcast-ipv4 :
    (n : IpNet)
    → n.address.size ≡ 32
    → IsWithin n
    → cidr_broadcast n ≡ fill 1 n.host_bits (shr n.host_bits n.address.value)
unfolding cidr_broadcast
broadcast-ipv4 n s w = rw (host_bits_lem n s w, to4-size n.address s) refl

-- A network that is written as IPv6 addresses of the IPv4 range is accepted too, and its broadcast
-- address is the network's own address: the mask that is read has no bits for the hosts.
pub cidr_broadcast-mapped :
    (n : IpNet)
    → n.address.size ≡ 128
    → n.host_bits ≤ 96
    → cidr_broadcast n ≡ value_or_zero (to4 n.address)
unfolding cidr_broadcast
cidr_broadcast-mapped n s w =
    let no_bits : 32 - (n.address.size - n.host_bits) ≡ 0 = omega arith in
    rw no_bits (unfold fill shr in refl)

last_of :
    (h v x b : ℕ)
    → b ≡ fill 1 h (shr h v)
    → (shr h v == shr h x) ≡ true
    → ((shr h v == shr h b) ≡ true) × (x ≤ b)
last_of h v x b e c =
    let same : shr h v ≡ shr h x = ground arith in
    let above : shr h b ≡ shr h v = ap (shr h) e ∙ shr-fill h (shr h v) in
    let below : x ≤ fill 1 h (shr h v) = subst (λ y. x ≤ fill 1 h y) (sym same) (le-fill h x) in
    (ground arith, omega arith)

-- The broadcast address that is found for a PC's address, of a network that is written in IPv4,
-- is itself an address of that network, and no address of the network is larger.
pub resolve_wol_broadcast-last :
    (parse_ipv6 : Text → Option ℕ) (ns : List WolNetwork) (ip : Text) (n : IpNet) (b x : ℕ)
    → find_wol_network parse_ipv6 ip ns ≡ some n
    → n.address.size ≡ 32
    → resolve_wol_broadcast parse_ipv6 ns ip ≡ some b
    → contains_address n (ipv4 x) ≡ true
    → (contains_address n (ipv4 b) ≡ true) × (x ≤ b)
unfolding resolve_wol_broadcast
resolve_wol_broadcast-last parse_ipv6 ns ip n b x found s resolved c =
    let h = n.host_bits in
    let v = n.address.value in
    let both = last_of h v x b lastly (sym (contains-ipv4 n x s) ∙ c) in
    (contains-ipv4 n b s ∙ both.0, both.1)
  where
    is_broadcast : broadcast_of (some n) ≡ some b → b ≡ cidr_broadcast n
    is_broadcast e = cc

    lastly : b ≡ fill 1 n.host_bits (shr n.host_bits n.address.value)
    lastly =
        is_broadcast (rw found at resolved)
        ∙ broadcast-ipv4 n s (found-IsWithin parse_ipv6 ip ns n found)
