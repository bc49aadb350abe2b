-- ===== src/Wake/Unique.antt =====
-- Accepted networks do not overlap, and the broadcast address belongs to the network.
use librawatch.Common.{
  ℕ, zero, suc, ◌+◌, ◌/◌, ◌≤◌, Text, Bool, true, ◌||◌, leb, ◌==◌, if◌then◌else◌, Option, none, some,
  is_some, List, [], ◌∷◌, count_where, ◌≡◌, refl, ap, arith, Bool-cases, inl, inr,
}
use librawatch.Wake.Address.{Address, to4, IpNet, same_prefix, contains_address, shr}
use librawatch.Wake.Subnet.{
  WolNetwork, Parsed, net, refused, parse_wol_subnet, overlaps, check_against, check_pairs,
  ParsedAll, nets, none_for, cons_net, parse_networks, check_nets, validate_wol_networks, accepts,
}

shr_le : (h g x y : ℕ) → h ≤ g → shr h x ≡ shr h y → shr g x ≡ shr g y
unfolding shr
shr_le zero g x y le e = ap (shr g) e
shr_le (suc h) zero x y le e = absurd (omega arith)
shr_le (suc h) (suc g) x y le e = shr_le h g (x / 2) (y / 2) (omega arith) e

-- Two networks with an address in common: the smaller lies in the larger.
nested :
    (h g x y z : ℕ)
    → (shr h x == shr h z) ≡ true
    → (shr g y == shr g z) ≡ true
    → (shr h x == shr h y) || (shr g y == shr g x) ≡ true
nested h g x y z p q = elim (Bool-cases (leb h g)) [
  | inl le ↦ let up = shr_le h g x z (ground arith) (ground arith) in ground arith
  | inr gt ↦ let up = shr_le g h y z (ground arith) (ground arith) in ground arith
]

contains-overlaps :
    (m n : IpNet) (a : Address)
    → contains_address m a ≡ true
    → contains_address n a ≡ true
    → overlaps m n ≡ true
unfolding contains_address overlaps
contains-overlaps m n a p q = by_form (to4 m.address) (to4 n.address) (to4 a) p q
  where
    by_form :
        (x y z : Option ℕ)
        → same_prefix m.host_bits m.address a x z ≡ true
        → same_prefix n.host_bits n.address a y z ≡ true
        → same_prefix m.host_bits m.address n.address x y
            || same_prefix n.host_bits n.address m.address y x
          ≡ true
    by_form (some x) (some y) (some z) p q = nested m.host_bits n.host_bits x y z p q
    by_form none none none p q =
        nested m.host_bits n.host_bits m.address.value n.address.value a.value p q
    by_form (some x) y none p q = cc
    by_form none y (some z) p q = cc
    by_form (some x) none (some z) p q = cc
    by_form none (some y) none p q = cc

abbrev holds : Address → IpNet → Bool
holds a n = contains_address n a

check_against-none :
    (m : IpNet) (ns : List IpNet) (a : Address)
    → check_against m ns ≡ none
    → contains_address m a ≡ true
    → count_where (holds a) ns ≡ 0
unfolding check_against count_where
check_against-none m [] a h p = refl
check_against-none m (n ∷ ns) a h p =
    ground (arith, check_against-none m ns a, contains-overlaps m n a)

check_pairs_unique :
    (ns : List IpNet) (a : Address) → check_pairs ns ≡ none → count_where (holds a) ns ≤ 1
unfolding check_pairs count_where
check_pairs_unique [] a h = omega arith
check_pairs_unique (n ∷ ns) a h = ground (arith, check_pairs_unique ns a, check_against-none n ns a)

module _ (parse_ipv6 : Text → Option ℕ) where
  -- Whether a configured network holds an address.
  abbrev pub covers : Address → WolNetwork → Bool
  covers a n = is_some (accepts (parse_wol_subnet parse_ipv6 n.subnet) a)

  covers-holds :
      (a : Address) (ns : List WolNetwork) (ms : List IpNet)
      → parse_networks parse_ipv6 ns ≡ nets ms
      → count_where (covers a) ns ≡ count_where (holds a) ms
  unfolding parse_networks count_where
  covers-holds a [] ms h = ground arith
  covers-holds a (n ∷ ns) ms h =
      split (parse_wol_subnet parse_ipv6 n.subnet) (parse_networks parse_ipv6 ns) ms refl
        (ground arith) (covers-holds a ns)
    where
      split :
          (p : Parsed) (rest : ParsedAll) (ms : List IpNet)
          → parse_networks parse_ipv6 ns ≡ rest
          → cons_net p rest ≡ nets ms
          → ((ks : List IpNet)
              → parse_networks parse_ipv6 ns ≡ nets ks
              → count_where (covers a) ns ≡ count_where (holds a) ks)
          → (if is_some (accepts p a) then 1 else 0) + count_where (covers a) ns
            ≡ count_where (holds a) ms
      split (refused e) rest ms r h ih = cc
      split (net m) (none_for e) ms r h ih = cc
      split (net m) (nets ks) ms r h ih = ground (arith, ih ks r)

  -- Where a configuration is accepted, at most one of its networks holds an address, so the one
  -- that is found does not depend on the order in which the networks are listed.
  pub validate_wol_networks_unique :
      (ns : List WolNetwork) (a : Address)
      → validate_wol_networks parse_ipv6 ns ≡ none
      → count_where (covers a) ns ≤ 1
  unfolding validate_wol_networks
  validate_wol_networks_unique ns a h = split (parse_networks parse_ipv6 ns) refl h
    where
      split :
          (p : ParsedAll)
          → parse_networks parse_ipv6 ns ≡ p
          → check_nets p ≡ none
          → count_where (covers a) ns ≤ 1
      split (none_for e) r k = cc
      split (nets ms) r k = omega (arith, covers-holds a ns ms r, check_pairs_unique ms a k)
