-- ===== src/Wake/Subnet.antt =====
-- The networks of server/wolpacket.go. The text of an error is left out.
use librawatch.Common.{
  ℕ, ◌-◌, Text, text_eq, Bool, false, not, ◌&&◌, ◌||◌, leb, ◌==◌, if◌then◌else◌, Option, none, some,
  is_some, List, [], ◌∷◌,
}
use librawatch.Wake.Address.{
  Address, to4, IpNet, parse_cidr, parse_address, contains_address, shr, fill,
}

pub record WolNetwork : Type 0 where
  pub name : Text
  pub subnet : Text

pub data WolError : Type 0 where
  invalid_cidr : WolError
  not_ipv4 : WolError
  misaligned : WolError
  missing_name : WolError
  duplicate_networks : WolError
  overlapping_networks : WolError

pub data Parsed : Type 0 where
  net : IpNet → Parsed
  refused : WolError → Parsed

abbrev pub check_parsed : Option (Address × IpNet) → Parsed
check_parsed none = refused invalid_cidr
check_parsed (some (ip, n)) =
    if not (is_some (to4 ip))
    then refused not_ipv4
    else if not (ip.value == n.address.value)
    then refused misaligned
    else net n

unfoldable pub parse_wol_subnet : (Text → Option ℕ) → Text → Parsed
unfolding parse_cidr to4
parse_wol_subnet parse_ipv6 subnet = check_parsed (parse_cidr parse_ipv6 subnet)

abbrev pub value_or_zero : Option ℕ → ℕ
value_or_zero none = 0
value_or_zero (some x) = x

-- Four bytes of the address, each with the complement of the mask's byte at its place: for a
-- mask of sixteen bytes these are its first four.
unfoldable pub cidr_broadcast : IpNet → ℕ
unfolding shr fill to4
cidr_broadcast n =
    let h = 32 - (n.address.size - n.host_bits) in fill 1 h (shr h (value_or_zero (to4 n.address)))

-- The two texts of IPNet.String are equal.
abbrev pub same_value : Option ℕ → Option ℕ → Bool
same_value (some x) (some y) = x == y
same_value _ _ = false

unfoldable pub is_same_net : IpNet → IpNet → Bool
unfolding to4
is_same_net m n = same_value (to4 m.address) (to4 n.address) && (m.host_bits == n.host_bits)

unfoldable pub overlaps : IpNet → IpNet → Bool
unfolding contains_address
overlaps m n = contains_address m n.address || contains_address n m.address

-- The inner loop, for one network and those after it.
unfoldable pub check_against : IpNet → List IpNet → Option WolError
unfolding is_same_net overlaps
check_against m [] = none
check_against m (n ∷ nets) =
    let rest = check_against m nets in
    if is_same_net m n
    then some duplicate_networks
    else if overlaps m n
    then some overlapping_networks
    else rest

abbrev pub or_else : Option WolError → Option WolError → Option WolError
or_else (some e) rest = some e
or_else none rest = rest

unfoldable pub check_pairs : List IpNet → Option WolError
unfolding check_against
check_pairs [] = none
check_pairs (m ∷ nets) = or_else (check_against m nets) (check_pairs nets)

pub data ParsedAll : Type 0 where
  nets : List IpNet → ParsedAll
  none_for : WolError → ParsedAll

abbrev pub cons_net : Parsed → ParsedAll → ParsedAll
cons_net (refused e) rest = none_for e
cons_net (net n) (nets ns) = nets (n ∷ ns)
cons_net (net n) (none_for e) = none_for e

-- The first loop.
unfoldable pub parse_networks : (Text → Option ℕ) → List WolNetwork → ParsedAll
unfolding parse_wol_subnet text_eq
parse_networks parse_ipv6 [] = nets []
parse_networks parse_ipv6 (n ∷ ns) =
    let rest = parse_networks parse_ipv6 ns in
    if text_eq n.name []
    then none_for missing_name
    else cons_net (parse_wol_subnet parse_ipv6 n.subnet) rest

abbrev pub check_nets : ParsedAll → Option WolError
check_nets (none_for e) = some e
check_nets (nets ns) = check_pairs ns

-- None when the networks are accepted.
unfoldable pub validate_wol_networks : (Text → Option ℕ) → List WolNetwork → Option WolError
unfolding parse_networks check_pairs
validate_wol_networks parse_ipv6 ns = check_nets (parse_networks parse_ipv6 ns)

abbrev pub accepts : Parsed → Address → Option IpNet
accepts (refused e) a = none
accepts (net n) a = if contains_address n a then some n else none

abbrev pub or_net : Option IpNet → Option IpNet → Option IpNet
or_net (some n) rest = some n
or_net none rest = rest

unfoldable pub find_containing : (Text → Option ℕ) → Address → List WolNetwork → Option IpNet
unfolding parse_wol_subnet contains_address
find_containing parse_ipv6 a [] = none
find_containing parse_ipv6 a (n ∷ ns) =
    or_net (accepts (parse_wol_subnet parse_ipv6 n.subnet) a) (find_containing parse_ipv6 a ns)

abbrev pub find_parsed : (Text → Option ℕ) → Option Address → List WolNetwork → Option IpNet
find_parsed parse_ipv6 none ns = none
find_parsed parse_ipv6 (some a) ns = find_containing parse_ipv6 a ns

-- None for either error.
unfoldable pub find_wol_network : (Text → Option ℕ) → Text → List WolNetwork → Option IpNet
unfolding find_containing parse_address
find_wol_network parse_ipv6 ip ns = find_parsed parse_ipv6 (parse_address parse_ipv6 ip) ns

abbrev pub broadcast_of : Option IpNet → Option ℕ
broadcast_of none = none
broadcast_of (some n) = some (cidr_broadcast n)

unfoldable pub resolve_wol_broadcast : (Text → Option ℕ) → List WolNetwork → Text → Option ℕ
unfolding find_wol_network cidr_broadcast
resolve_wol_broadcast parse_ipv6 ns ip = broadcast_of (find_wol_network parse_ipv6 ip ns)

-- validateWoLPort, for a port that is not negative.
unfoldable pub is_valid_port : ℕ → Bool
is_valid_port port = leb 1 port && leb port 65535
