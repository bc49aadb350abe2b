-- ===== src/Tests/Wake.antt =====
-- The theorems on Wake-on-LAN at a concrete configuration.
use librawatch.Common.{
  ℕ, ◌≤◌, Text, codes, count_where, true, Option, none, some, List, [], ◌∷◌, ◌≡◌, refl,
}
use librawatch.Wake.Address.{IpNet, contains_address}
use librawatch.Wake.Subnet.{
  WolNetwork, validate_wol_networks, find_wol_network, resolve_wol_broadcast, parse_wol_subnet,
  refused, misaligned,
}
use librawatch.Wake.Packet.{build_magic_packet}
use librawatch.Wake.Unique.{covers, validate_wol_networks_unique}
use librawatch.Wake.Broadcast.{ipv4, resolve_wol_broadcast-last}

abbrev no_ipv6 : Text → Option ℕ
no_ipv6 s = none

-- 172.16.4.0/22 and 10.0.0.0/25
abbrev networks : List WolNetwork
networks =
    record { name = codes "lab"; subnet = codes "172.16.4.0/22" }
    ∷ record { name = codes "desk"; subnet = codes "10.0.0.0/25" }
    ∷ []

networks_accepted : validate_wol_networks no_ipv6 networks ≡ none
unfolding validate_wol_networks
networks_accepted = refl

validate_wol_networks_unique_example : count_where (covers no_ipv6 (ipv4 2886731777)) networks ≤ 1
validate_wol_networks_unique_example =
    validate_wol_networks_unique no_ipv6 networks (ipv4 2886731777) networks_accepted

abbrev lab : IpNet
lab = record { address = ipv4 2886730752; host_bits = 10 }

lab_found : find_wol_network no_ipv6 (codes "172.16.5.9") networks ≡ some lab
unfolding find_wol_network
lab_found = refl

-- 172.16.7.255
lab_broadcast : resolve_wol_broadcast no_ipv6 networks (codes "172.16.5.9") ≡ some 2886731775
unfolding resolve_wol_broadcast
lab_broadcast = refl

resolve_wol_broadcast-last_example :
    (contains_address lab (ipv4 2886731775) ≡ true) × (2886731000 ≤ 2886731775)
unfolding contains_address
resolve_wol_broadcast-last_example =
    resolve_wol_broadcast-last no_ipv6 networks (codes "172.16.5.9") lab 2886731775 2886731000
      lab_found refl lab_broadcast refl

misaligned_test : parse_wol_subnet no_ipv6 (codes "172.16.5.0/22") ≡ refused misaligned
unfolding parse_wol_subnet
misaligned_test = refl

-- ::ffff:172.16.4.0/118 is accepted and matched, and its broadcast address is 172.16.4.0.
abbrev mapped : Text → Option ℕ
mapped s = some 281473568474112

mapped_test :
    resolve_wol_broadcast mapped
      (record { name = codes "lab"; subnet = codes "::ffff:172.16.4.0/118" } ∷ [])
      (codes "172.16.5.9")
    ≡ some 2886730752
unfolding resolve_wol_broadcast
mapped_test = refl

packet_test : build_magic_packet (codes "01:02:03:04:05") ≡ none
unfolding build_magic_packet
packet_test = refl
