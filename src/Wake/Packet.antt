-- ===== src/Wake/Packet.antt =====
-- net.ParseMAC as buildMagicPacket of server/wolpacket.go uses it, and the packet.
use librawatch.Common.{
  ℕ, zero, suc, ◌+◌, ◌-◌, ◌*◌, Text, ◌&&◌, ◌||◌, leb, ◌==◌, if◌then◌else◌, Option, none, some, List,
  [], ◌∷◌, ◌++◌, length,
}

unfoldable pub hex_value : ℕ → Option ℕ
hex_value c =
    if leb 48 c && leb c 57
    then some (c - 48)
    else if leb 97 c && leb c 102
    then some (c - 87)
    else if leb 65 c && leb c 70
    then some (c - 55)
    else none

abbrev pub join_digits : Option ℕ → Option ℕ → Option ℕ
join_digits (some a) (some b) = some (a * 16 + b)
join_digits _ _ = none

abbrev pub cons_byte : Option ℕ → Option (List ℕ) → Option (List ℕ)
cons_byte (some b) (some bs) = some (b ∷ bs)
cons_byte _ _ = none

-- Bytes of two digits with a separator between them.
unfoldable pub parse_pairs : ℕ → Text → Option (List ℕ)
unfolding hex_value
parse_pairs sep (a ∷ (b ∷ [])) = cons_byte (join_digits (hex_value a) (hex_value b)) (some [])
parse_pairs sep (a ∷ (b ∷ (c ∷ rest))) =
    let bytes = parse_pairs sep rest in
    if c == sep then cons_byte (join_digits (hex_value a) (hex_value b)) bytes else none
parse_pairs sep _ = none

-- Two bytes to a group, with dots between them.
unfoldable pub parse_groups : Text → Option (List ℕ)
unfolding hex_value
parse_groups (a ∷ (b ∷ (c ∷ (d ∷ [])))) =
    cons_byte (join_digits (hex_value a) (hex_value b))
      (cons_byte (join_digits (hex_value c) (hex_value d)) (some []))
parse_groups (a ∷ (b ∷ (c ∷ (d ∷ (e ∷ rest))))) =
    let bytes = parse_groups rest in
    if e == 46
    then cons_byte (join_digits (hex_value a) (hex_value b))
        (cons_byte (join_digits (hex_value c) (hex_value d)) bytes)
    else none
parse_groups _ = none

abbrev pub of_length : Option (List ℕ) → Option (List ℕ)
of_length none = none
of_length (some mac) =
    if (length mac == 6) || ((length mac == 8) || (length mac == 20)) then some mac else none

unfoldable pub parse_mac : Text → Option (List ℕ)
unfolding parse_pairs parse_groups
parse_mac (a ∷ (b ∷ (c ∷ (d ∷ (e ∷ rest))))) =
    if (c == 58) || (c == 45)
    then of_length (parse_pairs c (a ∷ b ∷ c ∷ d ∷ e ∷ rest))
    else if e == 46
    then of_length (parse_groups (a ∷ b ∷ c ∷ d ∷ e ∷ rest))
    else none
parse_mac _ = none

-- for i := 0; i < n; i++ { packet = append(packet, bytes...) }
unfoldable pub append_times : ℕ → List ℕ → List ℕ → List ℕ
append_times zero bytes packet = packet
append_times (suc n) bytes packet = append_times n bytes (packet ++ bytes)

abbrev pub packet_for : Option (List ℕ) → Option (List ℕ)
packet_for none = none
packet_for (some mac) =
    if length mac == 6 then some (append_times 16 mac (append_times 6 (0xFF ∷ []) [])) else none

-- None for either error.
unfoldable pub build_magic_packet : Text → Option (List ℕ)
unfolding parse_mac append_times
build_magic_packet mac_addr = packet_for (parse_mac mac_addr)
