-- ===== src/Wake/Request.antt =====
-- createWakeCommand of server/commands.go. The tables' MAC and IP of an agent, and whether the
-- system sends a packet, are arguments; the tables answer.
use librawatch.Common.{
  ℕ, Text, text_eq, Bool, false, not, if◌then◌else◌, Option, none, some, is_some, List, [], ◌∷◌,
}
use librawatch.Wake.Subnet.{WolNetwork, validate_wol_networks, resolve_wol_broadcast, is_valid_port}
use librawatch.Wake.Packet.{build_magic_packet}

pub record WolConfig : Type 0 where
  pub enabled : Bool
  pub port : ℕ
  pub networks : List WolNetwork

pub data WakeRefusal : Type 0 where
  invalid_configuration : WakeRefusal
  is_disabled : WakeRefusal
  no_mac_address : WakeRefusal
  no_network : WakeRefusal

-- A packet that is sent: its bytes, the broadcast address and the port.
pub record Sent : Type 0 where
  pub packet : List ℕ
  pub broadcast : ℕ
  pub port : ℕ

pub data WakeResult : Type 0 where
  unknown_mac : WakeResult
  unresolved : WakeResult
  not_sent : WakeResult
  packet_sent : Sent → WakeResult

pub record WakeRow : Type 0 where
  pub agent_id : Text
  pub result : WakeResult

pub data WakeAnswer : Type 0 where
  refuses : WakeRefusal → WakeAnswer
  done : List WakeRow → WakeAnswer

module _ (parse_ipv6 : Text → Option ℕ) (mac_of : Text → Text) (ip_of : Text → Text)
    (sends : Sent → Bool) where
  -- The checks of getWoLConfig.
  unfoldable pub is_valid_config : WolConfig → Bool
  unfolding validate_wol_networks is_valid_port
  is_valid_config c =
      if is_valid_port c.port
      then not (is_some (validate_wol_networks parse_ipv6 c.networks))
      else false

  abbrev pub send_packet : WolConfig → ℕ → Option (List ℕ) → WakeResult
  send_packet c broadcast none = not_sent
  send_packet c broadcast (some packet) =
      let sent : Sent = record { packet = packet; broadcast = broadcast; port = c.port } in
      if sends sent then packet_sent sent else not_sent

  abbrev pub wake_via : WolConfig → Text → Option ℕ → WakeResult
  wake_via c mac none = unresolved
  wake_via c mac (some broadcast) = send_packet c broadcast (build_magic_packet mac)

  -- The body of the loop.
  unfoldable pub wake_agent : WolConfig → Text → WakeResult
  unfolding text_eq resolve_wol_broadcast build_magic_packet
  wake_agent c agent =
      if text_eq (mac_of agent) []
      then unknown_mac
      else wake_via c (mac_of agent) (resolve_wol_broadcast parse_ipv6 c.networks (ip_of agent))

  unfoldable pub wake_each : WolConfig → List Text → List WakeRow
  unfolding wake_agent
  wake_each c [] = []
  wake_each c (a ∷ agents) = record { agent_id = a; result = wake_agent c a } ∷ wake_each c agents

  -- A single target is checked before a job is made.
  unfoldable pub single_refusal : WolConfig → List Text → Option WakeRefusal
  unfolding text_eq resolve_wol_broadcast
  single_refusal c (agent ∷ []) =
      if text_eq (mac_of agent) []
      then some no_mac_address
      else if is_some (resolve_wol_broadcast parse_ipv6 c.networks (ip_of agent))
      then none
      else some no_network
  single_refusal c agents = none

  abbrev pub answer_wake : WolConfig → List Text → Option WakeRefusal → WakeAnswer
  answer_wake c agents (some r) = refuses r
  answer_wake c agents none = done (wake_each c agents)

  unfoldable pub create_wake_command : WolConfig → List Text → WakeAnswer
  unfolding is_valid_config single_refusal wake_each
  create_wake_command c agents =
      if not (is_valid_config c)
      then refuses invalid_configuration
      else if not c.enabled
      then refuses is_disabled
      else answer_wake c agents (single_refusal c agents)
