-- ===== src/Tests/Command.antt =====
-- The theorems on the command API at concrete requests.
use librawatch.Common.{
  Text, codes, text_eq, trim_space, any, Bool, true, none, some, List, [], ◌∷◌, ◌++◌, ◌≡◌, refl,
}
use librawatch.Command.Action.{Params, double_quotes, sanitize_exec_message}
use librawatch.Command.Literal.{read_literal, sanitize_exec_message-read_literal}
use librawatch.Command.Network.{
  disable_lan, ethernet, both, Mode, PushResult, offline, ToggleState, toggle_each,
  create_network_toggle_command,
}
use librawatch.Command.Connectivity.{
  AllConnected, reported, create_network_toggle_command-AllConnected,
}
use librawatch.Shared.Command.{is_destructive_payload}

abbrev greeting : Text
greeting = codes " it's 5 "

literal_example :
    read_literal Bool.false (codes "it''s 5" ++ 39 ∷ []) ≡ some (trim_space greeting, [])
literal_example =
    sanitize_exec_message-read_literal greeting (codes "it''s 5")
      (unfold sanitize_exec_message text_eq any double_quotes in refl)
      (unfold trim_space in (refl, (refl, (refl, (refl, (refl, (refl, tt)))))))

abbrev everywhere : ToggleState
everywhere = record { desired = λ x. both; rows = [] }

abbrev no_answer : Text → Mode → PushResult
no_answer agent mode = offline

abbrev targets : List Text
targets = codes "pc-1" ∷ codes "pc-2" ∷ []

abbrev toggled : ToggleState
toggled = toggle_each no_answer disable_lan targets everywhere

toggle_example : AllConnected toggled × (reported toggled.rows ≡ targets)
toggle_example =
    create_network_toggle_command-AllConnected no_answer disable_lan targets everywhere toggled
      (λ x. refl) (unfold create_network_toggle_command in refl)

-- A single PC that is on the network by cable alone is refused.
refused_test :
    create_network_toggle_command no_answer disable_lan
      (codes "pc-1" ∷ [])
      (record { desired = λ x. ethernet; rows = [] })
    ≡ none
unfolding create_network_toggle_command
refused_test = refl

abbrev no_params : Params
no_params = record { process = []; message = []; command = [] }

-- What the API sends for a restart is never sent again after its lease has run out.
restart_test : is_destructive_payload (codes "exec") (codes "Restart-Computer -Force") ≡ true
unfolding is_destructive_payload text_eq
restart_test = refl
