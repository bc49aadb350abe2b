-- ===== src/Command/Target.antt =====
-- resolveCommandTargets of server/commands.go. None stands for the error that no target was found.
use librawatch.Common.{
  Text, codes, text_eq, equal_fold, filter, find, map, Bool, not, ◌&&◌, ◌||◌, if◌then◌else◌, Option,
  none, some, List, [], ◌∷◌,
}

pub record AgentRow : Type 0 where
  pub id : Text
  pub hostname : Text
  pub device_group : Text
  pub floor : Text

unfoldable pub ids_of : List AgentRow → List Text
ids_of rows = map (λ a. a.id) rows

abbrev pub unless_empty : List Text → Option (List Text) → Option (List Text)
unless_empty [] other = other
unless_empty (id ∷ ids) other = some (id ∷ ids)

unfoldable pub is_in_group : Text → AgentRow → Bool
unfolding text_eq
is_in_group target a = not (text_eq a.device_group []) && text_eq a.device_group target

unfoldable pub is_on_floor : Text → AgentRow → Bool
unfolding text_eq
is_on_floor target a = not (text_eq a.floor []) && text_eq a.floor target

unfoldable pub by_group_or_floor : Text → List AgentRow → Option (List Text)
unfolding is_in_group is_on_floor filter ids_of
by_group_or_floor target rows =
    unless_empty (ids_of (filter (is_in_group target) rows))
      (unless_empty (ids_of (filter (is_on_floor target) rows)) none)

abbrev pub one_or : Option AgentRow → Option (List Text) → Option (List Text)
one_or none other = other
one_or (some a) other = some (a.id ∷ [])

unfoldable pub resolve_command_targets : Text → List AgentRow → Option (List Text)
unfolding by_group_or_floor find text_eq equal_fold ids_of
resolve_command_targets target rows =
    if text_eq target (codes "all") || text_eq target (codes "*")
    then unless_empty (ids_of rows) none
    else one_or (find (λ a. text_eq a.id target) rows)
        (one_or (find (λ a. equal_fold a.hostname target) rows) (by_group_or_floor target rows))
