-- ===== src/Command/Known.antt =====
-- A command reaches only agents that the server knows.
use librawatch.Common.{
  Text, codes, text_eq, equal_fold, find, find-mem, Bool, ◌||◌, if_rule, Option, none, some, List,
  [], ◌∷◌, All, All-of_mem, All-filter, ◌≡◌, ◌≢◌, refl,
}
use mathlib.Core.List.{Memᴰ}
use librawatch.Command.Target.{
  AgentRow, ids_of, unless_empty, is_in_group, is_on_floor, by_group_or_floor, one_or,
  resolve_command_targets,
}

abbrev pub IsKnown : List AgentRow → Text → Type 0
IsKnown rows id = (a : AgentRow) × Memᴰ a rows × (a.id ≡ id)

-- An answer is none, or some agents that are known, one at least.
abbrev pub AreKnown : List AgentRow → Option (List Text) → Type 0
AreKnown rows none = Unit
AreKnown rows (some ids) = (ids ≢ []) × All (IsKnown rows) ids

unless_empty-AreKnown :
    (rows : List AgentRow) (ids : List Text) (o : Option (List Text))
    → All (IsKnown rows) ids
    → AreKnown rows o
    → AreKnown rows (unless_empty ids o)
unless_empty-AreKnown rows [] o h k = k
unless_empty-AreKnown rows (id ∷ ids) o h k = (λ e. cc, h)

ids_of-All :
    (rows some_rows : List AgentRow)
    → All (λ a. Memᴰ a rows) some_rows
    → All (IsKnown rows) (ids_of some_rows)
unfolding ids_of
ids_of-All rows [] h = tt
ids_of-All rows (a ∷ more) h = ((a, h.0, refl), ids_of-All rows more h.1)

stored : (rows : List AgentRow) → All (λ a. Memᴰ a rows) rows
stored rows = All-of_mem (λ a. Memᴰ a rows) rows (λ a m. m)

find-AreKnown :
    (rows : List AgentRow) (p : AgentRow → Bool) (found : Option AgentRow) (o : Option (List Text))
    → find p rows ≡ found
    → AreKnown rows o
    → AreKnown rows (one_or found o)
find-AreKnown rows p none o e k = k
find-AreKnown rows p (some a) o e k = (λ h. cc, ((a, find-mem p rows e, refl), tt))

-- Whatever the target says, the agents that it is resolved to are agents of the table, and there
-- is at least one; otherwise the answer is that none was found.
pub resolve_command_targets-AreKnown :
    (target : Text) (rows : List AgentRow) → AreKnown rows (resolve_command_targets target rows)
unfolding resolve_command_targets by_group_or_floor
resolve_command_targets-AreKnown target rows =
    if_rule (AreKnown rows) (text_eq target (codes "all") || text_eq target (codes "*")) _ _
      (λ _. unless_empty-AreKnown rows (ids_of rows) none (ids_of-All rows rows (stored rows)) tt)
      (λ _.
        find-AreKnown rows (λ a. text_eq a.id target) _ _ refl
          (find-AreKnown rows (λ a. equal_fold a.hostname target) _ _ refl
            (unless_empty-AreKnown rows _ _
              (ids_of-All rows _
                (All-filter (λ a. Memᴰ a rows) (is_in_group target) rows (stored rows)))
              (unless_empty-AreKnown rows _ none
                (ids_of-All rows _
                  (All-filter (λ a. Memᴰ a rows) (is_on_floor target) rows (stored rows)))
                tt))))
