-- ===== src/Software/Reconciliation.antt =====
-- What a reconciliation leaves in the table, for every agent and key.
use librawatch.Common.{
  ℕ, Text, text_eq, text_eq_iff, Bool, true, false, not, ◌&&◌, if◌then◌else◌, Option, none, some,
  coalesce, is_some, List, [], ◌∷◌, ◌++◌, map, any, find, filter, map_where, ◌≡◌, refl, sym, ◌∙◌,
  arith, Bool-cases, inl, inr,
}
use librawatch.Software.Inventory.{
  SoftwareItem, identity_key, InventoryRow, is_entry, find_entry, refreshed, new_entry, upsert_key,
  upsert_all, is_absent, delete_absent, reconcile_software_inventory,
}

-- The last item of a snapshot with a key.
unfoldable pub reported : Text → List SoftwareItem → Option SoftwareItem
reported key [] = none
reported key (i ∷ items) =
    coalesce (reported key items) (if text_eq (identity_key i) key then some i else none)

-- The row of an item, where the earlier row of the key keeps the time it was first seen.
abbrev pub stamped :
    ℕ → Text → Text → Option InventoryRow → Option SoftwareItem → Option InventoryRow
stamped now agent key old none = none
stamped now agent key none (some i) =
    some
      (record { agent_id = agent; identity_key = key; item = i; first_seen = now; last_seen = now })
stamped now agent key (some r) (some i) = some (record r { item = i; last_seen = now })

find-append :
    (p : InventoryRow → Bool) (r : InventoryRow) (rows : List InventoryRow)
    → find p (rows ++ r ∷ []) ≡ coalesce (find p rows) (if p r then some r else none)
unfolding find
find-append p r [] = ground arith
find-append p r (x ∷ rows) = ground (arith, find-append p r rows)

find-refreshed :
    (now : ℕ) (a k b l : Text) (i : SoftwareItem) (rows : List InventoryRow)
    → find (is_entry b l) (map_where (is_entry a k) (refreshed now i) rows) ≡ (
        if text_eq b a && text_eq l k
        then stamped now a k
            (find (is_entry b l) rows)
            (if any (is_entry b l) rows then some i else none)
        else find (is_entry b l) rows)
unfolding find map_where any is_entry
find-refreshed now a k b l i [] = ground arith
find-refreshed now a k b l i (r ∷ rows) = ground (
  arith,
  find-refreshed now a k b l i rows,
  text_eq_iff r.agent_id a,
  text_eq_iff r.agent_id b,
  text_eq_iff r.identity_key k,
  text_eq_iff r.identity_key l,
  text_eq_iff b a,
  text_eq_iff l k,
)

any-find : (p : InventoryRow → Bool) (rows : List InventoryRow) → any p rows ≡ is_some (find p rows)
unfolding any find
any-find p [] = refl
any-find p (r ∷ rows) = ground (arith, any-find p rows)

same_entry :
    (a k b l : Text) (rows : List InventoryRow)
    → text_eq b a && text_eq l k ≡ true
    → is_some (find (is_entry b l) rows) ≡ any (is_entry a k) rows
same_entry a k b l rows h =
    sym (any-find (is_entry b l) rows) ∙ ground (arith, text_eq_iff b a, text_eq_iff l k)

upsert_known :
    (now : ℕ) (a k b l : Text) (i : SoftwareItem) (rows : List InventoryRow)
    → any (is_entry a k) rows ≡ true
    → find (is_entry b l) (map_where (is_entry a k) (refreshed now i) rows) ≡ (
        if text_eq b a && text_eq l k
        then stamped now a k (find (is_entry b l) rows) (some i)
        else find (is_entry b l) rows)
upsert_known now a k b l i rows known = ground (
  arith,
  find-refreshed now a k b l i rows,
  same_entry a k b l rows,
  any-find (is_entry b l) rows,
)

upsert_new :
    (now : ℕ) (a k b l : Text) (i : SoftwareItem) (rows : List InventoryRow)
    → any (is_entry a k) rows ≡ false
    → find (is_entry b l) (rows ++ new_entry now a k i ∷ []) ≡ (
        if text_eq b a && text_eq l k
        then stamped now a k (find (is_entry b l) rows) (some i)
        else find (is_entry b l) rows)
upsert_new now a k b l i rows fresh =
    find-append (is_entry b l) (new_entry now a k i) rows
    ∙ (unfold is_entry in
        ground (
          arith,
          same_entry a k b l rows,
          text_eq_iff b a,
          text_eq_iff l k,
          text_eq_iff a b,
          text_eq_iff k l,
        ))

find_entry-upsert_key :
    (now : ℕ) (a k b l : Text) (i : SoftwareItem) (rows : List InventoryRow)
    → find_entry b l (upsert_key now a k i rows) ≡ (
        if text_eq b a && text_eq l k
        then stamped now a k (find_entry b l rows) (some i)
        else find_entry b l rows)
unfolding find_entry upsert_key
find_entry-upsert_key now a k b l i rows = elim (Bool-cases (any (is_entry a k) rows)) [
  | inl known ↦ rw known (upsert_known now a k b l i rows known)
  | inr fresh ↦ rw fresh (upsert_new now a k b l i rows fresh)
]

-- What the loop of upserts leaves: the rows of the keys that are reported, and all the old ones.
find_entry-upsert_all :
    (now : ℕ) (a b l : Text) (items : List SoftwareItem) (rows : List InventoryRow)
    → find_entry b l (upsert_all now a items rows) ≡ (
        if text_eq b a
        then coalesce
            (stamped now a l (find_entry b l rows) (reported l items))
            (find_entry b l rows)
        else find_entry b l rows)
unfolding upsert_all reported
find_entry-upsert_all now a b l [] rows = ground arith
find_entry-upsert_all now a b l (i ∷ items) rows = ground (
  arith,
  find_entry-upsert_all now a b l items (upsert_key now a (identity_key i) i rows),
  find_entry-upsert_key now a (identity_key i) b l i rows,
  text_eq_iff l (identity_key i),
  text_eq_iff (identity_key i) l,
)

any-reported :
    (l : Text) (items : List SoftwareItem)
    → any (text_eq l) (map identity_key items) ≡ is_some (reported l items)
unfolding any reported
any-reported l [] = refl
any-reported l (i ∷ items) =
    ground
      (arith, any-reported l items, text_eq_iff l (identity_key i), text_eq_iff (identity_key i) l)

find_entry-delete_absent :
    (a b l : Text) (keys : List Text) (rows : List InventoryRow)
    → find_entry b l (delete_absent a keys rows)
      ≡ (if text_eq b a && not (any (text_eq l) keys) then none else find_entry b l rows)
unfolding find_entry delete_absent find filter is_absent is_entry
find_entry-delete_absent a b l keys [] = ground arith
find_entry-delete_absent a b l keys (r ∷ rows) = ground (
  arith,
  find_entry-delete_absent a b l keys rows,
  text_eq_iff r.agent_id a,
  text_eq_iff r.agent_id b,
  text_eq_iff r.identity_key l,
  text_eq_iff b a,
)

-- After a snapshot of an agent is folded in, the agent has a row for exactly the keys that the
-- snapshot reports: the last item with the key, seen now, and first seen when the earlier row of
-- the key was, or else now. The rows of every other agent are found as before.
pub reconcile_software_inventory-entries :
    (now : ℕ) (agent other key : Text) (items : List SoftwareItem) (rows : List InventoryRow)
    → find_entry other key (reconcile_software_inventory now agent items rows) ≡ (
        if text_eq other agent
        then stamped now agent key (find_entry other key rows) (reported key items)
        else find_entry other key rows)
unfolding reconcile_software_inventory
reconcile_software_inventory-entries now a b l items rows =
    find_entry-delete_absent a b l (map identity_key items) (upsert_all now a items rows)
    ∙ ground (arith, find_entry-upsert_all now a b l items rows, any-reported l items)
