-- ===== src/Software/Request.antt =====
-- querySoftwareInventoryRows and handlePostSoftwareUninstall of server/software.go.
use librawatch.Common.{
  ℕ, Text, codes, text_eq, Bool, true, false, ◌&&◌, ◌||◌, ltb, ◌==◌, if◌then◌else◌, Option, none,
  some, List, [], ◌∷◌, any, filter,
}
use librawatch.Common.Int.{ℤ, pos}
use librawatch.Deploy.Model.{JobStatus, Job}
use librawatch.Deploy.Dispatch.{
  Server, Created, created, no_target_agents, insert_failed, create_job,
}
use librawatch.Software.Inventory.{InventoryRow}
use librawatch.Software.Uninstall.{
  Uninstall, supported, unsupported, classify_uninstall, validate_deploy_request,
}

-- The order of the texts in the database.
unfoldable pub text_less : Text → Text → Bool
text_less s [] = false
text_less [] (b ∷ t) = true
text_less (a ∷ s) (b ∷ t) = ltb a b || ((a == b) && text_less s t)

pub record SoftwareRowFilter : Type 0 where
  pub search : Text
  pub identity_key : Text
  pub agent_id : Text

-- A condition that is left out when its argument is empty.
abbrev pub unless_given : Text → Bool → Bool
unless_given t b = text_eq t [] || b

unfoldable pub selects : (Text → Text → Bool) → List Text → SoftwareRowFilter → InventoryRow → Bool
unfolding any text_eq
selects like agents f r =
    any (text_eq r.agent_id) agents
    && (unless_given f.search (like f.search r.item.display_name || like f.search r.item.publisher)
        && (unless_given f.identity_key (text_eq r.identity_key f.identity_key)
            && unless_given f.agent_id (text_eq r.agent_id f.agent_id)))

-- ORDER BY si.identity_key, a.hostname
unfoldable pub comes_first : (Text → Text) → InventoryRow → InventoryRow → Bool
unfolding text_less text_eq
comes_first hostname a b =
    text_less a.identity_key b.identity_key
    || (text_eq a.identity_key b.identity_key
        && text_less (hostname a.agent_id) (hostname b.agent_id))

unfoldable pub insert_row : (Text → Text) → InventoryRow → List InventoryRow → List InventoryRow
unfolding comes_first
insert_row hostname r [] = r ∷ []
insert_row hostname r (x ∷ rows) =
    let rest = insert_row hostname r rows in
    if comes_first hostname x r then x ∷ rest else r ∷ (x ∷ rows)

unfoldable pub sort_rows : (Text → Text) → List InventoryRow → List InventoryRow
unfolding insert_row
sort_rows hostname [] = []
sort_rows hostname (r ∷ rows) = insert_row hostname r (sort_rows hostname rows)

-- SQLite's LIKE with the search between two percent signs, and the host names, are arguments.
unfoldable pub query_software_inventory_rows :
    (Text → Text → Bool)
    → (Text → Text)
    → List Text
    → SoftwareRowFilter
    → List InventoryRow
    → List InventoryRow
unfolding sort_rows filter selects
query_software_inventory_rows like hostname agents f rows =
    sort_rows hostname (filter (selects like agents f) rows)

abbrev pub first_row : List InventoryRow → Option InventoryRow
first_row [] = none
first_row (r ∷ rows) = some r

-- GetSoftwareInventoryRowForUninstall
unfoldable pub row_for_uninstall :
    (Text → Text) → List Text → Text → Text → List InventoryRow → Option InventoryRow
unfolding query_software_inventory_rows
row_for_uninstall hostname agents agent key rows = first_row (
    query_software_inventory_rows (λ p t. false) hostname agents
      (record { search = []; identity_key = key; agent_id = agent }) rows)

-- The answer for one agent.
pub data UninstallAnswer : Type 0 where
  dispatched : (agent : Text) → (job : Text) → (tier : Text) → UninstallAnswer
  skipped : (agent : Text) → (reason : Text) → UninstallAnswer

abbrev pub uninstall_job : Text → Text → Text → Text → Text → Job
uninstall_job id agent type payload args = record {
  id = id;
  type = type;
  payload = payload;
  args = args;
  targets = agent ∷ [];
  status = JobStatus.pending;
  priority = pos 0;
  expire_at = none;
  created_by = codes "admin";
  created_at = 0;
}

abbrev pub answer_created : Text → Text → Server × Created → Server × UninstallAnswer
answer_created agent tier (s, created job) = (s, dispatched agent job.id tier)
answer_created agent tier (s, no_target_agents) = (s, skipped agent (codes "job dispatch failed"))
answer_created agent tier (s, insert_failed) = (s, skipped agent (codes "job dispatch failed"))

unfoldable pub create_validated :
    ℕ → ℤ → Text → Text → Text → Job → Option Text → Server → Server × UninstallAnswer
unfolding create_job
create_validated now max_retry id agent tier job (some error) s =
    (s, skipped agent (codes "internal validation error"))
create_validated now max_retry id agent tier job none s =
    answer_created agent tier (create_job now job max_retry s)

unfoldable pub uninstall_classified :
    ℕ → ℤ → Text → Text → Uninstall → Server → Server × UninstallAnswer
unfolding create_validated validate_deploy_request
uninstall_classified now max_retry id agent (unsupported reason) s = (s, skipped agent reason)
uninstall_classified now max_retry id agent (supported tier type payload args) s =
    create_validated now max_retry id agent tier (uninstall_job id agent type payload args)
      (validate_deploy_request type payload args) s

unfoldable pub uninstall_row :
    ℕ → ℤ → Text → Text → Option InventoryRow → Server → Server × UninstallAnswer
unfolding uninstall_classified classify_uninstall
uninstall_row now max_retry id agent none s =
    (s, skipped agent (codes "software not currently installed on this endpoint"))
uninstall_row now max_retry id agent (some row) s =
    uninstall_classified now max_retry id agent (classify_uninstall row) s

-- The loop over the agents, each with the id that its job is given.
unfoldable pub uninstall_each :
    ℕ
    → ℤ
    → (Text → Text)
    → List InventoryRow
    → Text
    → List (Text × Text)
    → Server
    → Server × List UninstallAnswer
unfolding uninstall_row row_for_uninstall
uninstall_each now max_retry hostname rows key [] s = (s, [])
uninstall_each now max_retry hostname rows key ((agent, id) ∷ rest) s =
    let (s', answer) =
      uninstall_row now max_retry id agent (row_for_uninstall hostname s.agents agent key rows) s in
    let (s'', answers) = uninstall_each now max_retry hostname rows key rest s' in
    (s'', answer ∷ answers)

abbrev pub is_nil {ℓ} : {A : Type ℓ} → List A → Bool
is_nil [] = true
is_nil (x ∷ xs) = false

-- None is the answer 400.
unfoldable pub post_software_uninstall :
    ℕ
    → ℤ
    → (Text → Text)
    → List InventoryRow
    → Text
    → List (Text × Text)
    → Server
    → Server × Option (List UninstallAnswer)
unfolding uninstall_each text_eq
post_software_uninstall now max_retry hostname rows key requests s =
    if text_eq key [] || is_nil requests
    then (s, none)
    else (let (s', answers) = uninstall_each now max_retry hostname rows key requests s in
        (s', some answers))
