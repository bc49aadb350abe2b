-- ===== src/Deploy/Quiet.antt =====
-- A job that is not sent to an agent again: single steps.
use librawatch.Common.{
  ℕ, ◌+◌, Text, codes, text_eq, text_eq_iff, Bool, true, false, not, ◌&&◌, Option, List, [], ◌∷◌,
  All, All-map_where, if◌then◌else◌, count_where, count_where-append, ◌≡◌, refl, ◌∙◌, arith,
}
use librawatch.Deploy.Model.{is_pending, Job, Row, Db}
use librawatch.Deploy.Store.{
  ResultUpdate, is_key, updates, updated, update_deploy_result, get_deploy_job_by_id,
}
use librawatch.Deploy.Claim.{claimed_row, claim}
use librawatch.Deploy.Dispatch.{
  Message, Client, Server, send_to, send_to_agent, command_message, dispatch, apply_update,
  sent_or_released,
}
use librawatch.Deploy.Sweep.{is_destructive}

-- The job has no row for the agent that waits to be sent.
abbrev pub IsSettled : Text → Text → Row → Type 0
IsSettled d a r = is_key d a r ≡ true → is_pending r.status ≡ false

-- A message that carries the job, and does not acknowledge its result.
unfoldable pub is_command_of : Text → Message → Bool
unfolding text_eq
is_command_of d m = text_eq m.job_id d && not (text_eq m.type (codes "exec_result_ack"))

-- The commands of a job that wait in the send channel of an agent.
unfoldable pub sent_count : Text → Text → List Client → ℕ
unfolding count_where
sent_count d a [] = 0
sent_count d a (c ∷ cs) =
    (if text_eq c.agent_id a then count_where (is_command_of d) c.send else 0) + sent_count d a cs

pub sent_count-send_to :
    (d a agent : Text) (m : Message) (cs : List Client)
    → is_command_of d m && text_eq agent a ≡ false
    → sent_count d a (send_to agent m cs).0 ≡ sent_count d a cs
unfolding sent_count send_to
sent_count-send_to d a agent m [] h = refl
sent_count-send_to d a agent m (c ∷ cs) h = ground (
  arith,
  sent_count-send_to d a agent m cs h,
  count_where-append (is_command_of d) c.send (m ∷ []),
  text_eq_iff c.agent_id agent,
  text_eq_iff c.agent_id a,
  text_eq_iff agent a,
)

command_message-other :
    (check : Text → Option Text) (d a agent : Text) (job : Job) (attempt : ℕ)
    → text_eq job.id d && text_eq agent a ≡ false
    → is_command_of d (command_message check job attempt) && text_eq agent a ≡ false
unfolding command_message is_command_of
command_message-other check d a agent job attempt h = ground arith

pub update-IsSettled :
    (now : ℕ) (d a : Text) (u : ResultUpdate) (db : Db)
    → (text_eq u.job_id d && text_eq u.agent_id a ≡ true → is_pending u.status ≡ false)
    → All (IsSettled d a) db.results
    → All (IsSettled d a) (update_deploy_result now u db).0.results
unfolding update_deploy_result
update-IsSettled now d a u db h = All-map_where _ _ (updates u) (updated now u) keep db.results
  where
    keep : (r : Row) → IsSettled d a r → IsSettled d a (if updates u r then updated now u r else r)
    keep r s =
        unfold updates updated is_key in
        ground (arith, text_eq_iff r.job_id u.job_id, text_eq_iff r.agent_id u.agent_id)

pub claim-IsSettled :
    (d a : Text) (lease : ℕ) (j agent : Text) (db : Db)
    → All (IsSettled d a) db.results
    → All (IsSettled d a) (claim lease j agent db).results
unfolding claim
claim-IsSettled d a lease j agent db =
    All-map_where _ _ (is_key j agent) (claimed_row lease) keep db.results
  where
    keep :
        (r : Row)
        → IsSettled d a r
        → IsSettled d a (if is_key j agent r then claimed_row lease r else r)
    keep r s = unfold claimed_row is_key in ground arith

-- What is kept of a destructive job and an agent: the rows are settled, so many of its commands
-- wait in the channel, and it is still known as destructive.
pub record Quiet (d a : Text) (n : ℕ) (s : Server) : Type 0 where
  pub settled : All (IsSettled d a) s.db.results
  pub sent : sent_count d a s.clients ≡ n
  pub destructive : is_destructive (get_deploy_job_by_id d s.db) ≡ true

pub apply_update-Quiet :
    (now : ℕ) (d a : Text) (n : ℕ) (u : ResultUpdate) (s : Server)
    → (text_eq u.job_id d && text_eq u.agent_id a ≡ true → is_pending u.status ≡ false)
    → Quiet d a n s
    → Quiet d a n (apply_update now u s)
unfolding apply_update
apply_update-Quiet now d a n u s h q = record {
  settled = update-IsSettled now d a u s.db h q.settled;
  sent = q.sent;
  destructive = unfold update_deploy_result get_deploy_job_by_id in q.destructive;
}

pub dispatch-Quiet :
    (d a : Text) (n : ℕ) (agent : Text) (job : Job) (attempt : ℕ) (s : Server)
    → text_eq job.id d && text_eq agent a ≡ false
    → Quiet d a n s
    → Quiet d a n (dispatch agent job attempt s).0
unfolding dispatch send_to_agent
dispatch-Quiet d a n agent job attempt s h q = record {
  settled = q.settled;
  sent =
      sent_count-send_to d a agent (command_message s.file_checksum job attempt) s.clients
        (command_message-other s.file_checksum d a agent job attempt h)
      ∙ q.sent;
  destructive = q.destructive;
}

pub sent_or_released-Quiet :
    (now : ℕ) (d a : Text) (n : ℕ) (agent : Text) (job : Job) (r : Server × Bool)
    → text_eq job.id d && text_eq agent a ≡ false
    → Quiet d a n r.0
    → Quiet d a n (sent_or_released now agent job r).0
unfolding sent_or_released
sent_or_released-Quiet now d a n agent job (s, true) h q = q
sent_or_released-Quiet now d a n agent job (s, false) h q =
    apply_update-Quiet now d a n _ s (λ e. cc) q
