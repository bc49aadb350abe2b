-- ===== src/Deploy/Report.antt =====
-- handleExecResult of server/hub.go.
use librawatch.Common.{
  ℕ, Text, codes, text_eq, length, take, ltb, if◌then◌else◌, Option, none, [], ◌∷◌, ◌++◌, ◌==◌,
}
use librawatch.Common.Int.{ℤ}
use librawatch.Deploy.Model.{parse_status}
use librawatch.Deploy.Store.{ResultUpdate, update_deploy_result}
use librawatch.Deploy.Dispatch.{Message, Server, send_to_agent, settle_job, pump_agent}

-- The fields of an IncomingMessage that a result fills. The output is the list of its bytes in
-- UTF-8, as Go measures and cuts it.
pub record Report : Type 0 where
  pub job_id : Text
  pub agent_id : Text
  pub attempt : Option ℤ
  pub status : Text
  pub output : Text
  pub exit_code : Option ℤ
  pub duration_ms : Option ℤ

unfoldable pub truncated : Text → Text
truncated output =
    if ltb 4096 (length output) then take 4096 output ++ codes "...[truncated]" else output

unfoldable pub report_update : Report → ResultUpdate
unfolding truncated parse_status
report_update msg = record {
  job_id = msg.job_id;
  agent_id = msg.agent_id;
  status = parse_status msg.status;
  output = truncated msg.output;
  exit_code = msg.exit_code;
  duration_ms = msg.duration_ms;
  retry_count = none;
  expected_attempt = msg.attempt;
}

unfoldable pub ack_message : Text → Message
ack_message job = record {
  type = codes "exec_result_ack";
  job_id = job;
  attempt = none;
  payload = [];
  filename = [];
  checksum = [];
  args = [];
  action = [];
  password = [];
  path = [];
  expire_at = none;
}

unfoldable pub note_failure : Report → Server → Server
unfolding text_eq
note_failure msg s =
    if text_eq msg.status (codes "error")
    then record s { notified = s.notified ++ (msg.agent_id, msg.job_id) ∷ [] }
    else s

unfoldable pub finish_report : ℕ → Report → Server → Server
unfolding note_failure settle_job pump_agent
finish_report now msg s =
    (pump_agent now msg.agent_id (settle_job msg.job_id (note_failure msg s))).0

unfoldable pub record_report : ℕ → Report → Server → Server
unfolding report_update ack_message send_to_agent finish_report
record_report now msg s =
    let (db, affected) = update_deploy_result now (report_update msg) s.db in
    let acked = (send_to_agent msg.agent_id (ack_message msg.job_id) (record s { db = db })).0 in
    if affected == 0 then acked else finish_report now msg acked

unfoldable pub handle_exec_result : ℕ → Report → Server → Server
unfolding record_report text_eq
handle_exec_result now msg s = if text_eq msg.job_id [] then s else record_report now msg s
