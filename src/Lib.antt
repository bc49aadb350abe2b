-- ===== src/Lib.antt =====
-- LibraWatch watches and manages the PCs of a library: a server keeps the tables and the
-- dashboard, and an agent on each PC runs commands and enforces policy. This library models the
-- parts that decide what happens on a PC, and proves what makes them correct.
--
-- The parts and their files.
--
-- Deploy is the command queue of the server. Deploy/Model and Deploy/Store are the tables
-- deploy_jobs and deploy_results and the statements on them (server/db.go: UpdateDeployResult,
-- InsertDeployJob, InsertDeployResult, CancelDeployJob, UpdateJobStatus, GetExpiredLeaseResults
-- and the others), Deploy/Claim is AcquireNextJob. Deploy/Dispatch is the Deployer of
-- server/deploy.go (CreateJob, PumpAgent, dispatch) with the send channels of server/hub.go,
-- Deploy/Report is handleExecResult of server/hub.go, Deploy/Sweep is the lease sweeper of
-- server/deploy.go, and Deploy/Run puts their calls into a sequence of events. The other files of
-- Deploy hold proofs: Invariant and Cancellation on single statements, Fencing on late results,
-- Pump, Quiet, Unconfirmed, Fate, Recovery, Retries and Upkeep on the sweep, Selection on the claim, Creation and
-- Orphans on new jobs, Safety and Silence on runs.
--
-- Agent is the agent's side: Agent/Queue is agent/cmdqueue.go, Agent/Completed is
-- agent/cmddedup.go, Agent/Acks is agent/ack.go, and Agent/Run puts their calls into a sequence
-- of events. Entries, Retention, Tracking, Submission, Once, Redelivery and Drain hold proofs.
--
-- Policy is shared/policy.go (Match and Location), agent/policycache.go (Cache), and the server's
-- engine of server/policy.go with GetPolicyRelevantApps and GetEnabledPolicyRules of server/db.go
-- and the version check of server/hub.go (Server), and the writes to the policy of server/api.go
-- and server/db.go with BroadcastPolicyUpdate of server/hub.go (Admin). Ranking, Choice, Order,
-- Agreement and Current hold proofs.
--
-- Kill is agent/killverify.go (Verify), agent/killidentity.go and enforceLocalPolicy of
-- agent/procwatch.go (Identity); Verdict and Targets hold proofs. Auth is server/auth.go
-- (Session, Limiter, Login, and Overlap for logins that overlap); Validity and Lockout hold proofs. Shared is shared/command.go
-- (Command), shared/identity.go (Identity) and shared/software.go (Product, Version,
-- CommandLine); ProductCode, VersionOrder and Quoting hold proofs. Command is server/commands.go
-- (Target, Action, Network, Create, Post and Progress); Known, Literal, Connectivity, Refusal and
-- Counts hold proofs. Alert is server/alert.go (Metrics, Offline); Cooldown and Once hold proofs.
-- Batch is server/batcher.go (Batcher); Conservation holds the proof.
--
-- Software is server/software.go (Inventory, Status, Uninstall and Request) with
-- validateDeployRequest of server/api.go (Uninstall), and the uninstall handlers of
-- agent/softwareinventory.go (Endpoint); Reconciliation, Gate and Honour hold proofs. Wake is
-- server/wolpacket.go (Address, Subnet, Packet) and createWakeCommand of server/commands.go
-- (Request); Unique and Broadcast hold proofs. Catalog is server/catalog.go (Sightings),
-- UpsertApplication and UpsertApplicationByProduct of server/db.go (Applications) and
-- server/events.go with FireTamperAlert of server/alert.go and handleEvent of server/hub.go
-- (Events, Record); Links, Sending and Deletion hold proofs. DeepFreeze is agent/deepfreeze.go
-- (Endpoint) and server/deepfreeze.go with its route of server/api.go (Request); Answer holds the
-- proof. Hub is the waiters of kill requests in server/hub.go (Waiters); Replies holds the proof.
-- Common holds Boolean tests, lists, texts and integers.
--
-- How the parts interact: the server claims a row for an idle agent and sends the job with the
-- row's attempt; the agent queues it, runs it once, stores the result and sends it until it is
-- acknowledged; the server takes a result in only for the attempt that is current, and sends the
-- next job. A lease that runs out puts the row back with a new attempt, or fails it. The agent
-- sends its inventory, which the server folds into its table; an uninstall job is made from a row
-- of that table, and the agent checks it against its own snapshot before it runs anything.
--
-- How the code is read: a table is the list of its rows in the order of their keys, and a
-- statement is one step, as the server has one database connection. The clock and the lease's end
-- are arguments. Times are seconds, and lower case and case folding are those of ASCII.
-- Goroutines are sequences of steps. Every function is structural; only print_digits has fuel,
-- ten digits for an exit code of 32 bits.
--
-- Not modelled: statements and file writes that fail, except where a definition says so, the
-- encoding of messages, logs, the deletion of an agent with its rows (DeleteAgent of server/db.go),
-- the lists of jobs for the dashboard, and the other parts of the repository (the sending of alerts,
-- the scan of the registry, the watchers of the agent, the dashboard).
pub mod Common
pub mod Shared
pub mod Deploy
pub mod Command
pub mod Policy
pub mod Kill
pub mod Auth
pub mod Alert
pub mod Software
pub mod Wake
pub mod Catalog
pub mod Batch
pub mod Agent
pub mod DeepFreeze
pub mod Hub
mod Tests
