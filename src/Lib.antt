-- ===== src/Lib.antt =====
-- The verification library of polis-game, the TypeScript agent and game of SeeDAO.
--
-- The program is a group of chat agents around a points economy. Members hold life points (LP) in
-- a shared PostgreSQL database; they check in, bet on surveys (TC) and on community predictions,
-- fill treasure chests, and are rewarded. Every LP call passes a circuit breaker that refuses work
-- while the database is out; writes of lesser weight wait in a local queue meanwhile.
--
-- Which file models what:
-- - Base and its children: lists, integers, rows and tests that the rest shares.
-- - Lp, Lp/Accounts, Lp/Resets, Lp/Badges: src/core/store/gamification.ts. LpDb is the database; an operation
--   is the body of its transaction (grantPt is grant_pt, spendPt is spend_pt, checkIn is check_in,
--   resetDailyPtFloor is reset_daily_pt_floor). Lp/Chests, Lp/ChestCommands: the chests of
--   src/core/treasure-chest.ts and their chat command. The other
--   theorems stand in Lp/Books, Lp/FirstContact, Lp/Spending, Lp/Daily, Lp/Snapshots, Lp/Floors and
--   Lp/Ownership.
-- - Settlement: the pure part of src/core/tc-settlement.ts (computeTcSettlement, distributePool),
--   with its theorems in Settlement/Pool, Settlement/Tables, Settlement/Discrete and
--   Settlement/Continuous.
-- - Bets: the bet tables of src/core/store/tc.ts and src/core/store/predict.ts; Bets/Refunds the
--   refund loop of both cancellations.
-- - Tc, Tc/Store: src/core/store/tc.ts. Tc/Flow: settleTc and cancelTcWithRefund. Tc/Betting:
--   src/core/tc-bet-parser.ts. The theorems stand in Tc/Gates, Tc/Rewards and Tc/Placing.
-- - Predict, Predict/Store: src/core/store/predict.ts. Predict/Flow: src/core/predict-settlement.ts,
--   the cancellation and src/core/predict-bet-parser.ts. Predict/Commands: the chat commands of
--   src/core/predict-command.ts and src/core/tc-command.ts. The theorems stand in Predict/Gates.
-- - Circuit: the class of src/core/circuit-breaker.ts; Circuit/Errors: which errors count, with
--   src/core/db-slow-query.ts; Circuit/Bounds: any sequence of its calls; Circuit/Gate: how
--   src/core/db.ts uses it.
-- - Agent/Outbox, Agent/Fanout, Agent/Heartbeat, Agent/Inbox, Agent/MemoryPolicy,
--   Agent/SelfIntro, Agent/TokenWatch: src/core/pg-outbox.ts, src/core/outbound-guard.ts,
--   src/core/heartbeat.ts, src/core/peer-bus.ts, src/core/memory-policy.ts, src/core/self-intro.ts and
--   src/core/token-watch.ts.
-- - Agent/Sessions: src/core/kimi-session.ts, with theorems in Agent/Sessions/Healing,
--   Agent/Sessions/Siblings and Agent/Sessions/Pairing. Agent/SelfHeal: runWithHealAsync of
--   src/core/agent.ts with the kinds of errors of src/core/kimi.ts; its theorems stand in Agent/SelfHeal/Attempts, Resuming, Retrying and
--   GivingUp. Agent/ReplyContext: src/core/reply-context.ts, with a theorem in Agent/ReplyContext/Budget.
-- - Store/Messages: src/core/store/messages.ts, with theorems in Store/Messages/Handled and
--   Store/Messages/Windows. Store/Memories: src/core/store/memory.ts, with theorems in
--   Store/Memories/Budgets and Store/Memories/Keys. Store/Fragments, Store/Fragments/Dedup:
--   src/core/store/fragments.ts. Store/Like: the escaping that both searches share.
--   Store/Names: src/core/name-overrides.ts.
-- - Lp/Strategy: src/core/lp-strategy.ts. Agent/Replies: the queue of replies of src/channels/feishu-bot.ts
--   (processJob, pump, recover) with its table in src/core/store/ops.ts; its theorems stand in
--   Agent/Replies/Refunds.
-- - Reports: mapWithConcurrency of src/core/ops-narrative.ts, with theorems in Reports/Covered and
--   Reports/Progress.
-- - Time: src/core/time.ts, with the anchors' theorems in Time/Anchors; Time/Texts: parseHHMM and
--   formatHHMM; Time/Timer: safeSetTimeout.
-- - Store/Batch: src/core/store/batch.ts; Store/Meetups and Store/Meetups/Subscriptions:
--   src/core/store/meetups.ts, with more theorems in Store/Meetups/Tags.
-- - Commands/Words, Commands/Route, Commands/MeetupCommand, Commands/TcCommand: the recognisers, the
--   dispatcher and the commands of src/core/commands.ts. The theorems stand in Commands/Parsing,
--   Commands/MeetupRights and Commands/TcManagement. Commands/Amounts reads an LP amount
--   (parseLpAmount), and Commands/BetText a bet (parseTcBetInput of src/core/tc-bet-parser.ts).
-- - Time/Calendar: the months and dates of src/core/time.ts. Events/Schedule, Events/Planner: the
--   planner of src/core/supervisor.ts, the roll of src/core/events.ts and their row in
--   src/core/store/events.ts, with a theorem in Events/Planning.
-- - Store/Members, Store/Members/Arrivals: src/core/store/members.ts and
--   src/core/visitor-milestones.ts, with theorems in Store/Members/Roster.
-- - Lp/Purses: the abstract view of the ledger that its callers rely on.
-- - Examples: concrete inputs.
--
-- How the parts interact: the bets, the chests and the rewards move LP only through grant_pt and
-- spend_pt of Lp/Accounts; surveys and predictions share Bets and the payout of Settlement.
--
-- Bounds: an LP amount is a whole number of tenths, as the columns NUMERIC(12,1) hold it; stakes are
-- taken to be such amounts, too. A pool and its dust are thousandths, so that the bonus of 5% is
-- exact. The source has doubles there: a share may come out below a tenth that it reaches exactly, and
-- then pays a tenth less, and sums of stakes that are not whole LP may differ in the last bit. Options
-- that look like integers are enumerated first by JavaScript objects; the model keeps the order of
-- the bets, and no theorem depends on it. Texts that the code walks are lists of UTF-16 code
-- units, and the contents of fragments lists of code points; commands and units are lowered as ASCII.
-- The local time zone is a fixed offset from UTC, as the expected zone Asia/Shanghai has. The loops
-- over lists need no fuel; the fuel of the timer and of the chunks is shown to be enough, and that of
-- the mentions is the length of the message, of which each round takes some. Times, random numbers
-- and faults of the databases are arguments.
--
-- Not modelled: what is text (posts, replies, the recognition of bets on predictions), the Feishu
-- and model clients, processes and files but for the sessions of the model, and the texts of
-- reports. The matching of ILIKE, the Unicode classes and lower case of fragments, the calls of the
-- model and the moves of directories are parameters. Statements run in the order of the code; where
-- another process may step in, the reads that may be stale are arguments of their own (Tc/Betting,
-- Tc/Flow).
pub mod Base
pub mod Lp
pub mod Settlement
pub mod Bets
pub mod Tc
pub mod Predict
pub mod Circuit
pub mod Agent
pub mod Time
pub mod Store
pub mod Commands
pub mod Events
pub mod Reports
pub mod Examples
