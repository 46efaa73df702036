-- ===== src/Lib.antt =====
-- A model of telegram-antispam, a Telegram anti-spam bot in Go, and the theorems about it.
--
-- The program. An update of Telegram becomes a message with a classified sender. One sequencer runs
-- the jobs of a chat in order. For each message the cascade of detectors decides; an actionable or
-- review-worthy verdict goes to the incident machine, which records the incident in SQLite, copies
-- the messages to the admin chat as evidence, sends a card with buttons there, and only then mutes
-- or bans the sender and deletes the messages. A moderator's press on a button claims a decision on
-- the incident's row and carries it out.
--
-- The files, by the part of the program that they model:
--   * Common: numbers, identifiers (an int64 is ℤ, only compared) and lists. No code of the program.
--   * Domain: internal/domain, the types of messages, verdicts and incidents.
--   * Store/MessageIds: the column message_ids (parseMessageIDs, SaveIncidentMessageIDs in
--     internal/store/undo.go). Store/Tables: the tables of internal/store/migrate.go as lists of
--     rows, in a record Db. Store/Incidents and Store/Decisions: one function for each method of
--     internal/store/incidents.go, undo.go and cards.go, from Db to Db. A method is one transaction,
--     so it is one function. Store/Operations: any of them as a value, and sequences of them.
--   * Incident/World: what the machine acts on, the database, the calls of Telegram made so far and
--     the log of outcomes, with a state monad. Incident/Machine and Incident/Machine/Process:
--     Machine.Handle, HandleReport, process, override and Enforce of internal/incident/machine.go,
--     call by call over internal/telegram/port.go. Incident/Trace: predicates on the calls.
--   * Detect/Identity, Trust, Levenshtein, FakeAdmin, History, Behavior, Rules and Cascade: the files
--     of internal/detect with these names (History is memhistory.go); Trust also has the tables of
--     internal/store/trust.go. Detect/Message holds the fields of a message that they read.
--   * Telegram/Sequencer: internal/telegram/sequencer.go as a step relation, where TrySubmit, each
--     worker and Wait interleave in any way.
--   * Telegram/AdminCache: internal/telegram/admincache.go, what happens under its lock as operations.
--     Telegram/Album: internal/telegram/album.go, the buffer of album parts; a call of flush is an
--     operation of its own, since it comes after the lock.
--   * Queue: internal/queue, the outbound queue as a priority queue and the dispatcher over it.
--   * Blocklist: internal/blocklist, the set of ids and its refreshes. Blocklist/Cas: the check of one
--     user in internal/blocklist/cas.go around its request.
--   * Config: internal/config/config.go, the policy of the chats, the captcha block and the welcome
--     block: their defaults, what Validate accepts and what For resolves.
--   * Store/Captcha: internal/store/captcha.go, the table of challenges as a list of rows and its
--     operations; Store/Captcha/Life has them as values and says which moves of a state are forward.
--   * Watch/World: what the captcha acts on, in the monad of Flow.
--     Watch/Captcha and its children Join, Challenge, Press, Sweep and Fail: the functions of
--     internal/watch/captcha.go and captcha_join_request.go with these names. Watch/Sound has the
--     rules by which their proofs follow the code; the child Sound of each has those proofs.
--   * Flow: a monad of function bodies that may return early, over any state. Admin/World: what a button
--     acts on. Admin/Parse, Effects and Callbacks: internal/admin/callbacks.go, the data of the buttons,
--     the undo, the training and the evidence, and Handle with dispatch. Admin/Guard has the rules by
--     which the proofs about them follow the code, in Effects/Guarded and in Callbacks/Kept, Claimed and
--     Guarded.
--   * Tests: runs at small inputs, and each theorem at a concrete input.
-- How they interact: the machine calls the store's functions on the Db in its World. The cascade
-- takes what it calls as a record (Detect.Cascade.Sources): the windows of Behavior.History, the
-- rules, the sources of administrators, trust and the blocklist; History and Rules have the shape
-- of its fields, as the tests show.
--
-- The captcha is interleaved with everything else: before each statement, call or reading of the clock
-- the other goroutines may make any operations on the challenges, and the incidents, the trust, the
-- chats and the configuration may be any at that moment.
--
-- A press of a button is interleaved with any operations on the incidents in the same way.
--
-- Parameters. Telegram is the record Env: it answers each call as it likes, depending on all calls
-- before; Env also says which statements of the database fail. The cascade is over any type of
-- floating-point numbers, with the comparisons that it makes, and over any score. The hash, the
-- lower-casing of a text, the substring test and the host of a link belong to Go's library; the trainer
-- and the enforcer that a press calls are the functions that cmd/tg-antispam installs;
-- Deobfuscate, Normalize and the map links are taken as functions in the same way.
-- Bounds and fuel. The decimal digits of n run on suc n rounds, more than n has digits; all else is
-- structural. A confidence is in hundredths. A time is a number of nanoseconds and a window or a
-- threshold that the configuration leaves below 0 is 0. int is 64 bits wide where ids are read.
--
-- Not modelled: the text of a card (the arguments of formatCard are kept instead) and of a reply, the
-- lines of the log about a failed write, the column created_at with PruneIncidentTokens, the contexts
-- and timeouts, the recovery of a panic, the commands of internal/admin/commands.go, the packages llm,
-- train, ops and selfcheck, internal/watch but for the captcha, the other blocks of the configuration,
-- its parsing and reload, the fetches of internal/blocklist, the wire format of internal/telegram and
-- the wiring in cmd/tg-antispam.
pub mod Common
pub mod Config
pub mod Flow
pub mod Domain
pub mod Store
pub mod Telegram
pub mod Queue
pub mod Blocklist
pub mod Incident
pub mod Detect
pub mod Watch
pub mod Admin
mod Tests
