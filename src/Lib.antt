-- ===== src/Lib.antt =====
-- dsh-docker runs an agent's web server, DSH, behind a gateway, and keeps the image that it runs from
-- updated. Its parts under container/ are the platform (Stage 0, which is fixed in the image and
-- starts a replaceable Bootstrap, and the Bootstrap, which activates deployments of DSH and its
-- environment), the control plane (services: the gateway, the access manager, the management server,
-- the outbound proxy; modules: updater, managers of files, logs, patches, plugins and skills), and the
-- resources that an environment brings. The access manager is asked by the gateway whether a login,
-- a session or a handoff is good. Stage 0 keeps the slots of the Bootstrap, which the updater fills.
--
-- This library models the stores that decide who may come in, the slots that decide what runs, and
-- the journal and the plan of an update:
--
-- AccessManager (container/control-plane/services/access-manager/lib)
--   RateLimiter: rate-limiter.mjs, AuthenticationLimiter. Windows has `prune`, `retryAfterSeconds`
--     and the sliding windows; Keys the keys of the maps; Limiter the state,
--     `checkRetry`, `enter` and its `release`; Status `status` and `clear`.
--     Waits, KeyLaws, Backoff, Admission, Room, Attempts, Clears and Recording prove what the names say.
--   Sessions: sessions.mjs, BrowserSessionStore. Store has the state and `prune`; Issue has `issue`
--     and `validate`; Revoke the ways to end sessions; Report `list` and `details`.
--   Exchanges: exchanges.mjs, ManagementExchangeStore, handoffs and pending logins.
--   Transitions: transitions.mjs, ManagementTransitionStore, moves of a management session.
--   Totp: totp.mjs. Base32 and Code are `base32Encode`, `base32Decode`, `totpCode` and
--     `verifyTotpCode`; Flows is TotpFlowStore; RetryLimiter is TotpRetryLimiter.
--   Account is the part of an account that all of them read.
-- Platform (container/platform/lib)
--   Contracts: deployment-contracts.mjs, the tests of Bootstrap Records and of slots.
--   Versions, VersionOrder and Numbers: supported-target.mjs, semantic versions, their order, and
--     `advanceSupportedDsh`.
--   Values, Node: validation.mjs over the values of JSON.parse, and what the code calls of Node.js.
--   Artifacts, Stable, Manifests: artifact-contracts.mjs and contracts.mjs, `parseArtifactList`,
--     `parseStable` and the parsers of manifests.
--   Deployments: deployment-contracts.mjs, Deployment Records.
-- Bootstrap (container/platform/bootstrap/lib)
--   Deployments, Images, ImageLaws, ImageStart and ImageOutcomes: deployments.mjs, DeploymentManager: its Records and
--     slots, `prepareImage`, `acceptImage`, `rejectImage` and `rollbackPlan`. A step that throws in
--     `prepareImage` is answered with the disk that it leaves.
--   Gc, Marking and GcLaws: gc.mjs, PlatformGarbageCollector; what a collection keeps and leaves.
-- Stage0 (container/platform/stage0/lib)
--   Slots: slots.mjs, BootstrapManager. Disk has the state, `commit`, `record` and `writeRecord`;
--     Operations has `reconcileImage`, `promote`, `rollback`, `resolveRecord`, `stageArchive`;
--     Collection has `collectGarbage`. Soundness, Writing, Steps and Reach carry the invariant; Laws,
--     Recovery and Collecting state what the operations promise.
--   Trust: Signature, Keyring, Target and Official are signature.mjs, keyring.mjs, target.mjs and
--     official-dsh.mjs; Ledger is ledger.mjs, TrustLedger. KeyringParse, KeyringLaws, TargetLaws and
--     OfficialLaws say what each acceptance promises, Steps what their sequences keep.
--   Supervisor and Starting: supervisor.mjs, BootstrapSupervisor over the slots.
-- Gateway (container/control-plane/services/gateway/lib)
--   Availability and Outages: availability.mjs, DshAvailability, and the history that it stands for.
-- OutboundProxy (container/control-plane/services/outbound-proxy/lib)
--   Dns: dns-cache.mjs, ProxyDnsCache; `begin` and `finish` are the halves of `resolve`. DnsBounds
--     says how large it grows, DnsSpec what it stands for, DnsRefine that it keeps to that.
-- Updater (container/control-plane/modules/updater/lib)
--   Journal and JournalLaws: journal.mjs, UpdateJournal, and why a transaction comes to an end.
--   Channel and ChannelLaws: channel-state.mjs, ChannelStateStore and `planDesiredState`.
--   AutomaticCheck, Notices and Silence: automatic-check.mjs, AutomaticCheckStateStore, what it tells
--     of, and when it is silent.
-- Prelude has what all share: Boolean tests, lists, texts, JavaScript maps and outcomes.
--
-- A text is a list of UTF-16 code units. A `Map` is a list of entries in the order of insertion. A
-- method is a function from the state, its arguments, and each reading of the clock and each random
-- text that it draws, to the state and its answer; `null` and `undefined` are `none`, an exception is
-- the `err` of a `Result`. A time is a whole number of milliseconds; a difference that may be negative
-- is written as a sum on the other side, or a case. Objects that JavaScript changes in place are
-- entries of the state, and where an array is shared between two maps it is an entry of a heap.
-- JSON.parse, dates, URLs, base64 and signatures are the record Node, SHA-256, HMAC-SHA-1 and the hash
-- of a record are parameters; of the HMAC the length and the range
-- of its output are hypotheses. A disk is the documents that it holds, and a write to it is whole and
-- durable, as container/platform/lib/atomic.mjs makes it. Operations that wait in a queue are whole
-- steps; the one operation that does not wait is put between the parts of another.
--
-- Fuel occurs in three places of Totp. The loop that empties the base-32 buffer has three rounds
-- for at most twelve bits, so that one is left over; the decimal text of a number below a million has
-- six digits, for which there is fuel for six; the loop over the window has as many rounds as the
-- window has counters. The backoff of RateLimiter is a power of two with an exponent that nothing
-- bounds, cut off at a largest wait, as in the source. Elsewhere recursion is on the structure.
--
-- Not modelled: HTTP, sockets, processes, the web pages and the code that only calls other programs
-- or libraries (tar, npm, DNS, TLS, the file system); of the rest of the program the parts that the
-- manifest lists with their reasons.
pub mod Prelude
pub mod AccessManager
pub mod Bootstrap
pub mod Gateway
pub mod OutboundProxy
pub mod Platform
pub mod Stage0
pub mod Updater
