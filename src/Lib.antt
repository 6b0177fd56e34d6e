-- ===== src/Lib.antt =====
-- SystemVitals: uptime and cron-job monitoring. The parts modelled and the files that model them:
--
-- - Schema: the tables that the monitor works on (database/prisma/schema.prisma). A row is a record,
--   a table a list, and a committed transaction a function from database to database: the code takes
--   a row lock (SELECT ... FOR UPDATE) in each of them, so transactions on one check do not overlap.
--   What others commit before a transaction is a function argument (`others`). Keys are numbers,
--   dates are milliseconds since the epoch, Int columns are signed integers, strings are lists of
--   UTF-16 code units.
-- - Routing: snapshotSelectedChannelIds of worker/src/notification-routing.ts.
-- - Watchdog: sweepOverdue of worker/src/watchdog.ts and isCronOverdue of worker/src/cron.ts. Each
--   turn of its loop comes with what surrounds it: changes of others, an aborted signal, a queue
--   that refuses. Guard proves the transaction, Sweep and Accounts the loop.
-- - Ping: PingService.recordPing of api/src/ping/ping.service.ts.
-- - Probe: handleProbe of worker/src/probe-handler.ts.
-- - ProbeScheduler: findDueProbes and scheduleDueProbes of worker/src/probe-scheduler.ts.
-- - Alert: handleAlert of worker/src/alert-handler.ts.
-- - Monitor: these components together, as a relation of committed transactions in any order.
-- - Plan: planLimitsFor and effectiveLimits of api/src/billing/plan-limits.ts, and the entitlements of
--   api/src/billing/account-entitlements.service.ts.
-- - CheckUpdate: resolveCheckUpdate of api/src/checks/check-update.ts, with minCronGapSeconds of
--   api/src/checks/cron.ts. Fields has the input and the fields that stand alone, Formats the targets of
--   TCP checks, Heartbeat the heartbeat mode; Gaps, Shape and Accepted have the proofs.
-- - Tenancy: organizations, projects, members, invites, subscriptions and status pages around the monitor.
-- - Checks: withCreatorRetry, the guard of a mutation, pause, resume and delete of
--   api/src/checks/checks.service.ts; Operation has the channel switch and update, Transfer has move,
--   Creation has create and createActiveCheck, Reads the reads. Guarded, Toggle, Moved, Lifecycle,
--   Created, NewChecks, Listed and Found have the proofs, Slugs the lemmas on slugs. What others
--   commit before each lock of a transaction is a field of its Attempt; the retry is over three
--   attempts, as in the code.
-- - TokenPolicy: requireOperationAccess and requireCheckAccess of api/src/tokens/token-policy.ts.
-- - TrackedScheduler: the class of that name in worker/src/tracked-scheduler.ts.
-- - Slug: slugify, uniqueSlug and isValidSlug of api/src/common/slug.ts. The search of uniqueSlug has no
--   bound in the code; here it has one round more than there are taken slugs.
-- - SlugCreation: createWithUniqueSlug of api/src/common/create-with-unique-slug.ts.
-- - Members: the writes of api/src/members/members.service.ts; Roles has those that change roles or end a
--   membership. Ownership has the proofs on creators, Stale what a request does whose first reads are
--   out of date.
-- - Organizations: api/src/organizations/organizations.service.ts, with the reserved slugs of
--   api/src/common/slug.ts and api/src/billing/legacy-billing-provenance.ts. Endings has the
--   transfer and the deletion, which takes with it what the schema cascades. Created and Exact prove
--   the creation, Handover the transfer, Deletion the deletion; Owners and History have the requests
--   on members and organizations in any order.
-- - OauthState: api/src/auth/oauth-state.ts. Cookies, RoundTrip and Verified have the proofs.
-- - Ssrf: isBlockedHost and assertTargetAllowed of worker/src/ssrf.ts; Ranges has the proofs.
-- - Base: shared helpers. Tests: the theorems at concrete inputs, and runs of the model.
--
-- Parameters: cron-parser (the next fire of an expression, or a parse error) and Intl, the prober, the
-- notifiers, random identifiers, Unicode normalization and case, HMAC, UTF-8 and base64url, net.isIP,
-- URL parsing and name lookup. Loops are recursions on lists, or on the number of rounds that the code
-- fixes: three attempts of a transaction, twenty of a creation with a slug, ten gaps of a schedule.
-- Only the search for a free slug takes fuel, and one round more than there are taken slugs is enough.
--
-- Assumed: a log of a failed alert is written; where it is not, the code's job fails.
--
-- Not modelled: Telegram texts, logging, error reporting, and everything that PROJECT.json lists as
-- not modelled.
pub mod Base
pub mod Schema
pub mod Routing
pub mod Watchdog
pub mod Ping
pub mod Probe
pub mod ProbeScheduler
pub mod Alert
pub mod Monitor
pub mod Slug
pub mod SlugCreation
pub mod Plan
pub mod CheckUpdate
pub mod Tenancy
pub mod Checks
pub mod TokenPolicy
pub mod TrackedScheduler
pub mod Members
pub mod OauthState
pub mod Ssrf
pub mod Organizations
mod Tests
