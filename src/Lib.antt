-- ===== src/Lib.antt =====
-- Verification of the backend of LC Connect, a campus network: FastAPI handlers over PostgreSQL.
--
-- The library follows the backend's features. A table is a list of rows, a query a test on rows, and
-- an operation a function from the database to a result: a value with the new database, or the error
-- that the handler raises. Base holds what all of them share: tests (Base/Tests), results and their
-- chains (Base/Results), tables with the lemmas on queries and updates of one row (Base/Table),
-- Python's text (Base/Texts) and the fields of a partial update (Base/Changes).
--
--   People      accounts, positions, programs (backend/app/models/core.py, campus.py, programs.py;
--               backend/app/shared/programs.py).
--   Social      connection requests, matches, blocks (backend/app/models/social.py) and the checks
--               of backend/app/shared/policies.py.
--   Connections backend/app/features/connections: Connections/Requests has the routes (router.py) with
--               the match rows (service.py) and a match's conversation
--               (backend/app/shared/conversations.py), Connections/Calls a sequence of calls. Pairs
--               and Accepting hold what is proved.
--   Groups      backend/app/features/groups. Groups/Defs has the rows, Groups/Policies the
--               permissions (policies.py), Groups/Service the operations (service.py), Groups/Router
--               the routes (router.py) as requests: `handle` is one route, `step` what it leaves,
--               `run` a sequence. Owner, Capacity, Bans, Moderation, Standing with Outranking, and Race
--               hold what is proved of them.
--   CampusHub   backend/app/features/campus_hub. CampusHub/Visibility has the feed's query and the
--               check of one post (content_visibility.py), CampusHub/Payloads the request bodies
--               (schema.py), CampusHub/Publishing the life of a post and CampusHub/Push the
--               recipients of a push (publishing.py). Feed, Push and Publishing/Lifecycle hold what
--               is proved.
--   Attendance  backend/app/features/attendance. Attendance/Sessions has starting, closing and the
--               sweep, Attendance/CheckIn the rotating codes, Attendance/Correction the corrections
--               and Attendance/Reports the reads that close a session on the way (service.py, qr.py,
--               challenges.py). An operation here may commit and then raise, so a step returns the
--               database beside the result. Attendance/Calls is a sequence of calls. Closing,
--               Sweeping, Live and Authentic hold what is proved.
--   RateLimit   backend/app/shared/rate_limit.py: RateLimit/Buckets has the limiter in the process, with
--               tokens counted exactly, in units of one part in a period, where the program has
--               floats. Balance and Parity hold what is proved.
--   Realtime    backend/app/features/realtime/manager.py: Realtime/Manager has the methods on one
--               connection, Realtime/Delivery those that go over an index. A connection is an object
--               that two indices share, so the state has a heap. Realtime/Reach has the indivisible
--               steps, which the invariants of Synced, Refs and Limits are proved for; Revocation,
--               Closing and Limits hold what is proved.
--   Admin       backend/app/features/admin/admins.py, with the campus addresses of
--               backend/app/shared/email_roles.py: Admin/Emails, the rows in Admin/Defs, the
--               requests in Admin/Scopes, where `handle` is one of them, and what each has tested
--               in Admin/Rules. SuperAdmin, Escalation, Gate with Gated, and Race hold what is
--               proved.
--   Messages    backend/app/features/messages: Messages/Sending has sending, editing and deleting
--               (service.py, editing.py, replies.py, router.py), Messages/Access who may use a
--               conversation (backend/app/shared/conversations.py, policies.py),
--               Messages/Receipts the boundaries of backend/app/features/realtime/service.py, and
--               Messages/Retention the purge of backend/app/shared/message_retention.py. Writes has
--               what a request writes as a step relation; Lives, History, Retry, Acknowledged,
--               StaffThreads and Purge hold what is proved.
--
-- Numbers: a UUID is a natural number, a time a number of microseconds, and both are unbounded. A
-- new id is an argument of the operation that draws it. The readings of the clock are arguments; two
-- readings with nothing between them are one.
--
-- Orders: an operation is one step, with no other between its reads and its commit, and a run is a
-- sequence of operations that are handled one after another. The program does not ensure this: the
-- database is READ COMMITTED (docs/architecture/data-integrity.md), and only some operations lock a
-- row before they read what they decide on, such as joining a group, closing a session or editing a
-- message. What others do when they cross is outside the theorems on
-- runs. Three crossings are modelled, as the reads of both before a write: two transfers of a group,
-- and an invitation that is accepted during a ban (Groups/Race), and two revocations of an admin's
-- scope (Admin/Race). The branches that answer a unique constraint broken by a concurrent writer are
-- left out, but for those of a check-in and of a message.
--
-- Loops: a loop is over a list of rows, but for the one of the purge, which runs on fuel: a turn for
-- each message to purge and one more are enough. A deletion of rows there does what the foreign keys
-- say.
--
-- Outside: HMAC, the parsing of times, the unfurling of links, Redis with the scripts in it, push
-- services and sockets. They are parameters, or are cut off at the call. Not modelled: the pages,
-- reactions and search of messages, the gateway of the live updates, the rest of the administration,
-- accounts, activities, scholars, employers, discovery and the clients; reads that only list rows;
-- and the routes' dependencies, which decide who may call.
pub mod Base
pub mod People
pub mod Social
pub mod Connections
pub mod Groups
pub mod CampusHub
pub mod Attendance
pub mod RateLimit
pub mod Realtime
pub mod Admin
pub mod Messages
