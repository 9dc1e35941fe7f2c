-- ===== src/Lib.antt =====
-- The backend of an emergency dispatch service: users raise an SOS, operators on shift accept it,
-- lead it and close it, administrators intervene, and jobs take calls back from operators who have
-- fallen silent. This library models the services of that backend and proves what makes them
-- correct. Paths below are from the root of the repository.
--
-- Parts and files
--   Schema          the tables of prisma/schema.prisma as records and enums
--   Errors          src/common/errors and src/common/utils/prisma-errors.ts: codes, statuses, details
--   Services        what the program calls and does not implement (Prisma, Redis, Socket.IO, Expo, JWT,
--                   bcrypt, crypto), as a record of functions that the definitions take as a parameter;
--                   `Documented` states the documented behaviour that the code relies on
--   Rows            the meaning of the queries, on a table as the list of its rows
--   World           the state: the tables, the keys of Redis, the connected sockets and the logs of what
--                   was emitted and pushed; the monad of a handler, with exceptions, `finally` and the
--                   rollback of a transaction. World/Keeps has the rules for a property that a handler
--                   keeps whatever it returns or throws, World/Triples those for what holds after it, World/Quiet those for one that does
--                   not throw
--   Presence        src/common/constants/operator-presence.ts; Presence/Decimal is `toString` and `parseInt`
--   Cache           src/redis/redis.service.ts: acquireLock, releaseLock and the operators' heartbeats;
--                   Cache/Attempts has the three answers of acquireLock
--   Gateway         src/modules/websocket/websocket.gateway.ts: rooms and emissions; Gateway/Connect has
--                   handleConnection, the token's timers and the snapshots; Gateway/Busy, Offers and
--                   Deliveries are about who receives what
--   Push            src/modules/push/push.service.ts: batches, dead tokens, the three kinds of message
--   Queries         conditions, updates and pages that several services share, and lockOperatorRow of
--                   src/common/prisma/operator-lock.ts
--   Dispatch        src/modules/dispatch/dispatch.service.ts, method for method
--   Emergency       src/modules/emergency/emergency.service.ts, method for method; Emergency/Placement is
--                   the middle of startSessionLocked and findUserOrgId of the organization service
--   Tokens          src/modules/refresh-token/refresh-token.service.ts, method for method
--   Cron            src/modules/cron/cron.service.ts, job for job; Cron/Reclaim, Settled, Sockets and
--                   Stale are about the job on stale assignments
--   Auth            src/modules/auth/auth.service.ts, method for method; `AuthServices` is what it calls
--                   besides, with its documented behaviour
--   Users           src/modules/users/users.service.ts, method for method
--   Subscriptions   src/modules/subscription-request/subscription-request.service.ts and the decisions on
--                   requests of src/modules/admin/admin.service.ts
--   Venues          src/modules/venue/venue.service.ts: bindByInviteCode and listByOrganization; and the
--                   access of members in src/modules/organization/organization.service.ts;
--                   Venues/InviteCodes is prisma/lib/invite-code.ts and Venues/Creation the creation of a
--                   venue; `Letters` is the case of letters, Unicode's and the database's
--   Organizations   the creation and the list in src/modules/organization/organization.service.ts;
--                   Organizations/Slugs has the slug of a name, Organizations/Removal what the schema's
--                   onDelete does to the rows around a deleted venue or organization
--   Applications    src/modules/organization-application/organization-application.service.ts and the
--                   decisions on applications of src/modules/admin/admin.service.ts
--   Contacts        src/modules/emergency-contact/emergency-contact.service.ts, method for method
--   Admin           src/modules/admin/admin.service.ts: Admin/Sessions has the sessions, Admin/Operators
--                   the operators' accounts and shifts, with src/common/constants/anonymize.ts,
--                   Admin/Organizations, Admin/Members and Admin/Venues the organizations
--   System          the whole as a transition system: System has its moves, System/Invariant the desk's
--                   invariant, System/Handlers, Emergencies, Scheduled, Administration, Accounts,
--                   Connections, Memberships and Premises are about the handlers' moves, System/Calls has
--                   the requests and runs them one after another, System/Histories, Safety and Evolution
--                   are about what such a run does
--   Roster          the invariant of memberships, venues and organizations between two requests:
--                   Roster/Rows, Roles and Removals are about the rows,
--                   Handlers, Ownership, Approvals, Members, Premises and Departures about the handlers,
--                   and Roster/Histories runs the handlers one after another
--   Guards          src/common/guards and src/modules/auth/strategies/jwt.strategy.ts
--   Controllers     the *.controller.ts of src/modules: a data type of routes for each controller, with the
--                   type of each route's answer, its roles and its method. Controllers/Supervision and
--                   Administration are the administrator's, Desk the operators' and the emergencies',
--                   Personal those of a signed-in person and Public the auth controller's;
--                   Controllers/Requests puts the guards before them
--   Answers         src/common/filters/http-exception.filter.ts
--   Configuration   src/config/configuration.ts: Configuration has the parsers, and the handshake's check of
--                   origins in src/modules/websocket/websocket.gateway.ts, Configuration/Process the
--                   variables and the object, with src/common/middleware/metrics-token.middleware.ts
--   Tests           small states and the theorems at them
--
-- How the code is rendered
--   A method of a service is a function of the same name in snake case into the monad `M`, with the
--   services as its first argument. A Prisma error P2025 is the exception `row_not_found`, and
--   `catch_not_found` is the code's `catch` that asks isPrismaRowNotFound. The `where` of a query is a
--   Boolean test on a row and its `data` a function on a row. Identifiers, tokens and hashes are numbers
--   and instants are milliseconds; text is the list of its code units. `crypto.randomUUID` and the
--   schema's `@default(uuid())` draw the next of a sequence that does not repeat. Rows that an `include`
--   joins to an answer, the messages of exceptions and the log are left out; the `details` of an
--   exception are kept.
--   Each handler is one step. The code makes this true where it matters by conditional updates and by
--   lockOperatorRow, under which the transactions of one operator run one after another; the model's
--   lock therefore changes nothing. Interleavings inside a handler and an outage of the database are
--   not modelled; an outage of Redis is, as a field of the state that may change at any time.
--   Numbers that `parseInt` reads are exact, as a double's are up to 2^53. The insertion of a refresh
--   token meets neither the unique index of its hash, which a new `jti` keeps free, nor the foreign key
--   of its user, whom the same handler has read. `is_unexpired` compares whole seconds, as the JWT
--   library does.
--   The partial unique index on a user's pending requests is a condition of the insertion.
--   Pages are counted from 1, which the request's validation sees to.
--
-- Loops and fuel
--   Loops over rows are structural. The loop of postToExpo is on fuel, as many rounds as there are
--   messages, and each round takes at least one; the generation of an invite code has the source's
--   twenty attempts; the digits of a number n are found within n + 1 rounds.
--
-- Not modelled
--   The histories of System contain no deletion of a venue or an organization: these clear columns of
--   sessions that are closed. Roster/Histories has them. The storage of an application's attachments, which
--   the program does not implement. Mail and health, which are input and output (of a reset's mail, the
--   address and the token are kept). The validation of bodies and the throttling, which the framework does;
--   the schema of the environment's variables and the framework's wiring; the seed of the database.
pub mod Admin
pub mod Answers
pub mod Applications
pub mod Auth
pub mod Cache
pub mod Common
pub mod Configuration
pub mod Contacts
pub mod Controllers
pub mod Cron
pub mod Dispatch
pub mod Emergency
pub mod Errors
pub mod Gateway
pub mod Guards
pub mod Organizations
pub mod Presence
pub mod Push
pub mod Queries
pub mod Roster
pub mod Rows
pub mod Schema
pub mod Services
pub mod Subscriptions
pub mod System
pub mod Tests
pub mod Tokens
pub mod Users
pub mod Venues
pub mod World
