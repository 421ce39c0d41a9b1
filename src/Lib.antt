-- ===== src/Lib.antt =====
-- hamboom: a collaborative whiteboard with teams and paid plans. The repository is a set of
-- TypeScript packages (packages/) and services (apps/). This library models the parts that decide
-- about money, access, stored documents, and the way of a change from a browser to the log.
--
-- Parts and files
--   packages/billing-core/src
--     money.ts                  Billing/Money.antt
--     period.ts                 Billing/Period.antt
--     reconcile.ts              Billing/Reconcile.antt
--     transfer-destination.ts   Billing/Destination.antt
--     gateway.ts                Billing/Gateway.antt
--     mock-gateway.ts           Billing/Gateway/Mock.antt
--     card-transfer-gateway.ts  Billing/Gateway/Transfer.antt
--     zarinpal-gateway.ts       Billing/Gateway/Zarinpal.antt
--   packages/auth-core/src
--     roles.ts                  Auth/Roles.antt
--     refresh.ts                Auth/Refresh.antt
--     otp.ts                    Auth/Otp.antt
--     tokens.ts                 Auth/Tokens.antt (with apps/realtime/src/auth/auth-core-authority.ts)
--   apps/realtime/src/permission.ts and packages/canvas-sync/src/permissions.ts
--                               Auth/Roles.antt
--   apps/realtime/src
--     persistence/update-log.ts, snapshot-store.ts, snapshot-catalog.ts, store/persisted-board-store.ts
--                               Realtime/Stores.antt, Realtime/Keys.antt
--     persistence/compactor.ts  Realtime/Compactor.antt
--   apps/api/src/services/billing.ts
--                               Api/Subscription.antt, Api/Settle.antt
--   packages/ydoc-schema/src
--     protocol.ts               Schema/Protocol.antt (with apps/realtime/src/pubsub/board-bus.ts)
--     migrations/               Schema/Migrations.antt
--     value-codec.ts            Schema/TextDiff.antt
--   apps/realtime/src
--     room.ts                   Realtime/Room.antt (state, persistence, envelopes) and
--                               Realtime/Room/Messages.antt (messages, roles, join, leave)
--     awareness.ts              Realtime/Presence.antt
--     pubsub/redis-owner-lock.ts  Realtime/OwnerLock.antt
--   apps/api/src/idempotency.ts
--                               Api/Idempotency.antt
--   packages/canvas-sync/src/emit-local.ts
--                               Sync/EmitLocal.antt
--   packages/canvas-sync/src/websocket-transport.ts
--                               Sync/Transport.antt
--   apps/api/src/services/card-transfer.ts
--                               Api/CardTransfer.antt
--
-- How the parts interact
--   A checkout computes a charge (computeCharge) and creates a payment with a gateway, which is one of
--   the classes that implement the port of gateway.ts. The sweep of unpaid payments (planSweep,
--   matchOrphans) asks the same gateway and hands out authorities of its list of unverified payments.
--   A login checks a one-time code and starts a session, whose refresh token is renewed at each use.
--   The role of a user on a board is computed from the facts of the database and decides what the
--   server takes from a connection and what the client shows. A short-lived token opens a board.
--   A room appends each update of its document to the log; the compactor folds a prefix of the log
--   into a snapshot and then drops what the snapshot contains; a board is loaded from the newest
--   snapshot and the rest of the log. The library Yjs is the record Yjs of Realtime/Compactor.antt,
--   and the one law the theorems need of it is a hypothesis.
--   The API settles a payment from three places (the callback of the gateway, the sweep, a member of
--   staff) through one function, which asks the gateway and activates the subscription.
--   In the browser a queue merges the changes of a gesture (Sync/EmitLocal) and writes them to the
--   shared document, whose updates are the frames that a room receives over
--   the connection of Sync/Transport.
--   A transfer from card to card is approved by staff: the approval is written into the row, and the
--   gateway on that row (Billing/Gateway/Transfer) then reports it paid to the settlement.
--   A room decodes each frame of a session (Schema/Protocol), tests the role, and applies the update
--   to its document. The update goes to the update log by a task in flight; when the log has it, it is
--   passed on to the other sessions and, over the bus, to the rooms of other servers. One server holds
--   the lease of a board (Realtime/OwnerLock), and only that one compacts. A room at work is a Node
--   with its tasks in flight and the list of what went out; the steps that may interleave are those of
--   Realtime/Room/Steps.antt.
--
-- How the model corresponds to the code
--   A definition has the name of the function it models, in snake case. A class or a store with
--   mutable fields is a record that its methods take and return; a Map is the association list Dict of
--   Base/Dict.antt, in insertion order. What a function throws is a constructor of a result type;
--   texts of messages are left out. A value that the code draws at random (an authority, a code, a
--   token) is an argument. A `number` that the code tests for being a safe integer is a Number, which
--   may be a fraction or NaN; elsewhere amounts and times are natural numbers or, where they can be
--   negative, integers. Every loop of the code is a recursion on a list but for three, which run on
--   fuel: the decimal digits of a snapshot's key (the number itself, enough because a tenth of a
--   number from 10 on is smaller than it), the two scans of applyTextDiff (the length of the shorter
--   text, enough because each round moves an end that stops there), and the steps of migrateDocument
--   (the distance from the version of the document to the target, enough because each step goes up).
--   Where the database is SQL, a record of rows stands for it, and a transaction that throws changes
--   nothing. Callbacks, timers and tasks in flight are events that may come in any order.
--
-- Not modelled
--   The Jalali year of an invoice number (Intl.DateTimeFormat), coupons at settlement, SQL, HTTP and
--   the user interface, and the packages that the list above does not name. Amounts are exact: a
--   charge whose figures go beyond 2^53 - 1, where doubles are rounded, is none, and dates are from
--   the year 0 up to 275759. Calls that await a store or Redis run without another in between but where
--   a file says otherwise. Libraries are parameters: jose, Yjs and y-protocols (documents, sync,
--   awareness), lib0 (reading and writing bytes), the commands of Redis, SHA-256. Of a room: the
--   loading in open with its quarantine, timers and eviction, and the map of the rooms of a server;
--   the lock and the bus in memory, which are doubles for tests; writeInto of value-codec.ts.
pub mod Api
pub mod Auth
pub mod Base
pub mod Billing
pub mod Realtime
pub mod Schema
pub mod Sync
