-- ===== src/Lib.antt =====
-- A smart-security hub and its dashboard: sensors register, send heartbeats and events; rules turn
-- events into alerts by the arm mode; a sweep notices devices that went silent; schedules change
-- the mode; credentials, a guard and a policy decide who may do what; cameras publish frames; a
-- nightly sweep deletes old rows; the dashboard repeats some rules to explain a refusal.
--
-- How the parts meet. An event enters at `Events.ingest` (hub/src/events/events.service.ts), which
-- marks the agent as seen, stores and broadcasts the event, and asks the rules; `Alerts.Service`
-- (hub/src/alerts/alerts.service.ts) raises, suppresses and clears alerts, reading the mode of
-- `System` (hub/src/system/system.service.ts). `Agents.Liveness`
-- (hub/src/agents/agent-liveness.service.ts) raises the offline alerts and `Agents.Service`
-- (hub/src/agents/agents.service.ts) clears them on recovery. `Schedules.Runner`
-- (hub/src/schedules/schedule-runner.service.ts) asks `Schedules.LocalTime`
-- (hub/src/schedules/local-time.ts) whether a boundary is due, `Security.Policy`
-- (hub/src/common/security/policy.service.ts) whether it may fire, changes the mode through
-- `System` and writes to `Audit` (hub/src/audit/audit.service.ts).
--
-- The files. `Base` holds the shared helpers: Boolean tests, equality, lists, maps and texts.
-- `Contracts` is packages/contracts/src, and `Schedules.Clock` the time of day in its
-- schedule.ts. `Hub` is the state: the tables of hub/prisma/schema.prisma, the frames sent to
-- sockets, and the alerts handed to the notifier. `Settings` is what is read of
-- hub/src/config/configuration.ts, `Http` the errors that a service throws. `Alerts.Rules` is
-- hub/src/alerts/alert-rules.ts. `Security.Tokens` and `Security.Credential` are
-- hub/src/common/security/tokens.ts and credential.service.ts, `Security.Guard` is
-- hub/src/common/guards/auth.guard.ts. `Cameras.FrameStore` and `Cameras.Jpeg` are
-- hub/src/cameras/frame-store.service.ts, `Cameras.Browser` is
-- hub/src/cameras/browser-camera.service.ts. `Schedules.Editing` is
-- hub/src/schedules/schedules.service.ts. `Notifications.Service` is
-- hub/src/notifications/notifications.service.ts. `Maintenance.Retention`, `Maintenance.RollUp`
-- and `Maintenance.Sweep` are hub/src/maintenance/retention.service.ts: the deletes, the
-- roll-up, and the run that puts them in order; `Maintenance.ForeignKeys` is what the database
-- does to the rows that refer to a deleted one, by the schema's onDelete. `Api` is the
-- controllers, which put the guard's identity, the policy, the services and the audit trail
-- together: `Api.Mode` is hub/src/system/system.controller.ts, `Api.Acknowledge`
-- hub/src/alerts/alerts.controller.ts, `Api.Schedules`
-- hub/src/schedules/schedules.controller.ts, `Api.Cameras` and `Api.Streams`
-- hub/src/cameras/cameras.controller.ts, `Api.Enroll` hub/src/agents/agents.controller.ts and
-- hub/src/cameras/browser-cameras.controller.ts, and `Api.Queries` the list queries of the
-- services. `Environment` is hub/src/config/env.validation.ts. `Realtime` is
-- hub/src/realtime/realtime.gateway.ts, which sends the frames of `Hub` to sockets, `Mqtt` is
-- hub/src/mqtt/mqtt-ingest.service.ts, which routes a message to the services that the REST
-- routes use, and `Reports` is hub/src/reports/reports.service.ts, which reads the events and
-- their roll-up. `Dashboard.Permissions` is dashboard/src/lib/permissions.tsx,
-- `Dashboard.Cluster` dashboard/src/lib/cluster.ts, and `Dashboard.Stream`
-- dashboard/src/lib/useCameraStream.ts, whose steps (`Dashboard.StreamSteps`) come in any order
-- that the browser allows, with the page's gate on ticket requests in `Dashboard.Mint`;
-- `Dashboard.Capture` and `Dashboard.CapturePace` are dashboard/src/lib/useBrowserCamera.ts,
-- with its steps in `Dashboard.CaptureSteps`, and `Dashboard.AgentCommand` is
-- dashboard/src/lib/agent-command.ts; `Dashboard.Api` is dashboard/src/lib/api.ts, and
-- `Audit.Labels` the name that it sends. A definition is named after its function, in snake
-- case; modules named for what they prove (`Alerts.Cooldown`, `Schedules.Once`,
-- `Security.GuardLaws` and the like) hold the theorems, and `Tests` concrete instances of them.
--
-- Parameters. The database client is the record `Db.Prisma` of the operations that the hub calls,
-- with their documented behaviour as laws; a table is the list of its rows. The batched SQL delete
-- is the record `Maintenance.Retention.BatchDelete`; the statements of the roll-up stand in the
-- source and are written out. SHA-256, random texts, `toLowerCase`, the time-zone conversion, the
-- JSON text of an audit detail and a channel's delivery are function arguments; so are the
-- libraries that build the environment's instance and validate it (`Environment.ClassValidator`).
-- The WebSocket server is the record `Realtime.Sockets.SocketIo`; `JSON.parse`, the reading of a
-- date and the local day of a time are function arguments. `now` is the clock, read once in a call.
--
-- Conventions. Times are milliseconds as natural numbers; a comparison that the code writes with a
-- subtraction has the subtrahend on the other side, so nothing stops at zero. An exception is an
-- `err`. Calls run one after another, but for the claims of schedules, which `Schedules.Once`
-- serves in any order. Fuel: the JPEG loop takes one unit a round and moves at least one byte on,
-- so the number of bytes suffices; `to_string` has one unit more than its number.
--
-- Orders of steps. `Maintenance.History` lets events and sweeps follow each other on one clock,
-- `Api.StreamLaws` requests, turns and ends of streams, `Dashboard.StreamSteps` the events of a
-- tile, `Dashboard.MintSlots` the calls of the gate, and `Dashboard.CaptureSteps` a capture's
-- steps, with a start awaited at three places; each is a relation, and its invariant is proved
-- by induction on it.
--
-- Not modelled: failures of the database, the list queries that no zone restricts, log lines, cron
-- registration, dependency injection, the connections to sockets and brokers, the dashboard's other
-- views, and the Python agents.
pub mod Base
pub mod Settings
pub mod Environment
pub mod Contracts
pub mod Db
pub mod Hub
pub mod Http
pub mod System
pub mod Alerts
pub mod Security
pub mod Agents
pub mod Events
pub mod Audit
pub mod Schedules
pub mod Cameras
pub mod Dashboard
pub mod Maintenance
pub mod Notifications
pub mod Api
pub mod Tests
pub mod Realtime
pub mod Mqtt
pub mod Reports
