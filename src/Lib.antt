-- ===== src/Lib.antt =====
-- The core of the fleet tracking system: GPS trackers send positions to an ingestion service, which
-- hands them to sinks; an API server, the control plane, manages tenants, devices and commands.
--
-- Parts, and the files that model them:
-- - Common: names passed on from the library, tests on numbers, lists, dictionaries in the order of
--   insertion (a JavaScript Map), texts as lists of character codes, decimal printing.
-- - Protocol: packages/protocol-teltonika/src. Bytes are numbers below 256 in lists; a Node.js reader
--   past the end and every thrown error is a `Fault`. Crc16, Reader, Imei, Codec8, Codec12, Udp and
--   Params are the files of these names; Frame and Codec8/Layout describe the wire independently.
-- - Ingestion: services/ingestion/src. Exec is the world that handlers share (sink, deduper, socket,
--   counters); Health is the command endpoint of health.ts; AvlMap, Dedupe, AllowList, TcpServer and UdpServer are the files of these names;
--   Records, Session and Handlers are session.ts, where Handlers takes any `Deduper` that keeps the
--   laws of that record, and Dedupe/Memory shows that InMemoryDeduper does.
-- - ControlPlane: services/control-plane/src. Http has the exceptions; ImmobilizerCommand and
--   Immobilizer are modules/devices/immobilizer*.ts; Auth is modules/auth/auth.service.ts; Org is
--   engine/org.ts; Alerts, with Checks and Edges, and Trips are engine/alerts.ts and engine/trips.ts; Billing is
--   billing/plans.ts, and Billing/Subscribe the subscriptions of modules/billing; Guard is common/auth.ts; Users is modules/users/users.ts; Devices is modules/devices/devices.service.ts;
--   Telemetry is modules/telemetry/telemetry.consumer.ts, over Devices, Alerts and Trips, with Current for its cache,
--   Steps and Stored for its loop, Hot, Kept, Batches and History for what it leaves, Removed for a removal;
--   Departments is modules/departments/departments.ts, with Forest, Walk and Cascade for the tree.
--   DeviceConfig is modules/devices/device-config.ts, over Protocol/Params, with Steps, Write and Sends for what it reports and sends;
--   Totp is engine/totp.ts;
--   StreamBus is RedisStreamBus of integrations/redis.ts; Realtime is realtime/realtime.gateway.ts; DeviceCommander is HttpDeviceCommander of integrations/device-commander.ts, with
--   EndToEnd against Ingestion/Health; Notifications is notifications/*.ts and modules/notifications;
--   Positions is modules/telemetry/positions.controller.ts; AlertStore is modules/alerts; Vehicles and
--   Geofences are the modules of these names; Devices/Bootstrap is allowlist.bootstrap.ts.
--   Each is modelled with the in-memory repositories of domain/in-memory.repository.ts.
-- - Witnesses: theorems applied to concrete values.
--
-- Numbers: latitudes and longitudes are the integers of the wire (the code divides by 10 million),
-- dates are milliseconds, identifiers and speeds are numbers. An 8-byte value is rounded to 53 bits as
-- `Number` does it. Fuel: the frame loop runs as many rounds as the buffer has bytes and one, and each
-- round takes 12 bytes at least; the walk of the department tree runs as many steps as there are
-- departments and one, which is enough for any parent relation; so do the walk up of a move and the
-- cascade of a removal, which is enough where the departments are a forest, as the requests keep them.
--
-- Parameters: the digests, the password and second-factor checks, signed tokens, what Redis, the sink
-- and the devices answer, generated identifiers, the clock, and floating-point geometry.
--
-- Not modelled: sockets, TLS and timers, logging, GraphQL and HTTP controllers, the PostgreSQL
-- repository, the tables of reports, the geometry of geofences, the web app and the SDK.
pub mod Common
pub mod Protocol
pub mod Ingestion
pub mod ControlPlane
pub mod Witnesses
