-- ===== src/Lib.antt =====
-- AIoT-Cloud: a server that registers IoT devices, takes what they report over MQTT and Kafka, sends
-- commands and firmware to them, and assesses their health. This library models the services that hold
-- the logic of the server, with the theorems that make them correct.
--
-- The parts and their files:
-- Constants, Constants/KafkaTopics: the enumerations and topic names of src/constants.
-- Entities: the rows of the database (src/modules/*/*.entity.ts) and the configuration of a device.
-- Repository: what the services rely on of a TypeORM repository, as a record of operations and laws;
--   Repository/Rows implements it by a list of rows, Repository/Updates and Repository/Found have its
--   consequences.
-- Database: the state that the services share, a record World of the tables, the domain events
--   emitted, and the messages that the brokers took. Database/Events has the events, Database/Messages
--   the messages and the brokers. Services meet in the rows, in the events, which the warning listener
--   (Warning) reacts to, and in the calls that Command and Mqtt make of the handlers of Device and Ota.
-- Response: ResponseCore, the answer of a service. Scope: resolveAccessScope.
-- Topics: the topic templates and the regular expressions of src/constants/mqtt-topics.ts.
-- Ota: DeviceOtaService. Ota/Trigger has triggerUpdate, getStatus, getHistory and getManifest,
--   Ota/Report has handleOtaStatusReport; Ota/Laws, Ota/Reports and Ota/Runs prove what they do.
-- Device: the messages of devices in DeviceService. Device/Ingest has recordTelemetry,
--   handleDeviceStatusMessage and handleDeviceChannelEvent, Device/Sweep sweepOfflineDevices,
--   Device/Unclaimed the devices that nobody has registered; Device/Presence, Device/Channels,
--   Device/Offline and Device/Strangers prove what they do.
--   Device/Rules has the alert messages and the grammars of their rules, Device/Alerts handleDeviceAlert;
--   proofs in Device/Rules/RoundTrip, Device/Rules/Anomalies and Device/Alarms.
-- Command: triggerDeviceAction, triggerDeviceActionViaMqtt and pushConfigSync of DeviceService, which
--   apply an optimistic event by the handler of Device; proofs in Command/Guards and Command/Outcome.
-- Health: src/common/health-scoring.util.ts, with Health/Bounds.
-- Lifecycle: DeviceLifecycleService. Lifecycle/Readings counts breaches of warning bands,
--   Lifecycle/Assessment has the scores, the stages and the operations; Lifecycle/Scores,
--   Lifecycle/Stages and Lifecycle/Rounds prove what they do.
-- Warning: DeviceWarningListener; Warning/Agreement compares it with Lifecycle/Readings.
-- Mqtt: MqttController and MqttTopicRegistryService, with `resolveCustomMqttTopic`. Mqtt/Controller
--   routes a message to the handlers of Device and Ota, Mqtt/Lookup has the custom topics and their
--   cache; Mqtt/Routing and Mqtt/Caching prove what they do.
-- Provision: registration and configuration in DeviceService. Provision/Register has registerDevice,
--   getDevice and deleteDevice with what its foreign keys do, Provision/Boot getBootConfig, Provision/Configure updateDeviceConfig,
--   which clears the registry of Mqtt; Provision/Names and Provision/Channels prove what they do.
-- AssetHealth: AssetHealthService (AssetHealth/Assess), and of AssetService the nodes
--   (AssetHealth/Nodes) and the assets (AssetHealth/Register), on the readings of Lifecycle; proofs in
--   AssetHealth/Pooling and AssetHealth/Outcomes.
-- Kafka: KafkaConsumerService. Kafka/Messages dispatches a message to the handlers of Device and Ota,
--   Kafka/Connection has the start, the retries and the shutdown; proofs in Kafka/Delivery and
--   Kafka/Retrying.
-- Notification: NotificationService and the senders. Notification/Senders and Fanout send and record,
--   Notification/Linking has the configurations, Notification/Inbox the messages of a user; proofs in
--   Notification/Sending, History, ReadMarks and Tokens.
-- Live: the event stream of DeviceService (Live/Feed) and AppGateway (Live/Sockets), in which a
--   connection opens in one step and gets its data in another, when its token has been verified; proofs
--   in Live/Visible, Live/Confined and Live/Rooms.
-- Accounts: UserService (Accounts/Users), AuthService, JwtStrategy and RolesGuard (Accounts/Sessions),
--   DeviceSecretService and its guard (Accounts/DeviceSecrets); proofs in Accounts/Passwords and
--   Accounts/Secrets.
-- Catalogue: DeviceTemplateService, FirmwareService, FactoryService and DashboardService, with what the
--   foreign keys do on a deletion; proofs in Catalogue/Links and Catalogue/Owners.
-- Web: of the front end, the export and the import of dashboards (Web/Files).
-- Base, Number, Dict, Json: texts as UTF-16 code units, lists, numbers as exact fractions, objects.
-- Tests: the concrete data and runs.
--
-- A handler is a function from the state to the state (and an answer), with the guards and early
-- returns of the source in their order. `now` is what the clock shows in the call: a handler that reads
-- the clock more than once reads the same time. Handlers run one after the other, as steps; what
-- happens between two awaits of one handler is not modelled, except for handleConnection. A broker takes or refuses the n-th attempt
-- to send for any pattern of refusals, and a refusal is the exception that the source catches. Errors
-- of the database, log lines, transactions and paging are not modelled.
--
-- Numbers of the source are doubles. A value that a device reports is an exact fraction, and the scores
-- are exact fractions that are rounded where the source rounds; a double whose rounding error crosses
-- a half can differ by one point. A month is 30.44 days, 2,630,016,000 ms. `toUpperCase` and
-- `toLowerCase` are exact as far as a comparison with an ASCII text can tell. No loop of the model
-- needs fuel except the printing of a number, where the number itself is enough.
--
-- An attempt of the Kafka consumer to connect is one step that succeeds or fails, and the timers fire as
-- steps. A crash stops the loop of the library before the listener of the service is called. The recipients of a notification are served in order. bcrypt, SHA-256, the source of
-- randomness, the signature of a token, Firebase and the answers of Zalo are parameters.
--
-- Outside the library are the paged lists, the columns that only describe a template or an asset, the
-- controllers, schedulers, decorators and configuration of the framework, which wire the services
-- together, the Kafka producer and the registration of the Zalo webhook, which only call their
-- packages, and the rest of the web front end (web/src), which displays what the API answers.

pub mod Base
pub mod Constants
pub mod Number
pub mod Dict
pub mod Json
pub mod Entities
pub mod Repository
pub mod Database
pub mod Response
pub mod Scope
pub mod Topics
pub mod Ota
pub mod Device
pub mod Health
pub mod Lifecycle
pub mod Warning
pub mod Command
pub mod Mqtt
pub mod Provision
pub mod AssetHealth
pub mod Kafka
pub mod Notification
pub mod Live
pub mod Accounts
pub mod Catalogue
pub mod Web
pub mod Tests
