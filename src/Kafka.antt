-- ===== src/Kafka.antt =====
-- The consumer of the inbound Kafka topics, src/modules/kafka/kafka-consumer.service.ts: the loop that
-- connects and subscribes, and the routing of a message to the services. The client library `kafkajs`
-- and the timers of the runtime are outside the program.
mod Messages
mod Connection
pub mod Delivery
pub mod Retrying
unfoldable pub use Messages.*
unfoldable pub use Connection.*
