-- ===== src/Queue.antt =====
-- internal/queue: the job envelope, the producer, the consumer and the dead letter queue.
pub mod Types
pub mod Message
pub mod Producer
pub mod Consumer
pub mod Dlq
