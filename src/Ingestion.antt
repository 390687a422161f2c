-- ===== src/Ingestion.antt =====
-- internal/ingestion: throttling, the ingestion of one event, and its HTTP answer.
pub mod Throttler
pub mod Service
pub mod Handler
pub mod Middleware
pub mod Router
pub mod HttpServer
