-- ===== src/Tests.antt =====
-- Runs of the modelled code at concrete inputs, one for each theorem that has conditions.
mod Samples
mod Codec
mod Queueing
mod Working
mod Returning
mod Piping
mod Batching
mod Pooling
mod Running
mod Ingesting
mod Serving
mod Throttling
mod Observing
mod Registering
mod Recording
mod Configuring
