-- ===== src/Pipeline.antt =====
-- The package pipeline: events, the streams that order them, and the batches that carry them out.
pub mod Event
pub mod Pool
pub mod Stream
pub mod Streamer
pub mod Batch
pub mod Batcher
pub mod Antispam
pub mod Processor
pub mod Input
pub mod Matching
