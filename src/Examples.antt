-- ===== src/Examples.antt =====
-- Tests of the definitions on concrete inputs, and the theorems at inputs that meet their hypotheses.
mod Streams
mod Tailed
mod Actions
mod Batches
mod Decoded
mod Files
mod Joined
mod Limits
mod Lines
mod Matched
mod Offsets
mod Parts
mod Pooled
mod Postgres
mod Requests
mod Rules
mod Spam
mod Templates
