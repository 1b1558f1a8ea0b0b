-- ===== src/Cue.antt =====
-- The SCTE cue listener of the worker (src/worker/worker.cpp, `listenCueTcpPort` and what it calls).
pub mod Framing
pub mod Rows
pub mod Gate
pub mod Handler
pub mod Client
