-- ===== src/Supervisor.antt =====
-- The supervisor's requests (src/supervisor/supervisor_api.cpp).
pub mod Admin
pub mod CueRoute
pub mod Cues
pub mod Diagnostics
pub mod Encoders
pub mod Hls
pub mod Host
pub mod Http
pub mod Input
pub mod Metadata
pub mod TestCommand
pub mod Router
pub mod Text
pub mod Targets
