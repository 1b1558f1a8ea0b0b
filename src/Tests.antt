-- ===== src/Tests.antt =====
-- Runs on concrete inputs, and the theorems at them: the queue, cues, texts and addresses, the
-- playlist, the lives of the streams, packets, targets, the titles sent to Icecast, and the
-- supervisor's routes.
mod Queue
mod Cues
mod Texts
mod Playlist
mod Lives
mod Targets
mod Titles
mod Routes
