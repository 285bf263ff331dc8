-- ===== src/Media.antt =====
-- shared/core/gm_media.cpp: media datagram headers, nonces, the replay window and key epochs.
pub mod Header
pub mod Nonce
pub mod Epoch
pub mod Replay
