-- ===== src/Voice.antt =====
-- Voice packets between the program and a voice server: src/voice.
pub mod Rtp
pub mod Crypto
pub mod Receiver
pub mod Sender
pub mod Link
