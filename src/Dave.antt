-- ===== src/Dave.antt =====
-- src/dave: end-to-end encryption of voice and video frames.
pub mod Leb128
pub mod Buffer
pub mod Ranges
pub mod Outbound
pub mod Codecs
pub mod Inbound
pub mod Ciphers
pub mod Aead
pub mod Encryptor
pub mod Decryptor
pub mod EndToEnd
