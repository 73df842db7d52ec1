-- ===== src/Encrypted.antt =====
-- internal/encryptedfile: the chunked, authenticated file format.
pub mod Bytes
pub mod Format
pub mod Encrypt
pub mod Open
pub mod Read
pub mod Cache
pub mod Reading
pub mod Requests
pub mod Memory
pub mod Layout
pub mod Chunks
pub mod Writing
pub mod Opening
pub mod RoundTrip
pub mod Stream
pub mod Streaming
pub mod Resealing
pub mod Finalizing
pub mod Nonces
pub mod Inspecting
pub mod Authentic
pub mod Tampering
mod Examples
