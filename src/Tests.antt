-- ===== src/Tests.antt =====
-- The theorems at inputs that exercise the code, and runs of it.
pub mod Sample
mod Pevents
mod Streams
mod Requests
pub mod Cameras
pub mod Videos
pub mod Servers
mod Pages
pub mod Digests
pub mod Programs
mod Worlds
