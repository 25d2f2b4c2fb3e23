-- ===== src/Fmgo.antt =====
-- The FMGO v1 protocol as the host tools speak it (tools/session_smoke.py): frames, reads of an exact
-- number of bytes, and requests that wait for their response.
pub mod Frame
pub mod Stream
pub mod Request
pub mod Echo
pub mod Hello
pub mod Burst
pub mod Smoke
mod Tests
