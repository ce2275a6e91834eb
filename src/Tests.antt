-- ===== src/Tests.antt =====
-- Examples: the theorems at concrete databases.
mod Fixtures
mod Codecs
mod Serving
mod Walls
mod Publishing
mod Practising
mod Recording
mod Revising
mod Proposing
mod Messages
mod Reading
