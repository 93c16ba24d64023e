-- ===== src/Tests.antt =====
-- The theorems at concrete inputs, and runs of the definitions.
mod Fixtures
mod Tables
mod Wires
mod Texts
mod Uploads
mod Asks
mod Halves
mod Downloads
mod Commands
mod Files
mod Sendings
mod Starts
