-- ===== src/Examples.antt =====
-- Tests of the definitions on small inputs, and each theorem at an input that meets its hypotheses.
pub mod Packets
pub mod Segments
pub mod States
pub mod Schedules
pub mod Messages
pub mod Links
pub mod Literals
pub mod Fragments
