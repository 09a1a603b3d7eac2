-- ===== src/Tests.antt =====
-- Tests and examples of the modules.
pub mod Words
pub mod Signs
pub mod Indices
pub mod Bits
pub mod Loops
pub mod Exchanges
pub mod OneQubit
pub mod TwoQubit
pub mod OneControl
pub mod Devices
pub mod Generators
pub mod ManyWires
pub mod Samples
