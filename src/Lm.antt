-- ===== src/Lm.antt =====
-- simulators/lightning_qubit/gates/cpu_kernels/GateImplementationsLM.hpp: the kernels that compute
-- the addresses of a gate's amplitudes on the fly.
pub mod Index
pub mod Apply
pub mod Spread
pub mod Wires
pub mod Cells
pub mod Rounds
pub mod Addresses
pub mod Correct1
pub mod Correct2
pub mod CorrectN
pub mod Entries
pub mod Many
pub mod Generate
pub mod ControlMask
pub mod GeneratorRound
pub mod GeneratorLoop
pub mod GeneratorFacts
pub mod GeneratorRun1
pub mod GeneratorRun2
pub mod OneQubitGenerators
pub mod TwoQubitGenerators
pub mod OneQubitGeneratorLaws
pub mod TwoQubitGeneratorLaws
pub mod MultiQubit
pub mod MultiQubitLaws
pub mod FourQubit
pub mod Nc4
pub mod Nc4Loops
pub mod FourQubitLaws
pub mod MultiRz
pub mod Parities
pub mod MultiRzLaws
pub mod MultiRzGeneratorLaws
pub mod GlobalPhase
pub mod GlobalPhaseLaws
pub mod PatternCells
pub mod AllWires
pub mod NcnLoops
pub mod Ncn
pub mod Presets
pub mod Nc2
pub mod Nc1
pub mod OneControl
pub mod TwoQubit
pub mod Angles
pub mod OneQubitLaws
pub mod RotationLaws
pub mod TwoQubitLaws
pub mod IsingLaws
pub mod TwoQubitOpLaws
pub mod Refusals
pub mod OneControlLaws
pub mod OneQubit
pub mod Rotations
pub mod Exchange
pub mod ExchangeLaws
