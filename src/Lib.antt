-- ===== src/Lib.antt =====
-- PennyLane Lightning: the state-vector gate kernels of lightning.qubit, the bit arithmetic they rest
-- on, the Metropolis sampling, and the pool of GPU devices.
--
-- The program. A state vector of n qubits is an array of 2 ^ n complex amplitudes; wire 0 is the
-- highest digit of an index. A gate kernel runs over 2 ^ (n - m) rounds, where m counts the control
-- and target wires. Each round computes from its number k, with masks and shifts, the
-- addresses at which the amplitudes of the round stand, and a core function of the gate changes them.
-- A generator of a gate with controls also zeroes the amplitudes whose controls do not match.
-- The rounds run in parallel under OpenMP. All paths below start at
-- pennylane_lightning/core/src.
--
-- Which file models what:
--   Word        std::size_t as numbers below 2 ^ 64, shifts and complement; Word/Bit has the digits,
--               Word/Popcount std::popcount.
--   Prelude/Errors  utils/Error.hpp: code that may throw, as a value of Outcome.
--   BitUtil     utils/BitUtil.hpp: log2PerfectPower, isPerfectPowerOf2, fillTrailingOnes,
--               fillLeadingOnes, bitswap, revWireParity. The children hold what is proved of them.
--   Memory      the array behind std::complex<PrecisionT> *arr, and the counted loops over it;
--               Memory/Cells: what a loop does to single cells.
--   Complex     std::complex over a parameter, Floats: the floating-point type with the functions of
--               <cmath> that the kernels call. No law of exact arithmetic is assumed of it; the results on
--               angles ask for KeepsSigns of Lm/Angles: negation moves through products, halves, sines
--               and cosines, a factor 1 changes nothing, and exp of both zeros is 1.
--   Blocks      the abstract view of the addresses: how control and target wires split a state vector
--               into blocks, and what a loop does whose rounds own disjoint blocks (Blocks/Schedule);
--               Blocks/Numbers, Blocks/Joined, Blocks/Halves read the digits at wires as a number.
--   Gate        what a gate does to a state vector, without addresses: gate1, gate2, gate_n on any
--               number of wires, only_active for the generators; Gate/Laws.
--   Lm          simulators/lightning_qubit/gates/cpu_kernels/GateImplementationsLM.hpp:
--     Lm/Index     reverseWires, the address arithmetic of applyNC1 and applyNC2, parity2indices;
--     Lm/Apply     applyNC1 and applyNC2 with the choice between the loops with and without controls;
--     Lm/Exchange  PauliX, CNOT, Toffoli, SWAP, CSWAP;
--     Lm/OneQubit, Lm/Rotations  the other one-qubit gates with controls;
--     Lm/OneControl   CY, CZ, ControlledPhaseShift, CRX, CRY, CRZ, CRot;
--     Lm/TwoQubit     the Ising couplings, the single excitations, a gate given by its matrix;
--     Lm/Many         applyNCN, with generateBitPatterns of gates/GateIndices.cpp beside that file;
--     Lm/MultiQubit, Lm/MultiRz, Lm/GlobalPhase  gates on any wires, with two generators;
--     Lm/FourQubit    applyNC4 and the double excitations;
--     Lm/Generate     applyNCGenerator1 and applyNCGenerator2;
--     Lm/OneQubitGenerators, Lm/TwoQubitGenerators  the generators over them;
--     Lm/Spread, Lm/Cells, Lm/Rounds, Lm/Addresses, Lm/Wires  the addresses of a round;
--     Lm/Entries, Lm/Presets, Lm/PatternCells, Lm/AllWires  the lists of addresses of a round;
--     Lm/Correct1, Lm/Correct2, Lm/CorrectN, Lm/Nc1, Lm/Nc2, Lm/Nc4, Lm/Nc4Loops, Lm/NcnLoops,
--     Lm/Ncn  the loops against Gate;
--     Lm/ControlMask, Lm/GeneratorFacts, Lm/GeneratorRound, Lm/GeneratorLoop,
--     Lm/GeneratorRun1, Lm/GeneratorRun2  the loops of the generators; Lm/Parities the masks of MultiRZ;
--     Lm/Angles    the cosines, sines and phases of the gates as functions of the signed angle;
--     Lm/Refusals, Lm/ExchangeLaws, Lm/OneQubitLaws, Lm/RotationLaws, Lm/TwoQubitLaws, Lm/IsingLaws,
--     Lm/TwoQubitOpLaws, Lm/OneControlLaws,
--     Lm/FourQubitLaws, Lm/MultiQubitLaws, Lm/MultiRzLaws, Lm/MultiRzGeneratorLaws, Lm/GlobalPhaseLaws,
--     Lm/OneQubitGeneratorLaws, Lm/TwoQubitGeneratorLaws  the gates and generators.
--   Util        utils/Util.hpp: exp2, maxDecimalForQubit, getIndicesAfterExclusion,
--               generateBitsPatterns.
--   Pool        utils/cuda_utils/TSQueue.hpp and DevicePool.hpp: one step for each section that holds a
--               lock, so that acquireDevice and releaseDevice are two steps each; Pool/Steps.
--   Sampling    simulators/lightning_qubit/measurements/TransitionKernels.hpp; Sampling/Metropolis
--               the chain and the samples of MeasurementsLQubit.hpp beside it, with the random numbers, std::log,
--               std::min and the tests on floating-point numbers as arguments; Sampling/Cache,
--               Sampling/Transitions.
--   Tests       runs at concrete inputs.
--
-- Names follow the source in snake_case: applyNCPauliX is apply_nc_pauli_x, and the lambda
-- core_function in it is pauli_x_core. A loop over an index is a recursion on the list of the wires or
-- masks it runs over; no definition has fuel, but countr_zero and popcount look at 64 digits, all that
-- a word has, and to_double drops up to 12 digits, which leaves 53 of a sum of two words.
--
-- Bounds. The theorems on kernels ask for n < 64 qubits, since a shift by 64 is undefined in C++, and
-- for distinct wires below n, which the kernels do not check. The local transition is for at most 53
-- qubits, since it computes in doubles.
--
-- Not modelled: PauliRot, applyIdentity and the generators of the double excitations in the same file,
-- the PI and AVX kernels, the kernel map and dispatcher, the state-vector classes, the other measurements,
-- observables and differentiation. The Kokkos, GPU and tensor simulators call libraries whose
-- sources are not part of the repository.
pub mod Prelude
pub mod Word
pub mod BitUtil
pub mod Memory
pub mod Blocks
pub mod Complex
pub mod Gate
pub mod Lm
pub mod Pool
pub mod Sampling
pub mod Tests
pub mod Util
