-- ===== src/Blocks.antt =====
-- How a list of wires splits the addresses of a state vector into blocks: an address is given by
-- its digits at the wires and by the number that its other digits spell (its block). This is the
-- abstract view against which the address arithmetic of the kernels is proved.
mod Skip
mod Address
mod Numbers
mod Schedule
mod Controlled
mod Joined
mod Halves
unfoldable pub use Skip.*
unfoldable pub use Address.*
unfoldable pub use Numbers.*
unfoldable pub use Schedule.*
unfoldable pub use Controlled.*
unfoldable pub use Joined.*
unfoldable pub use Halves.*
