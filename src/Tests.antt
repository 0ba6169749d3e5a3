-- ===== src/Tests.antt =====
-- The theorems at concrete inputs, and tests of the definitions.
mod Samples
mod Cores
mod Queues
mod Messages
mod Scheduling
mod Traffic
mod Links
mod Listening
mod Duplex
mod Arrivals
mod Waiting
mod Machines
mod Arguments
mod Picks
mod Picking
mod Serial
mod Systems
mod Closing
mod Rounds
mod Networks
mod Answers
mod Echoes
