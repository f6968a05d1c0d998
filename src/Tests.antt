-- ===== src/Tests.antt =====
-- Concrete inputs at which the theorems apply, one file for each part of the program.
mod Jids
mod Packets
mod Agents
mod Components
mod Databases
mod Discos
mod Files
mod Filters
mod Hashes
mod Messages
mod Rosters
mod Sessions
mod TimeStamps
mod VCards
