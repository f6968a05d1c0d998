-- ===== src/Session/Database.antt =====
-- The presence database of a session of src/jabberoo-session.cc: which operations leave it alone, and
-- that it is well-formed in every state a session reaches.
pub mod Kept
pub mod Received
pub mod Steps
pub mod Reached
