-- ===== src/Tests.antt =====
-- The development on concrete inputs: each theorem applied, and some runs computed.
mod Locks
mod Windows
mod Notices
mod Reading
mod Ports
mod Times
mod Events
mod Segments
mod Lookups
mod Sending
mod Writing
mod Memory
mod Packets
mod Outgoing
mod Frames
