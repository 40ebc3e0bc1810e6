-- ===== src/LogDownloader.antt =====
-- src/LogDownloader.cpp: the inbox that MAVLink messages fill, archiving, and the list of logs.
-- The children: `Inbox` the message queue, `Archive` one log and a cycle, `Enumerate` the list.
pub mod Inbox
pub mod Archive
pub mod Enumerate
pub mod Listed
pub mod Verified
pub mod Recorded
pub mod Cycle
pub mod Catalogued
pub mod Queue
mod Examples
