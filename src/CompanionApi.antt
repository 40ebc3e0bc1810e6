-- ===== src/CompanionApi.antt =====
-- The companion's interface over UDP: src/CompanionProtocol.cpp and src/CompanionUdpServer.cpp. The children:
-- `Json` the library that prints and parses, `Snapshot` the status, `Protocol` requests and replies,
-- `Server` the handling of a request.
pub mod Json
pub mod Snapshot
pub mod Request
pub mod Reply
pub mod Server
pub mod Gate
pub mod Budget
pub mod Echo
pub mod Answer
mod Examples
