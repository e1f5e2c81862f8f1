-- ===== src/Bridge.antt =====
-- zen_ma2_agent/ma_bridge: the line protocol of the bridge and the server that answers it.
pub mod Protocol
pub mod Dispatch
pub mod Bounds
pub mod Cache
pub mod Retransmission
mod Tests
