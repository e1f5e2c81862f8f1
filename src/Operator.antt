-- ===== src/Operator.antt =====
-- zen_ma2_agent/operator_api.py: the tools that an operator's assistant may call. Status is the snapshot
-- that the status tools show, Payload the checks on arguments, Invoke the adapter; the others prove.
pub mod Status
pub mod Payload
pub mod Invoke
pub mod Envelope
pub mod Tools
pub mod Answers
pub mod ReadOnly
pub mod Authority
mod Tests
