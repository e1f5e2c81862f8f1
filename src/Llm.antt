-- ===== src/Llm.antt =====
-- zen_ma2_agent/llm/router.py: the slots of language-model providers and the order in which they are asked.
-- Slots is one slot and its checks, Config the private environment that slots are loaded from, Router the
-- order of the candidates, Complete the ordered fallback, Parallel the batches of concurrent requests.
pub mod Slots
pub mod Config
pub mod Router
pub mod Order
pub mod Complete
pub mod Fallback
pub mod Parallel
pub mod Futures
pub mod Batches
pub mod Turn
pub mod Turns
pub mod Answers
pub mod Schedules
pub mod Loaded
pub mod Numbers
pub mod Stage
pub mod Secrets
mod Tests
