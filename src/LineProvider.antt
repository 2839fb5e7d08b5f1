-- ===== src/LineProvider.antt =====
-- The line-provider service (src/line_provider): events in memory, their states, and the messages
-- that it publishes when an event finishes.
pub mod Schemas
pub mod StateMachine
pub mod Store
pub mod Service
pub mod Api
pub mod Lifespan
pub mod Steps
mod Tests
