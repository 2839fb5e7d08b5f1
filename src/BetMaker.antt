-- ===== src/BetMaker.antt =====
-- The bet-maker service (src/bet_maker): bets in PostgreSQL, placed over HTTP, settled by the
-- consumer of line-provider's messages and by the reconciliation job.
pub mod Models
pub mod Exceptions
pub mod Database
pub mod Settle
pub mod Client
pub mod PlaceBet
pub mod BetRoutes
pub mod Preserves
pub mod Interleaving
pub mod UnitOfWork
pub mod Migrations
pub mod Settings
pub mod AppState
pub mod Health
pub mod App
pub mod Lifespan
pub mod Reconciler
pub mod Consumer
pub mod Reference
mod Tests
