-- ===== src/Payments.antt =====
-- Payments: the purchase service with the repositories under it (src/services and
-- src/database/repositories). The children hold the tables, the operations and the proofs.
pub mod Json
pub mod Db
pub mod Repo
pub mod Activation
pub mod Service
pub mod Evolution
pub mod Sound
pub mod Writes
pub mod Operations
pub mod Grants
pub mod Settling
pub mod Outcomes
pub mod Traces
pub mod Examples
pub mod Callback
pub mod Webhook
pub mod CallbackSafety
pub mod CallbackEffects
pub mod CallbackRepeats
pub mod CallbackSettles
pub mod CallbackExamples
pub mod Reconciler
pub mod Polling
