-- ===== src/Tests.antt =====
-- Runs of the model, and the theorems at concrete inputs.
pub mod Data
pub mod Chain
pub mod Utxos
pub mod Versions
pub mod Accounts
pub mod Keys
pub mod Wallets
pub mod Sends
pub mod Syncs
pub mod BlindingKeys
pub mod Histories
pub mod Configs
pub mod Clis
pub mod ElementsWallets
pub mod ElementsSends
pub mod Migrations
pub mod Sweeps
pub mod ElementsAddresses
