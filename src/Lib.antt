-- ===== src/Lib.antt =====
-- test-app-pkcs11: a web app in which each user has a Bitcoin and an Elements wallet, both held by a
-- federation of HSMs. A wallet has a stack of federation versions, which a migration tool extends and
-- sweeps, and a reorg may undo a sweep.
--
-- The files, by the code that they model:
--   Chain            src/elements_sync.rs: the stores of the Elements block scan. Blocks is
--                    PgBlockStore, Utxos PgWalletUtxoStore (its methods in Utxos/Codec), Checkpoints
--                    PgCheckpointStore
--   Db               src/db.rs and src/models.rs over the tables of migrations/: Users, Wallets,
--                    Transactions, Versions (federation_versions)
--   Config           src/config.rs: Read is AppConfig::from_env, Tokens discover_hsm_tokens, Text
--                    what they use of the standard library's texts
--   Migration        examples/federation_migration.rs: what Step 1 and, if Step 2 sweeps, the marking
--                    after it write for one Bitcoin wallet; Elements, the same for an Elements wallet, with
--                    the federation that it moves to, and Elements/Sweep, the batched sweep of its
--                    accounts; Cli, the command line and the check of the configuration
--   Wallet           src/wallet.rs: Manager (rows, loading, the self-healing of a drifted descriptor; Signers,
--                    the app's settings in it),
--                    Reconcile (reverting migrations that a reorg undid), Descriptor (fingerprints),
--                    Signing (signing some inputs of a shared transaction, with the Elements twin),
--                    Send (accounting, broadcasting and recording of a payment or a sweep),
--                    Sync (all version wallets, persisting, and the call of Reconcile), History (the
--                    payments to an address)
--   Elements         src/elements_wallet.rs: Manager (rows, the network, loading), Backend (which
--                    client broadcasts), Send (the four ways of sending and the preview of a sweep),
--                    Addresses (the lists of addresses, and in Activity the history of one),
--                    Balances, the totals by script and by asset; BlindingKey, the hex texts of keys,
--                    with those of the migration tool, and Derived, the keys themselves; Ingest,
--                    src/elements_ingest.rs
--   Hsm              src/hsm.rs: the signer cache and the derivation over the tokens
--   Auth             src/auth.rs and src/handlers/auth.rs: sessions, login, seeding
--   Prelude          lists, results, signed amounts, the statements of SQL that the code sends
--   Tests            runs, and the theorems at concrete inputs
-- Each component's definitions stand in the file named for it, and its theorems in the files below.
-- Functions keep the names of the code.
--
-- A table is the list of its rows, and a statement is what PostgreSQL does with it, constraints
-- included: a refused statement changes nothing. Ids that the server draws are arguments. In the stores
-- of Chain, and in the sync and the reconciliation of Wallet, the connection (Prelude.Sql.Conn) serves
-- a number of statements and then drops, so that what an error leaves behind is a result. Elsewhere
-- every statement is served, and fails only as a constraint refuses it, but for the UPDATE that
-- corrects an Elements wallet's row, which ElementsDb.serves_update may lose. An operation in
-- Prelude.Step keeps what it wrote before an error.
-- Uuids, hashes and scripts are numbers. Hash texts, JSON, Argon2, PKCS#11, BDK and the federation
-- builder are parameters: records of functions, with the round trips that the code relies on as
-- fields. Machine integers: a u32 that is read back from a BIGINT is taken modulo 2^32, u64 sums
-- modulo 2^64, saturating or panicking, and an i32 or i64 that cannot hold a value an error, 0 or the
-- largest, as the code has it. An amount that the code shows as an f64 stays in satoshis. Recursion
-- is structural, but for the search for tokens, which runs on fuel: enough of it is one more than
-- there are tokens (Config.Tokens.Ends).
--
-- Not modelled: HTTP routing, templates and the remaining handlers, the scans of an ingestion pass
-- and the clients of nodes and indexers, the building of transactions, the environment itself,
-- timestamps other than broadcast_at, and the locks (each operation runs alone). Of the migration
-- tool, the planner of emvault, the single-transaction sweep of Elements and the sweeps of Bitcoin
-- accounts.
pub mod Prelude
pub mod Chain
pub mod Config
pub mod Db
pub mod Migration
pub mod Wallet
pub mod Auth
pub mod Elements
pub mod Tests
pub mod Hsm
