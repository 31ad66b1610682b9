-- ===== src/Mempool.antt =====
-- utils/transaction/mempool: the pool of transactions and its block proposer.
pub mod Opts
pub mod Pipe
pub mod Pipeline
