-- ===== src/Store.antt =====
-- core/store.py: the key-value stores behind one interface, and the facade for backtest jobs.
-- Store.Memory is `MemoryStore`, Store.Sqlite `SQLiteStore`, Store.Redis `RedisStore`, and Store.Jobs
-- `JobStore.evict_done`. Keys are numbers, and times whole ticks; each operation reads the clock once.
pub mod Memory
pub mod Sqlite
pub mod Redis
pub mod Jobs
pub mod Interface
pub mod Implementations
mod Tests
