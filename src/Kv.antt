-- ===== src/Kv.antt =====
-- src/infra/db/nos_kv.c and nos_kv_priv.h: the in-memory tables. The parts are the hash (`Hash`),
-- the table and its operations (`Table`), the manager of the tables (`Manager`), and the proofs.
pub mod Hash
pub mod Table
pub mod Manager
mod Tests
