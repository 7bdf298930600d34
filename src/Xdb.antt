-- ===== src/Xdb.antt =====
-- The broker's database: xdb/broker (the objects Service, Worker, Letter, and the facade
-- DatabaseBroker) and xdb/impl/xdb_impl_db_broker.cpp over the classes of xdb/impl/dat/broker_db.mco.
pub mod Rows
pub mod Service
pub mod Worker
pub mod Letter
pub mod Table
pub mod Mco
pub mod Services
pub mod Workers
pub mod Letters
pub mod ServiceList
pub mod Clear
pub mod Memory
pub mod Samples
pub mod Tests
