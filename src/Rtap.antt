-- ===== src/Rtap.antt =====
-- The real-time database: xdb/impl/xdb_impl_db_rtap.cpp over the classes of xdb/impl/dat/rtap_db.mco.
pub mod Point
pub mod Gofvalti
pub mod Update
pub mod Values
pub mod Effects
pub mod Consistent
pub mod Messages
pub mod Groups
pub mod Attributes
pub mod Access
pub mod Tests
