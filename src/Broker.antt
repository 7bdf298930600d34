-- ===== src/Broker.antt =====
-- mdp/mdp_broker.cpp: the broker between clients and the workers of services.
pub mod State
pub mod Dispatch
pub mod Extends
pub mod Gone
pub mod WorkerSide
pub mod ClientSide
pub mod Loop
pub mod Requests
pub mod Reports
pub mod Turn
pub mod Delivery
pub mod Purge
pub mod Replies
pub mod Senders
pub mod Tests
