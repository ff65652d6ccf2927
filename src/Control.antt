-- ===== src/Control.antt =====
-- The control clients under src/control.
pub mod Client
pub mod RmtClient
pub mod NetworkPatterns
pub mod ZmqClient
pub mod ZmqSockets
