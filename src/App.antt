-- ===== src/App.antt =====
-- app/ChassisHost: the state of the host, the output side, the commands, the events of the loop, and
-- what is proved of them.
pub mod Defs
pub mod Output
pub mod Ota
pub mod Commands
pub mod Dispatch
pub mod Lines
pub mod Events
pub mod Timers
pub mod Step
