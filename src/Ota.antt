-- ===== src/Ota.antt =====
-- `OtaFlasher` of ota/OtaFlasher: `Lines` is how the output of the child process is cut into lines,
-- `Child` the life of the process.
pub mod Status
pub mod Lines
pub mod Child
mod Tests
