-- ===== src/Examples.antt =====
-- Tests, and the theorems at concrete inputs.
mod DataMessages
mod RobotMessages
mod Robot
mod Node
mod Memory
mod Pipe
mod Serial
mod Interface
mod Wiimote
mod Programs
mod Logging
mod Detector
mod Commanding
mod Reporting
mod Proxies
