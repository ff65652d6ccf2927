-- ===== src/Programs.antt =====
-- src/common.cpp, include/scpp/common.h, src/impl/kermit_kernel.cpp and src/impl/kermit_proxy.cpp: the
-- addresses by which the programs find each other, and their `main` functions.
pub mod Addresses
pub mod Options
pub mod KernelMain
pub mod ProxyMain
pub mod KernelOptions
pub mod ProxyTurns
pub mod ProxyOptions
pub mod Endpoints
pub mod Commanding
pub mod Reporting
pub mod Running
