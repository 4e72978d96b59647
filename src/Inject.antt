-- ===== src/Inject.antt =====
-- s_band_antenna_mgmt/src/fpga_firmware_injector.c: the thread that loads firmware into an FPGA over
-- the RS-422 line. The locks, the log and the progress callback, which nothing sets, are left out.
pub mod Interface
pub mod Serial
pub mod Task
pub mod Opening
pub mod Packets
pub mod Thread
pub mod Delivery
pub mod Position
pub mod Transfer
pub mod Completion
pub mod Polling
mod Tests
