-- ===== src/Fec.antt =====
-- The FEC monitor of a link: drivers/net/ethernet/hpe/sbl/sbl_fec.c, with the thresholds that
-- nic/sbl_fec_nic.c and sw/sbl_fec_sw.c give it. The error and replay counters are registers of the
-- hardware; what a function reads of them is an argument.
pub mod Tables
pub mod Thresholds
pub mod Rates
pub mod Checks
pub mod Monitor
pub mod Alarms
pub mod Settings
pub mod Work
pub mod UpCheck
pub mod Frame
mod Tests
