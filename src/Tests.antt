-- ===== src/Tests.antt =====
-- The theorems at concrete inputs: the UDP interface, the two sides of the TCP interface, the
-- stand-in stack, the multiplexor, the other kernels, the firmware, and the driver.
pub mod Vnx
pub mod Tcp
pub mod Rx
pub mod Units
pub mod Mux
pub mod Stack
pub mod Firmware
pub mod Served
pub mod Ring
pub mod Xrt
