-- ===== src/Firmware.antt =====
-- kernel/fw/sw_apps/ccl_offload_control/src: the firmware of the offload's control processor.
pub mod Cmd
pub mod Sts
pub mod Code
pub mod Reg
pub mod Machine
pub mod Keeps
pub mod Frame
pub mod Pipeline
pub mod Dma
pub mod Comm
pub mod Packetizer
pub mod Block
pub mod Switch
pub mod Buffers
pub mod Receive
pub mod Move
pub mod Ring
pub mod Root
pub mod Main
