-- ===== src/Lib.antt =====
-- ACCL: the network kernels of the collective-communication offload, modelled and proved.
--
-- The offload moves messages of up to 2 ^ 31 bytes between nodes as streams of 512-bit words. A
-- call of the host reaches the firmware as fifteen words; the firmware programs the switches and
-- the DMA engines, and tells a packetizer of a message in five command words (destination, bytes,
-- tag, source, sequence number); the packetizer sends a word of header and the payload, cut into
-- packets by TLAST, to a UDP stack or, with a command for a transmit handler, to a TCP stack. On
-- the other side a receive handler asks the TCP stack for what it announces, and a depacketizer
-- takes the header off and reports its fields.
--
-- Files, and the sources that they model:
--   Packet/       the header and the counters of the packetizers, and the depacketizer: the lines
--                 that kernel/hls/vnx_intf and kernel/hls/tcp_intf share
--   Vnx/          kernel/hls/vnx_intf/vnx_packetizer.cpp, vnx_depacketizer.cpp, and
--                 demo/build/hls/loopback/vnx_loopback.cpp
--   Tcp/          kernel/hls/tcp_intf: Packetizer (tcp_packetizer.cpp), TxHandler
--                 (tcp_txHandler.cpp), RxHandler (tcp_rxHandler.cpp), Open (tcp_openPort.cpp,
--                 tcp_openConReq.cpp, tcp_openConResp.cpp); Stack is the stand-in of
--                 demo/build/hls/dummy_tcp_stack/dummy_tcp_stack.cpp
--   Mux/          kernel/hls/tcp_intf/pktMultiplexor.cpp
--   HostCtrl/     kernel/hls/hostctrl/hostctrl.cpp, and the words that the firmware's main reads
--   Arith/        kernel/hls/arith/reduce_arith.cpp
--   Firmware/     kernel/fw/sw_apps/ccl_offload_control/src/ccl_offload_control.c and .h: Machine
--                 (the static variables, the tables of the exchange memory, streams and registers),
--                 Block and Switch (registers), Dma, Pipeline (the three loops of a movement),
--                 Comm, Packetizer, Buffers (spare buffers and the interrupt handler), Receive, Move,
--                 Root and Ring (collectives), Main (a call of the host); Keeps and Frame carry a
--                 condition on the machine through every function, whatever it is
--   Xrt/          driver/xrt/include: xlnx-device.hpp, xlnx-comm.hpp and xlnx-consts.hpp
--   Base/         words, streams, loops with blocking reads, lists and tests
--   Tests/        the theorems at concrete inputs
--
-- A kernel's stream is a list, oldest item first; the ports and static variables of a kernel are
-- one record. A kernel that is called again and again is a function from the record to the
-- record, one call a step; a call that finds a stream empty leaves the record as it is. A kernel
-- that runs from start to end reads with blocking reads: its loop is on fuel, and ends done,
-- blocked at a read, or out of fuel; the theorems give the fuel that is enough, one round more
-- than there are words. An `int` or `ap_uint` is a natural number below its power of two, with
-- the wrap-around written out; what a range assignment does not name keeps an arbitrary former
-- value, an argument called `fresh`.
--
-- The shift of an `int` by 31 bits and more in tcp_packetizer.cpp is not defined by the language:
-- its value is the parameter `undefined`. A port that can be full is an answer of the environment
-- at each call. The buffer of 512 words in dummy_tcp_stack.cpp, which only its own process reads,
-- has its depth: a call that writes to it when it is full does not return (`none`).
--
-- The addition of floating-point and integer elements in reduce_arith.cpp, on their bits, is a
-- parameter.
--
-- A function of the firmware is a computation on the machine that ends with a value or stops, by
-- a `longjmp` with its code, by a read of a stream on which no word comes, or by a read outside
-- of a table or a division by 0, which the language leaves undefined; what was done before stays
-- done. What other blocks do is given in the state: the words that each stream delivers, how many
-- tests find it empty before, and how many reads find a block at work. An interrupt comes in
-- where the firmware enables interrupts, at startup, at a call for it, after each look at a spare
-- buffer and after each release of one; it does not look at the buffers elsewhere. A loop that
-- waits is on fuel, the field `rounds`, and running out of it is a way to stop that no error is
-- confused with; a movement needs more rounds than the timeout and the bytes to move, since a
-- wait tests once for each count and a transaction has at least a byte. The six functions that
-- move a buffer in transactions share the three loops of Pipeline, with what differs as
-- parameters. The address of the general-purpose port, from the board's support package, is an
-- argument.
--
-- The driver's operations are the calls that they make of XRT, in order; the addresses of
-- allocated buffers, the strings with inet_addr, the ranks that MPI and the environment name, and
-- what a run of the kernel makes of the words in the device are arguments. The ring of an
-- allreduce is a list of moves of each rank, which are those that the firmware makes; the words
-- on the wire between two ranks are what the rank before has sent, and the addition is an
-- argument.
--
-- Not modelled: the opening of the device and the loading of the bitstream by the XRT driver,
-- which only call XRT and MPI, its dump of the exchange memory, whose reads are commented out,
-- its sample program main.cpp, the Python driver, the test benches, the copied headers of the
-- network stack beside dummy_tcp_stack.cpp, the hardware description and the build scripts.
pub mod Arith
pub mod Base
pub mod Firmware
pub mod HostCtrl
pub mod Mux
pub mod Packet
pub mod Tcp
pub mod Tests
pub mod Vnx
pub mod Xrt
