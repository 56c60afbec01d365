-- ===== src/Network.antt =====
-- network-module: requests over the network for a device on a serial port. kvmnetwork.c has the
-- sockets and the requests, uart.c the serial port (uart/uart.c is the same with a main).
pub mod Uart
pub mod Request
pub mod Connection
pub mod Sockets
pub mod Client
mod Examples
