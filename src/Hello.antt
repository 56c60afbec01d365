-- ===== src/Hello.antt =====
-- hello-driver/hello.c: a character driver with two devices that share one message under a mutex.
pub mod Ioctl
pub mod Files
pub mod Threads
pub mod Install
mod Examples
