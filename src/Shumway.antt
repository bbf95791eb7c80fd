-- ===== src/Shumway.antt =====
-- tools/bootloader/legacy/shumway: the CAN boot loader, a set of servers that exchange messages through
-- a kernel. `Queue` is the kernel's message queue, `Memory` the shared memory that messages point
-- into, `Kernel` the dispatch of messages to servers; `Signal`, `Action`, `Reply` and `Server` are what
-- the servers share, and `Isp`, `Id` and `Timer` are three of them.
pub mod Queue
pub mod Memory
pub mod Kernel
pub mod Signal
pub mod Action
pub mod Reply
pub mod Server
pub mod Isp
pub mod Image
pub mod FlashDriver
pub mod EepromDriver
pub mod IspDriver
pub mod Id
pub mod CanDriver
pub mod CanPhy
pub mod UartDriver
pub mod UartPhy
pub mod Timer
pub mod TimerDriver
