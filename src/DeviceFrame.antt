-- ===== src/DeviceFrame.antt =====
-- include/avr-halib/common/cdeviceframe.h: messages over a character device, framed by `CFrame`.
-- `Polled` is the class without interrupts, `Driven` the one that the device's interrupts drive.
pub mod Polled
pub mod Driven
mod Tests
