-- ===== src/Lib.antt =====
-- AVR-HaLib, a C++ template library of drivers for AVR microcontrollers, with its tools: a model of
-- the parts that carry its logic, and theorems on them. Paths are from the repository's root.
--
-- The framed byte channel, include/avr-halib/common:
--   * CFrame models cframe.h: the two state machines that mark and stuff a frame's bytes, for the
--     three stuffing configurations. A character is signed, as it is by the compiler's default.
--     CFrame.Frame has the line format, and what makes a configuration valid.
--   * DeviceFrame models cdeviceframe.h, the clients of these machines. DeviceFrame.Polled is
--     CDeviceFrameNoInt: `send` as the calls that it makes of the base device, its waits included,
--     and `recv` as the loop over the bytes delivered.
--     DeviceFrame.Driven is CDeviceFrame: `send`, `recv` and the handlers `put_on_ready` and
--     `get_on_receive` that the base device calls on its interrupts, over the two message objects.
--     Children: Rounds, Send, Receive and Exchange, which joins both ends of a line, for the first,
--     Transmit and Reception for the second.
--
-- The flash driver, include/avr-halib/drivers/avr/flash.h:
--   * Flash has addresses, writer and reader. What the driver asks of the controller is a list of
--     commands; the memory is a function. Children: Addressing, Writing, Reading.
--
-- The controller, include/avr-halib/common/pid.h:
--   * Pid has its window of errors over any arithmetic; Window is about the index.
--
-- The EEPROM driver, include/avr-halib/drivers/avr/eeprom.h:
--   * Eeprom has its three operations over a memory of the 16-bit address; Storing is about
--     sequences of them inside the configured range.
--
-- The CAN boot loader, tools/bootloader/legacy/shumway: servers exchange messages through a kernel;
-- a message carries the key of a piece of shared memory.
--   * Shumway.Queue models util/Bounded_Simple_Queue.h. Refine relates it to a first-in first-out
--     queue, Race cuts one push by another.
--   * Shumway.Memory models ipc/Bounded_Shared_Memory.{h,cpp}; its laws are in Memory.Management,
--     and Memory.Intact has pieces as the class sets them up.
--   * Shumway.Kernel models ipc/Message.{h,cpp}, `get_server` and kernel/Kernel.cpp. Dispatch
--     follows a message from server to server, Sending a sequence of sends into the queue.
--   * Shumway.Signal, Action and Reply are the enumerations, Shumway.Server the acknowledgement
--     that the servers share (ipc/Server.cpp); Server.Acknowledging is about its outcomes.
--   * Shumway.Isp, Id and Timer model s_isp/S_Isp.cpp, s_id/S_Id.cpp and s_timer/S_Timer.cpp. A
--     server's `receive` takes its members and the world, which is the shared memory and the
--     messages sent; it gives `none` where the source would read or write through NULL or outside
--     a piece. The messages sent are what the kernel's `round` puts into the queue.
--   * Shumway.CanPhy and UartPhy model s_can_phy/S_Can_Phy.{h,cpp} and s_uart_phy/S_Uart_Phy.cpp,
--     the servers at the ports. Fragments follows a message out to the CAN port, Receiving one in
--     from it.
--   * Shumway.CanDriver models lib/comm/can/can_drv_can128.{h,cpp} over the controller's
--     registers. Transfer is about `send`, Reception about the interrupt.
--   * Shumway.FlashDriver models lib/mcu/flash/flash_drv_can128.{h,cpp}. Documentation states what
--     the part's documents say of the operations that it calls; Loading and Paging follow one
--     page, Programming a buffer, Erasing the erasure; Running has sequences of interrupts, Chip a
--     part for the tests.
--   * Shumway.EepromDriver models lib/mcu/eeprom/eeprom_drv_can128.{h,cpp}: Progress follows the
--     interrupts of a request, Writing is about whole requests. Shumway.IspDriver is the choice
--     between the two in lib/mcu/isp/isp_drv_can128.h. Image has what a memory shall hold.
--     Shumway.TimerDriver models lib/mcu/timer/timer1_drv_can128.{h,cpp} and lib/board, UartDriver
--     lib/comm/uart/uart_drv_can128.h. Memory.Access has the laws of loads and stores behind
--     pointers.
--
-- The generator of port map classes, tools/portmapgen: it copies a file, except for the descriptions
-- of port maps in it, for which it writes C++ structures of bit-fields.
--   * Portmap.Text has the characters and their classes, Portmap.Uc models uc.{h,cpp}, the tables
--     of the controllers' registers, and Portmap.Description the structures of portmapgen.h.
--   * Portmap.Tokenizer models `Tokenizer` of parse.cpp: the text outside of descriptions and the
--     tokens inside. Children: Copying, Words, and Progress, which measures what is left to read.
--   * Portmap.Parser models the rest of parse.cpp over its state: the tokenizer, the rest of the
--     file and the count of errors; a part of it returns, exits, or runs out of fuel.
--     Parser.Blocks has properties, pins and virtual ports, Parser.Portmaps port maps and `parse`.
--     Outcomes has the rules for the end of a part by which Pins, Vports and the children of
--     Portmaps follow the functions.
--   * Portmap.Layout models generate.cpp up to `generateVirtualPort`; what is written is data,
--     without the text around it. Children: Fields for structures, Masks and Vports for virtual
--     ports. Portmap.Merge is `generatePortmap` and `generate`; its child Order is about the
--     order of the output, Made takes what the parser gives.
--
-- Numbers are natural numbers, with the wrap-around of the source's types written out: `% 256` for
-- uint8_t, `% 2 ^ 16` and `% 2 ^ 32` for the wider ones. Enumerations of the boot loader are one
-- byte, as its Makefile sets it (-fshort-enums), and its headers are packed.
--
-- Fuel: the loops that preserve unset words of a flash page take it, and their theorems say how much
-- is enough: one round when the page is full, as many rounds as a page has bytes at any address. The
-- parser's loops take it too: twice the characters of the file and two rounds more are enough, since
-- each token takes a character or a token put back. The mask of a virtual port has fuel from its
-- arguments. The loop that sends CAN messages takes fuel, 256 rounds being enough for the 255 bytes
-- that a length can count, and so does the loop of the EEPROM's interrupt: more rounds than the
-- buffer has bytes. All other loops are structural: over the bytes to send, the bytes delivered, the
-- pieces of memory.
--
-- The environment is a parameter: the base device's readiness and the bytes that it delivers, the
-- memory's contents, the driver below the programming server (which requests it refuses, what it
-- reads), the flash memory with the operations of avr/boot.h, the RAM behind a driver's buffer, the
-- file that is parsed, and what a new PinBlock holds before it is set. C leaves the order of
-- bit-fields to the compiler; the places of fields are for bit-fields that lie one behind the other.
-- Waiting loops for a device are no steps of the model, except that DeviceFrame.Polled records them.
-- `atoi` is undefined for numbers that an int cannot hold; here it gives the number itself.
--
-- Not modelled: register layouts (include/avr-halib/regmaps, portmaps), the other drivers of
-- include/avr-halib, the interrupt manager, fixed-point arithmetic, logging, the examples, the start
-- of the boot loader, its interrupt vectors and the tools around it; of the port map generator, the
-- command line, the messages, the frame of the written text and characters that are not ASCII.
-- Copies of other projects' programs are left out for good.
pub mod Prelude
pub mod CFrame
pub mod DeviceFrame
pub mod Eeprom
pub mod Pid
pub mod Flash
pub mod Portmap
pub mod Shumway
