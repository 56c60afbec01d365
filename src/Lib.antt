-- ===== src/Lib.antt =====
-- Verification library of the C-modules repository, a collection of small C modules. Each component
-- is modelled by functions over explicit state, in the words of the source.
--
-- Eeprom: ftdi-eeprom/eeprom.c, images for the EEPROM of FTDI USB chips. `Eeprom.Defs` has
--   `struct ftdi_eeprom` (the fields that the file uses) and, as the parameter `FtdiHeader`, the
--   constants of libftdi's ftdi.h, which is not in the repository. Image memory is a function from
--   addresses to bytes. `Eeprom.Checksum` is the checksum loop (its counter is a byte, so it runs on
--   fuel: 256 rounds suffice exactly up to 255 words), `Eeprom.Strings` the string area,
--   `Eeprom.Build` and `Eeprom.Build2232h` the two builders, `Eeprom.Decode` the decoder,
--   `Eeprom.Defaults` the default structures and `Eeprom.Command` `main`, whose libftdi calls are
--   recorded in a list.
--
-- Mbr: hdmbr/mbr.c, what the ATA identify block says of a disk. `Mbr.Text` has stringTrimSpace on a
--   buffer in memory (its first loop runs to the NUL, so on fuel; more than the text's length is
--   enough), copyWordEndianString and the three readers, `Mbr.Capacity` get_num_sectors and
--   determine_capacity with sprintf's decimal output, `Mbr.Identify` readMBR over a kernel that is a
--   parameter, `Mbr.Tool` hdmbr/main.c with the block as a structure.
--
-- Gpio: gpio-spi/spi_gpio.c, a serial bus on the pins of a Ralink processor. `Gpio.Requests` has
--   switch_gpio and the functions that call ioctl; the kernel's driver is a parameter `Driver` on a
--   state of its own, the codes of ralink_gpio.h are the parameter `RalinkGpio`. `Gpio.Bus` has
--   gpio_open_dev and spi_send_receive, whose loop over the mask runs on fuel: 9 rounds for 8 bits.
--   `Gpio.Bus.Clocking` has the requests of a byte on the pins of mode 0, written out.
--   The waits between requests and the messages are left out.
--
-- LinkList: linklist/linklist.c, a doubly linked list. `LinkList.Heap` is the heap of nodes with the
--   two globals, malloc, free and a dereference that faults on NULL and on an address without a node
--   (malloc gives no address again that was freed, so a pointer that is kept to a freed node faults);
--   `LinkList.Nodes` has the functions. Their searches run on fuel: the length of the list and one
--   more is enough for each. `LinkList.Reading` reads a list along `next`,
--   `LinkList.Stack` uses it at its head only.
--
-- Connections: linklist/testlink.c, connections in a doubly linked list by rising CID with a current
--   node. `Connections.Nodes` has the table and the functions for insertion and search; the source
--   writes them once for each direction, the model once for a `Direction`. `Connections.Removal` has
--   remove_con_node, whose two directions differ. Nodes come from the caller, so every address is a
--   node and only NULL faults; of `connection_info`, whose type is not in the repository, the CID is
--   kept. `Connections.Focus` views a table from one node; the loops run on fuel, for which one more
--   than the number of nodes passed is enough. `Outcome` and the comparison of pointers are those of
--   `LinkList`.
--
-- Hello: hello-driver/hello.c, a character driver whose two devices share one message.
--   `Hello.Ioctl` has the two ioctls over the pipe (a message, its length and the mutex), with what
--   processes and the macros of linux/ioctl.h give as parameters; a call returns, waits for ever or
--   overruns the buffer. `Hello.Files` has the tables of operations, hello_open, and calls one after
--   the other; `Hello.Install` the kernel calls of hello_init and hello_exit. Calls are not
--   interleaved there; `Hello.Threads` has the ioctls step by step, byte by byte in the copies, in
--   threads that a scheduler moves in any order, and compares a thread that is alone with the calls
--   of `Hello.Ioctl`.
--
-- DriverTest: driver-test/main.c, which writes a message through that driver or reads it. Its calls are
--   those of `Hello`; the block of malloc, what it holds and what copies reach are parameters.
--
-- Tokens: token/token.c, a text cut by strtok. `Tokens` has all calls of strtok on a buffer as one
--   pass that gives the offsets of the pieces and the text with NULs for the delimiters, and enStrTok
--   with the size of its array.
--
-- Network: network-module, requests over the network for a device on a serial port. `Network.Uart` has
--   the functions of network-module/uart.c, of which uart/uart.c is a copy; the port is a parameter
--   (what open, tcgetattr and the calls of read give), and the static buffer of uartCommand is part of
--   the state. malloc is taken to give memory. `Network.Request` has what processUDPRequest does from
--   the received text on: words by `Tokens`, strArgv as offsets, the exchange with the device, the
--   reply. `Network.Connection` has the loop of processTCPRequest, with strArgv kept over the turns,
--   `Network.Sockets` the functions that open and close sockets, `Network.Client` network-module/udpcli.c. `Behaviour` and `Handled` have a case
--   for an access that C leaves undefined. printf's messages are left out.
--
-- Signals: signalalarm. `Signals.Alarm` has alarmmain.c's handler and the three steps of its loop;
--   seconds that pass and the alarm's signal are steps between them. `Signals.Timers` has SetTimer and
--   the handler of the same file, and signal.c with its loop over the signals that sigwait gives.
--
-- Channels: dhcf/dh1cf.c, the channel of a radio schedule from a hash of three words. hashword of
--   dhcf/lookup3.c is a parameter. A byte that is shifted by 24 has the value that its bits give.
--
-- Lollipop: lollipop/lollipop.c, the order of 16-bit numbers that run in a circle.
--
-- Datagrams: udp, a server that acknowledges datagrams by number and a client that sends five.
--   `Datagrams.Exchange` joins them over datagrams that arrive in order. Echo: tcp, a server that sends
--   one message back, and its client; recv gives a first part of what was sent, or waits. What sockets
--   give is a parameter in both; addresses are left out.
--
-- Not modelled: dhcf/lookup3.c, a copy of another library; network-module/udpser.c, an endless loop of
--   select; ftdi-eeprom/main.c and usb, which print what calls give;
--   linklist/listhead.c, which has no logic of its own; the language samples and the build skeletons.
pub mod Base
pub mod Eeprom
pub mod Mbr
pub mod Gpio
pub mod LinkList
pub mod Connections
pub mod Hello
pub mod DriverTest
pub mod Tokens
pub mod Network
pub mod Signals
pub mod Channels
pub mod Lollipop
pub mod Datagrams
pub mod Echo
