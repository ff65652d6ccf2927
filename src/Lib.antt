-- ===== src/Lib.antt =====
-- A model of the core of the robot's communication stack, with the theorems that make it correct.
--
-- The program. The parts of a robot (a kernel that drives it, localizers, a controller) are nodes
-- that exchange messages over ZMQ sockets. A message is a byte array that the message library
-- fills: a data message is a header and a sequence of elements, a ping a header and three values. A
-- node is an RMTControlClient, which answers pings with the handler for their type, on top of a
-- ZMQControlClient, which runs one thread for each publisher, subscriber, requester and server,
-- with the loops of NetworkPatterns. The kernel is a node that takes velocities from drive
-- messages, but only while its state allows, which pings change; a thread of its interface sends
-- them to the robot's microcontroller, a teensy, over a serial port, and reads what it measured,
-- which the kernel sends. The localizer is the filter of a proxy between the kernel, the camera and
-- the listeners of the position. The camera's node looks for tags in its pictures and publishes the
-- pose they give. Two programs put these together, one runs the kernel, the other the proxies; each
-- reads its command line, and both take the addresses from the same constants.
--
-- Which file models what:
--   Messages/Data      src/messages/data_messages.c: data_buffer, serialize_data, get_data, to_wire,
--                      the getters of the header. Data/Items holds the abstract view, a message as a
--                      list of items, which Append, Retrieve and Header relate to the code.
--   Messages/Ping      src/messages/ping_message.c
--   Messages/Rmt       src/messages/rmt_messages.c: cmd_vel, teensy_msg, path_state, sensor_msg,
--                      teensy_sensor_array and camera_msg, each with create_, _to_wire, _from_wire
--   Messages/Memory    src/messages/data.c: reverse_bytes and the four bit swaps
--   Messages/Sizes     src/messages/data.c: the smallest sizes, optimize_int, memcpy_rmt; Messages/Masks
--                      holds what their masks keep
--   Messages/Checksum  src/messages/checksum.c
--   Control/RmtClient  src/control/RMTControlClient.cpp: register_ping_func, ping_endpoint and the
--                      callback of the ping server
--   Control/ZmqClient  src/control/ZMQControlClient.cpp: the four maps of threads; Threads and Calls
--                      hold the invariant, Lifecycle and Quitting what becomes of an entry
--   Control/ZmqSockets src/control/ZMQControlClient.cpp: publish and request on the own thread
--   Control/Client     include/scpp/core/control/ControlClientInterface.hpp: the interface of a control client as
--                      a record of operations, with the functions that it adds; Client/Zmq fills it
--                      with Control/ZmqClient and Control/ZmqSockets
--   Control/NetworkPatterns  src/control/NetworkPatterns.cpp: the loops of the threads
--   Kernel             src/kernel/KermitKernel.cpp
--   Serial             src/kernel/serial.c: Reading and Until the reads, Frames the frames, Ranges what
--                      the reads leave in the buffer, Opening the opening and closing of the port
--   Interface          src/kernel/KermitNetworkInterface.cpp, with start and the settings of KermitKernel.cpp;
--                      Alive and Start are about its loop, Frames about what it writes, Sensed about
--                      what it reads, Ending about its destruction. Reaching has the states that the
--                      robot reaches by any interleaving of its threads, and Keeping what each of
--                      their steps keeps; Commanded reads off a history what the robot
--                      was last told
--   Position           src/localizer/PosLocalizer.cpp; Position/AprilTags, Families, Lifetime and
--                      Looking src/localizer/AprilDetector.cpp
--   Localizer          src/messages/pipe/Simple_Localizer.cpp
--   Pipe               src/messages/pipe/PipeInterface.cpp and the filters of ProxyInterface.cpp;
--                      Turns holds the loop of start with the turns of ZMQPubSubProxy.cpp, Localizing
--                      a proxy with the localizer, Server the turns of ZMQServerProxy.cpp, Signals
--                      the table of signals
--   Wiimote            src/controllers/wiimote.cpp: control, with its helpers; Wiimote/Connecting the
--                      connection of a remote and the turns of the loop
--   Logging            include/scpp/common.h: what log_log makes of the path of a source file
--   Programs           Programs/Addresses: src/common.cpp and the constants of include/scpp/common.h;
--                      KernelMain and KernelOptions: src/impl/kermit_kernel.cpp; ProxyMain, ProxyTurns
--                      and ProxyOptions: src/impl/kermit_proxy.cpp; Options is what the two loops over
--                      the arguments share. Endpoints, Commanding and Reporting put the two programs
--                      together, Running the command line of the kernel and the end of its threads
--   Sensing            from the kernel's measurements to what the localizer puts out
--   Common             Boolean tests, lists, byte memories, bits and maps
--   Examples           tests, and the theorems listed below at concrete inputs
--
-- How the code is modelled. A pointer to bytes is a function from offsets to numbers (Memory); a
-- store writes the low bytes of its value, a load reads them back, least significant byte first, as
-- on the machines that the program is built for, where a char is signed. NO_NET_BYTE is defined,
-- and with the byte order that data.h sets host16 and host32 are the identity. Unsigned integers are natural numbers with
-- their wrap-around written out (u8, u16, u32). A float is its 32-bit pattern: the program only
-- copies the floats modelled here, but for the Wiimote, whose floats are an interface of
-- operations. A struct that a function changes through a pointer is passed in and returned. A C++
-- map is an association list, a string a list of its characters, an exception a value of the
-- result. The state that a callback works on is a parameter, and so is the network: what a peer
-- answers, what a filter does, what a poll finds and what lies in memory behind a string are
-- arguments.
--
-- Fuel. copy_longs is given the number of bytes to copy, of which each turn takes four;
-- reverse_loop the length, since each turn narrows the range by two; bitswap_loop as many turns as
-- its number has bits. await_reply descends on the retries that the code counts itself. bits_loop
-- is given eight turns. read_loop is given the bytes wanted, of which each turn takes one;
-- until_loop descends on the room in the buffer and on the timeout. alive_loop runs until its
-- process is told to end, so its fuel is a parameter: the theorems say for which fuel it ends.
-- kernel_main is given the turns to look at, and gives no end where none comes in them.
-- digits is given ten turns, as a number of 32 bits has ten digits. All other loops are structural.
--
-- What is taken for granted. The source of a serialize_data call does not overlap the message. A
-- thread whose exit signal is set comes to its end, so that join returns. Calls on one node come
-- from one thread; a callback is atomic, as the lock of NetworkPatterns makes it. The thread of the
-- port takes no lock: the two halves of its turn are two steps, between which other threads may
-- act, but the two velocities that it sends are read in one. What a port gives to read is a list of
-- the results of read, and what a clock shows in a turn is a function. A signal comes
-- while the program of the kernel is in its loop. A float is not NaN where floats are ordered, and
-- an increment of a velocity is not negligible beside it.
--
-- What is not modelled: of the log, what is a copy of log.c; of the programs, the text of their
-- help and the signal handler of the proxies; of the detector, the settings, and what OpenCV and the
-- apriltag library make of a picture, which are parameters. The older detector of src/apriltag is in
-- no build. SCPPSession and the installable proxy do not compile. zhelpers.hpp, which is of the
-- guide to ZMQ, and the calibration sample of OpenCV are copies of other projects' code. host64 is
-- not called.
mod Common
pub mod Messages
pub mod Control
pub mod Kernel
pub mod Position
pub mod Wiimote
pub mod Programs
pub mod Logging
pub mod Serial
pub mod Interface
pub mod Pipe
pub mod Localizer
pub mod Sensing
mod Examples
