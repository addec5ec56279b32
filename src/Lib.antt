-- ===== src/Lib.antt =====
-- Verification library of the operating systems course programs: one C program per lab, each with
-- its own threads or processes. The larger ones are modelled here.
--
-- The TCP chat (Lab 11/server.c, Lab 11/client.c) is ChatTcp. The server keeps a table of ten slots;
-- one thread per connection registers a client and serves its commands, `alive_checker` pings the
-- clients and drops silent ones, and the main thread accepts connections. ChatTcp.Registry has the
-- globals as the record `Server` and one function per critical section; ChatTcp.Messages the texts
-- that are sent, ChatTcp.Session one call of `handle_client`, ChatTcp.System the threads, which
-- interleave at the points where `clients_mutex` is free; ChatTcp.Client the
-- client's parsing and ChatTcp.Threads its two threads and its handler of SIGINT.
-- A `send` that the code looks at takes its result from the model's inputs, as do the time and the
-- formatted time. The table after `memset` is ten blank slots, and descriptors are numbers.
--
-- The UDP chat server (Lab 12/server.c) is ChatUdp: ChatUdp.Registry the table, the searches and
-- `ping_thread`, ChatUdp.Messages `handle_client_message`, cut at its critical sections, since the
-- index that it finds in the first is used in the later ones while `ping_thread` may run between.
-- The client (Lab 12/client.c) is ChatUdp.Client: `main`, `receiver` and the handler of SIGINT as
-- steps between rounds of their loops, the first test of `receiver` included; a SIGINT does not end
-- the `fgets` that it interrupts. The parsing is that of the TCP client, whose code it repeats.
--
-- The chat over message queues (Lab 7/server.c, Lab 7/client.c) is ChatMq: ChatMq.Defs one turn of
-- the main loop of the server on what `mq_receive` gives, with `mq_open` as an argument, and the
-- texts that the client sends, ChatMq.Client the client's `main` on its input and its child
-- process. The loop of `main` has a round of fuel for each byte of the input, and each `fgets`
-- takes at least one. "%d" of a number runs on fuel, one round for each unit of the number and one
-- more, while each round divides by ten; it is used for ids, which are below ten.
--
-- The file reverser (Lab 3/flipper.c) is Flipper.Defs: the file system is a function from paths to
-- bytes, where two spellings of a path are two files, `fopen` with "w" empties the file, and the
-- loop over the chunks runs on fuel. The fuel is the size of the file, and each round takes at
-- least one byte, so that it is always enough: the theorems give a result, `some`, for every file.
--
-- The hospital (Lab 10/zad1.c) is Hospital.Defs: a record for the globals under `hospital_mutex`, a
-- program counter with its locals for each doctor, patient and pharmacist, and one function per
-- stretch between two points where the mutex is free. `pthread_cond_wait` may return at any time,
-- so that the theorems hold for every order of wakings, spurious ones included.
--
-- The producer and the consumer (Test 2/main.c, Test 2/checks.h) are Exchange.Defs: both threads with
-- their conditions, where a wait ends by a signal, or, in the runs of arbitrary turns, at any time.
-- `schedule` runs them for a number of turns under any scheduler; 166 bounds the work of both, four
-- turns for each of the twenty rounds and the first checks, so that 167 turns are enough.
--
-- The print spooler (Lab 8/zad1.c) is Spooler.Defs: the queue, the three semaphores, and lists of
-- users and printers of any length, which interleave between any two accesses to what they share.
-- Spooler.Slots has the abstract queue that the ring refines.
--
-- The Collatz library (Lab 2/collatz.c) is Collatz.Defs, on 32-bit int, where an overflow or a write
-- out of bounds is an undefined result. The loop has `max_iter` rounds of fuel, and stops in the last
-- of them, since it goes on only while its index is below `max_iter` - 1.
-- Collatz.Client is what Lab 2/client.c prints of the steps.
--
-- The integral of 4 / (x * x + 1) by rectangles is Integral: Integral.Riemann the integral itself,
-- Integral.Threads the threads of Lab 9/zad1.c with the polling main thread, Integral.Processes one
-- round of Lab 6/zad1.c with its children and pipes, Integral.Fifos the two programs of Lab
-- 6/zad2_1.c and Lab 6/zad2_2.c over FIFOs. The doubles are an interface with five operations, of
-- which nothing is assumed, but in Integral.Agreement what a product with 1 / 2 ^ k is. A turn of a
-- thread or process in its loop has fuel, and the turn is tried again when the fuel is not enough,
-- so that runs cover every length of the loop.
--
-- The transfer of a file through a pipe (Test 1/zad3.c, Test 1/zad3.h) is Transfer.Defs: the writing
-- parent and the reading child as steps between system calls, on a pipe that holds a given number of
-- bytes. A block is at most 127 bytes, so that its `write` is not split.
--
-- The catcher of signals (Lab 5/catcher.c) is Signals.Catcher: `main` as steps between its accesses
-- to the globals, and the handlers as steps of their own; a handler that runs while another does is
-- taken to run before or after it, and one for SIGINT is installed for one delivery. Signals.Sender
-- is the wait of Lab 5/sender.c, in which the handler may run between any two steps, and
-- Signals.Reactions the program Lab 5/zad1.c.
--
-- The exercise on signals and processes (Test 1/zad2.c, zad2.h and check_fork.c) is ForkTest: the
-- process that masks SIGUSR2, and the one that it starts, take turns in any order, and `sleep` is one
-- step of that order. ForkTest.Moments lists the states before the signal is sent.
--
-- Common has what these share: Boolean tests, lists under native indices, C strings as lists of
-- codes with `strtok` and `snprintf`, and C integers that may be negative.
--
-- In each tree Examples has concrete runs. Integers that only count slots, threads or seconds are
-- not bounded to their machine width; ids, buffers and paths keep their bounds.
--
-- Not modelled: socket set-up, the text that is printed, sleeping times, and the operating system's
-- side of process creation, which are pure I/O; Labs 1 and 4 and Test 1/zad1.c, which are straight
-- lines of such calls.
pub mod Common
pub mod ChatMq
pub mod ChatTcp
pub mod ChatUdp
pub mod Collatz
pub mod Exchange
pub mod Flipper
pub mod ForkTest
pub mod Hospital
pub mod Integral
pub mod Signals
pub mod Spooler
pub mod Transfer
