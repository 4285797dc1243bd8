-- ===== src/Lib.antt =====
-- Verification library of LinuxSystemprogramming-VEDA: a collection of C programs on Linux system
-- programming, of which the larger ones are modelled here.
--
-- The shells. `lab/` is a shell with pipelines, redirections, && and background commands: main.c
-- reads lines, parsing.c cuts them into an argument array, isbuiltin.c runs built-in commands, and
-- isexecutable.c finds the operators of the array, starts processes and connects them.
-- child_handler.c reaps children at SIGCHLD. `lab2/` is a smaller shell with one pipe or one output
-- redirection for each line.
--   Common        lists with native indices, Boolean tests, C strings, strtok
--   Posix         the system calls: the kernel is a record of functions that give each reply from
--                 the trace of all calls so far; Posix/Count counts opened and closed descriptors
--   Lab/Parsing   lab/parsing.c: command_parse, command_freelist
--   Lab/Builtin   lab/isbuiltin.c: bt_array, check_builtin and the three functions of its table
--   Lab/OpType    lab/isexecutable.c: get_op_type; Lab/Cells its arrays of strings
--   Lab/Execute   lab/isexecutable.c: execute
--   Lab/Chain     lab/isexecutable.c: is_executable, one function for each case of its switch; the
--                 local variables are the record Chain, and a `goto` is a constructor of Flow
--                 Lab/Chain/Rounds, Total, Owing, Balance what follows
--   Lab/ChildHandler, Lab/Main   lab/child_handler.c and lab/main.c
--   Lab2/Parsing, Lab2/Plan, Lab2/Execute, Lab2/Builtin, Lab2/Main   lab2/parsing.c, lab2/is_executable.c
--                 (in two parts), lab2/minishell.c and lab2/main.c, with Lab2/Main/Loop; Lab2/ChildHandler lab2/child_handler.c
-- A `char **` is the list of its cells from the pointer on, and NULL is `none`. A read out of bounds
-- or through NULL ends a run with `none`; pwd reads so if getcwd fails on an array without a NUL, and
-- Posix.HoldsText is a kernel under which it does not. Writing NULL over an operator is an update of the list.
--
-- The message server. `ch09/msg_server.c` receives datagrams on two sockets and puts them into a
-- ring of 100 entries, from which a collector thread writes a log.
--   MsgServer/Queue    the ring, enqueue, and the critical section of msg_collect
--   MsgServer/Server   receive_from and the threads, as a sequence of critical sections
--   MsgServer/Refine   the ring as a bounded list of messages
--
-- The handshake. `ch07/exercise-3.c` and `ch07/exercise-4.c` pass twenty texts through shared memory
-- under two semaphores.
--   Semaphore/Sender, Semaphore/Receiver   one step of each program; `none` is a blocked semop
--   Semaphore/SetUp      the set-up and the ends, with their error exits
--   Semaphore/System     both programs under any schedule
--   Semaphore/Phases     the phases that they go through; Semaphore/Handshake what follows
--
-- The dialogue. `ch07/exercise-1.c` and `ch07/exercise-2.c` talk in turns over two message queues.
--   Dialogue/System      one step of each program, the queues, and any schedule;
--                 Dialogue/SetUp, Dialogue/Lossless
--   Dialogue/OneWay      `ch07/ex05-1.c` types lines into one queue, `ch07/ex05-2.c` shows them;
--                 Dialogue/OneWay/Letters, Delivery, Ending
--
-- The LED menu. `raspi/main.c` reads a menu and words, and starts threads for them.
--   Raspi/Menu           the loops of main on the words that stdin yields; Raspi/Session
--   Raspi/Threads        led_thread and cds_thread, and `raspi/led.c`
--
-- The LED server. `ch09/webLED/webserver.c` answers one request for each connection; thread.c loads a
-- library and calls into it; led.c is that library.
--   WebLed/Led, WebLed/Thread    led.c and thread.c
--   WebLed/Strip, WebLed/Connection, WebLed/Response   webserver.c: the leading slash, the request
--                 and the answers
--
-- The query server. `ch09/chattingProgram/rpi6.c` switches a LED by the query string of a request.
--   Rpi6/Query           the loop over key=value pairs; Rpi6/Connection the request and its answer
--
-- The file server. `ch09/chattingProgram/webserver.c` is an earlier form of the LED server, without
-- the LED: PlainWeb/Connection.
--
-- The chats. `ch09/chattingProgram/TCPChattingServer.c` and `TCPChattingClient.c` talk over one
-- connection by select, `ex04.c` and `ex03.c` of the same directory by poll.
--   Chat/Loop            the loop `chatting`, which the four programs share up to their texts
--   Chat/Pair            two of them, with the bytes on their way; Chat/Lossless, Chat/Ending
--
-- The main functions around sockets. The kernel is a record of functions, as for the shells.
--   Net/Calls            the calls, and a run that returns, exits or is still in a loop
--   Net/Chat             main of the four chats; Net/Early the earlier ex01.c and ex02.c, whole
--   Net/Hello            `ch09/tcpProgramming` and `ch09/ex03.c`
--   Net/Datagram         `ch09/udpProgramming` and `ch09/msg_client.c`
--   Net/Web              main of the two web servers and the server thread of rpi6.c
--   Net/Servers          main of ch09/msg_server.c and the set-up of the two epoll servers
--   Net/Rules, Net/Closing, Net/Mains   what follows
--
-- The epoll servers of ch09/chattingProgram.
--   Epoll/Echo           ex06.c; Epoll/Echo/ReadLoop, Epoll/Echo/Balance what follows
--   Epoll/Broadcast      ex05.c
--
-- The counting threads. In `ch08/ex05.c` and `ch08/exercise.c` threads count up under a mutex.
--   Mutex/System         one move for each statement that touches shared state, as a relation, and the
--                 states that are reached; Mutex/Invariant, Mutex/Exact, Mutex/Ending what follows;
--                 Mutex/Main the two main functions, Mutex/Runs threads one after the other
--
-- The shared text. `ch07/posix_shm.c` writes lines to a shared memory and prints it.
--   PosixShm/Program     its set-up and commands; PosixShm/Refine the memory as one text
--
-- The daemon and the file programs. `ch09/chattingProgram/daemon.c`: Daemon/Start on a table of
-- descriptors, Daemon/Streams what follows. `ch03/ex04.c` copies a file, `ch03/execercise.c` prints
-- one: Files/Copy and Files/Print.
--
-- The terminal. `ch04/ex02.c` reads a text without an echo: Terminal/Masking. The key loop of
-- `ch09/chattingProgram/rpi6.c` asks for keys without waiting: Terminal/Keys.
--
-- The signals. The handlers of `ch06-2/exercise.c` count: Signals/Counting, with any order of sending
-- and delivery. Signals/Blocking has four programs that block signals, Signals/Blocking/Arrivals what
-- ends them. Signals/Groups is ch06-2/ex01.c, in which a signal goes to a process group:
-- Signals/Groups/Isolation.
--
-- The children. `ch05/ex04.c` asks for its children without waiting, `ch06/exercise.c` collects them in
-- a SIGCHLD handler, with any order of the children's ends.
--   Children             the running and the ended children, and waitpid with WNOHANG
--   Children/Polling     ch05/ex04.c; Children/Polling/Reports
--   Children/Waiting     ch05/ex02.c, ex03.c, ex05.c and ex06.c, in which a parent waits for one child
--   Children/Reaping     ch06/exercise.c; Children/Reaping/Zombies, Children/Reaping/Collecting
--
-- One-way streams. `ch07/ex04-1.c` types lines into a named pipe, `ch07/ex04-2.c` shows them;
-- `ch07/ex02.c` and `ch07/ex03.c` read from a pipe what a child writes.
--   Streams/Fifo         both programs under any schedule; Streams/Fifo/Lossless, Streams/Fifo/Ending,
--                 Streams/Fifo/Endless
--   Streams/FromChild    on a table of descriptors; Streams/FromChild/Shows
--
-- Threads of ch08. `ch08/ex09.c` has two threads that handle a signal each, `ch08/ex08.c` a thread that
-- is cancelled.
--   Threads/Routing      ch08/ex09.c: statements, arriving signals and deliveries in any order;
--                 Threads/Routing/Safety
--   Threads/Cleanup      ch08/ex08.c, with the memory of the thread
--
-- Bounds and fuel. MAXLINE is 255, so that a line has up to 254 bytes; a line has at most half as many
-- words as bytes, plus one, and each word is forked at most once, so that the 1024 cells of `pids`
-- are enough. The loop of is_executable moves on by one cell in each round and gets the length of the
-- array as fuel. command_parse gets the length of the line, since each token takes a byte.
-- query_loop gets the length of the query. send_file gets one round more than the file has bytes.
-- strip_loop counts up to BUFSIZ as the code does. The server loops of Net run for a number of rounds,
-- since they do not end by themselves, and the chats and Epoll on a list of answers.
-- The ring has 100 entries and its indices wrap at 100.
--
-- Not modelled: socket options, SIGPIPE, signal dispositions but for those of
-- Signals, Threads and Lab2/Main/Loop, terminal output beyond the calls,
-- memory exhaustion (the programs do not test malloc), and what the executed programs do. The
-- children of lab are known by their argv. Interference with waitpid by the SIGCHLD handler is left
-- to the kernel, whose waitpid may fail at any time. The remaining exercises of the chapters are
-- not modelled.
pub mod Common
pub mod Posix
pub mod Lab
pub mod MsgServer
pub mod WebLed
pub mod Semaphore
pub mod Lab2
pub mod Dialogue
pub mod Raspi
pub mod Rpi6
pub mod PlainWeb
pub mod Chat
pub mod Epoll
pub mod Mutex
pub mod Net
pub mod PosixShm
pub mod Daemon
pub mod Files
pub mod Terminal
pub mod Signals
pub mod Children
pub mod Streams
pub mod Threads
