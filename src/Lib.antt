-- ===== src/Lib.antt =====
-- Models and proofs for the system programs of this repository: small C programs on files, threads,
-- pipes, signals, message queues, semaphores and shared memory. Each program is a main function that calls
-- the kernel and libc; programs that run together share a kernel object.
--
-- Base: numbers, lists and tests that the modules share.
-- Sys: programs as trees of calls. A program's `run` against a kernel, any function from the position
--   and the call to a reply, gives the calls made and the exit status. A discipline (`Rules`) is a
--   ledger that calls update and the calls that a ledger allows. `Obeys` says that every call of a run
--   is allowed, and `Fair` that the replies are those which the documentation of the calls lets
--   happen.
-- Shm: Course_MohanM/12_Semaphore/12_2_Unnamed_Semaphores/12_2_2_Inter_Processes_with_Shared_Memory
--   (`shm_writer`, `shm_reader`) and Course_MohanM/13_Shared_Memory (`plain_writer`, `plain_reader`,
--   `cleaner`), each the main function of its file. Shm.Handshake puts writer and reader side by side.
-- NamedSem: Course_MohanM/12_Semaphore/12_1_Named_Semaphore (`process_1`, `process_2`, `process_3`), and
--   the three side by side in NamedSem.Together.
-- Files: Course_MohanM/2_File_Operations. Files itself and Files.Log hold the helpers `log_error`
--   and `close_file_safer`, which each file repeats; Files.Read is 2_2, Files.Write is 2_3,
--   Files.Replace is 2_5, Files.Open is 2_1, Files.Dup is 2_6_Dup and Files.Dup2 is 2_6_Dup2, on
--   the ledger of Files.Descriptors; Files.Returns is about 2_1 and 2_6_Dup, Files.Faults about 2_5.
-- ReadyQueue: Course_MohanM/10_Threads/10_9. ReadyQueue itself and ReadyQueue.Fifo are about the queue,
--   ReadyQueue.Threads about `main` and the three threads around it: `sync_step` and `data_step` are
--   the steps of `main`, `thread_step` those of `thread_handler`.
-- OpenFile: programs on one open file, with its content and offset (OpenFile.Description).
--   OpenFile.Seek is Course_MohanM/2_File_Operations/2_4_Lseek, call by call; OpenFile.Inherit is
--   Course_MohanM/7_Process_Monitor/7_9, whose parent (`main`, `parent`) and child (`child`) share the
--   offset; OpenFile.Inherit.Together puts their calls side by side.
-- Monitor: Course_MohanM/7_Process_Monitor/7_2 (`multiple_processes`), 7_3 and 7_4 (`specific_children`)
--   and 7_5 (`wnohang_example`), each one tree for the parent and its children: `fork` gives 0 to a child.
-- Image: `rgb2gray_u8` of RPi3B_Projects/Image_Processing/Morphological_Operations/Boundary_Extraction.
-- Memory: Course_MohanM/5_Memory_Allocation/5_3, call by call, on the block of Memory.Block.
-- Pipe: Course_MohanM/11_IPC/11_1_PIPE_Basics and 11_2_PIPE_with_Parent_and_Child; Pipe.Sigpipe is
--   11_3, parent (`setup_step`, `parent_step`) and child (`child_step`) as step functions.
-- Mq: Course_MohanM/11_IPC/11_6_POSIX_Message_Queue_Basics (`sender`, `receiver`).
-- Fifo: Course_MohanM/11_IPC/11_4_FIFO_Basics (`writer`, `reader`), and the frames between them:
--   a length in four bytes, little-endian, then the line and its terminator. Fifo.Shown, Fifo.Fill
--   and Fifo.Delivery are about the reader, Fifo.Framing, Fifo.Payload and Fifo.Sending about the
--   writer. The two read loops of the reader are one function, `fill`, with a flag for what they do
--   differently.
-- TwoWay: Course_MohanM/10_Threads/10_3, both threads as step functions on the shared globals, with
--   every interleaving and spurious wakeup.
-- OneWay: Course_MohanM/10_Threads/10_2, `main` waiting for one thread; Timed: 10_6, a thread that waits for a
--   mutex with `pthread_mutex_timedlock`. Both as step functions like TwoWay.
-- PollFifo: Course_MohanM/11_IPC/11_5_FIFO_Real_Life_Example_with_poll_and_O_NONBLOCK (`poll_writer`,
--   `poll_reader`), on the calls and frames of Fifo. PollFifo.Shown, PollFifo.Fill, PollFifo.Turn and
--   PollFifo.Delivery are about the reader, PollFifo.Hangup about its end, PollFifo.Payload and
--   PollFifo.Sending about the writer.
-- Dynamic: Course_MohanM/10_Threads/10_7 and 10_8, whose threads share a heap object that one of them
--   destroys; a parameter, `cleaner`, tells the two programs apart.
-- Cancel: Course_MohanM/10_Threads/10_5, a counting thread that `main` cancels.
-- Counter: Course_MohanM/12_Semaphore/12_2_Unnamed_Semaphores/12_2_1_Inter_Threads, three threads that
--   a semaphore and a mutex keep apart.
-- Signals: Course_MohanM/9_Signals. Signals.Printer is `printer`, which each program repeats,
--   Signals.Catch is 9_1, Signals.Timer is 9_2, Signals.Endings is about both, and Signals.Handshake is 9_3: the parent
--   (`parent_step`) and the program that its child runs (`child_step`), with the pending and the
--   blocked signals of both in the state.
--
-- The kernel and libc are not modelled: what they answer is a parameter, `strerror` and the number
-- formats of `snprintf` too. Output by printf that a property does not need is left out, and so are
-- getpid and pthread_self. Loops that end only on a reply take fuel: the number of bytes, lines,
-- messages or interruptions still to come bounds the rounds, and the results name the fuel that is
-- enough. Sizes are natural numbers; where a counter of the source is narrower, a comment says why it
-- does not wrap. Undefined behaviour is a result of its own (`out_of_bounds`). Signal handlers only
-- set a flag, which outside Signals is read as a reply. In the programs with threads a failing pthread call ends the
-- process and is no step, but where a model says otherwise. The programs of Course_MohanM without a
-- module above, which mostly print, are not modelled.
pub mod Base
pub mod Sys
pub mod Shm
pub mod NamedSem
pub mod Files
pub mod ReadyQueue
pub mod Pipe
pub mod PollFifo
pub mod Mq
pub mod Fifo
pub mod Counter
pub mod Dynamic
pub mod Cancel
pub mod TwoWay
pub mod Signals
pub mod OpenFile
pub mod Monitor
pub mod Image
pub mod OneWay
pub mod Timed
pub mod Memory
