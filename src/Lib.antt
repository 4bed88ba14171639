-- ===== src/Lib.antt =====
-- Yinyang OS: the core of a small message-passing kernel.
--
-- The kernel is a set of processes, some of them drivers and servers, that exchange messages.
-- `send` and `receive` (kernel/message.c) work on a pool of message slots in the process table
-- (kernel/process/util.c), wait on a semaphore (kernel/semaphore.c), which marks processes asleep
-- or waiting for the scheduler (kernel/process/schedule.c); all of them run in critical sections
-- (kernel/lock.c). The process manager (kernel/pm.c) adds and removes processes, and the IDE driver
-- (kernel/drivers/ide.c) serves the bytes of the disk through a cache of sectors, for the file
-- manager (kernel/fm.c). The timer driver (kernel/drivers/timer.c) keeps a queue of alarms, and
-- drivers register their handlers in kernel/irq/irq_handle.c. The memory manager (kernel/mm.c) owns
-- the physical pages and the page tables of the processes. A system call of a program (lib/oslib.c)
-- becomes a message to one of these servers.
--
-- Which file models what:
--   Base, Split        lists, tests on numbers, 32-bit words; the first hit of a search in a list
--   Ring               the circular lists of `prev` and `next` fields that several parts use:
--                      `link_before` and `unlink` are the source's groups of assignments
--   Kernel             the shared state: `System` has the process table `Proc` (a `Pcb` per index,
--                      a pointer to a PCB is its index), `current_pcb`, `need_sched` and the `Cpu`
--   Kernel/Lock        lock, unlock; `Calls` is a piece of code as its nested sections
--   Kernel/Semaphore   Sem_init, Sem_P, Sem_V
--   Kernel/Schedule    schedule and find_next_live_process; Yield and RoundRobin its theorems
--   Message            Find_Empty_Message, send, receive; Message/Inbox is the specification (two
--                      lists of messages), Slots the invariant of the pool, Deposit, Search, Near,
--                      Rounds, Loop and Receive the refinement
--   Process            Find_Empty_PCB, init_message_pool, Create_kthread, init_proc, and the parts of
--                      Fork_uthread, Create_uthread and Exit_uthread that change the table; Table is
--                      the invariant, Moves and Entries its preservation
--   Ide                the cache and the transfers of the IDE driver; View is what a client sees,
--                      Bytes, Transfer and Flush the theorems
--   Timer              the alarm queue of kernel/drivers/timer.c; Alarms relates the pool to the ticks that
--                      are left for each alarm, Insert to Arm are about `new_alarm`, Tick and Expire
--                      about `timer_intr`, Start about `init_alarm`
--   Exec               the arguments of a program: `execv` of lib/oslib.c, and lines 94 to 114 of
--                      `Exec_uthread`; Bytes is the packed form, Pack and Parse the two sides
--   Irq                add_irq_handle and irq_handle of kernel/irq/irq_handle.c; Handlers has the
--                      theorems
--   Print              kernel/vfprintf.c; Digits is about the form of a numeral, Numerals has the theorems
--                      on %d and %x, Format a lemma on the control string
--   Waiters            Sleep and Wake_Up of kernel/pm.c, with their theorems in Wake
--   Files              the requests of kernel/fm.c and the image of tools/makefs.c; Image has the theorem
--   Paging             the page walk of `V_to_P` in kernel/pm.c, copy_from_kernel and copy_to_kernel of
--                      kernel/process/util.c, over memory by the byte; Words and Walk are about the
--                      walk, Copy and Back about the two copies
--   Memory             kernel/mm.c and kernel/memory/util.c: the page flags, page tables and
--                      allocate_page; Space has the operations on address spaces. Words, Frames and
--                      Allocate are about what a step changes, Copy and its modules about copy_page,
--                      Ends about loops. Identity is init_page of kernel/memory/kvm.c
--   Calls              int_handle of kernel/irq/irq_handle.c, and the calls of lib/oslib.c and
--                      lib/syscall.S; a `Talk` is the messages that code exchanges, with the changes that it
--                      makes to the shared state between them. Serving has the
--                      loops of the servers, Waits a call from the library to a server and back,
--                      Reach the calls that panic, Library the buffer of `printf`
--   Terminal           the keys and the line editor of kernel/drivers/tty.c; Shift and Edit are about the
--                      line, Key, Moves and Getch about a key. Readers has the requests to read and
--                      write and the loop of the thread, Writes is about a writer, Lines about the
--                      pool, and Delivery has the theorem on a reader
--   Console            kernel/console.c; Loops is about the rows, Paper and Print about the screen as a
--                      window on a roll of paper
--   Tests              the theorems at concrete states
--
-- Words of 32 bits are numbers below 2^32 and wrap around where the source's do. A blocking call is
-- cut where the process gives up the processor: `receive` returns `asleep`, and the process goes on
-- with `resume`, lines 119 and after, when it is scheduled again. A panic is a result of its own.
--
-- Loops without a bound in the source run on fuel. `receive_loop` has 130 rounds: every round takes
-- one of at most 128 arrived messages. `search_from` has 128, the size of the pool. `schedule`
-- takes its number of rounds as an argument, since it need not end. The loops of the timer have 32
-- and 33: there are 32 alarms. The one of `Exec_uthread` has 151 rounds, for a buffer of 150 bytes,
-- and the one of `irq_handle` 33, for a pool of 32 handlers. `wake_up` has a round more than there
-- are waiters, and `canonic_mode_write` one more than there are characters. A copy to or from a
-- process has a round more than there are bytes, and
-- `allocate_page` and `free_page` one more than there are pages: every round handles at least one.
--
-- The disk is a parameter (`Drive`): a sector that is written is read back, and the drive is ready
-- between commands. Physical memory is a function from addresses to bytes, and the memory manager
-- runs where an address below 128 MB is the physical one. Not modelled: assembly other than the
-- system calls, ports other than the registers of a disk address, segments, and the loader.
pub mod Base
pub mod Split
pub mod Ring
pub mod Kernel
pub mod Message
pub mod Process
pub mod Ide
pub mod Timer
pub mod Exec
pub mod Irq
pub mod Print
pub mod Waiters
pub mod Files
pub mod Paging
pub mod Memory
pub mod Calls
pub mod Terminal
pub mod Console
pub mod Tests
