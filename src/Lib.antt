-- ===== src/Lib.antt =====
-- The nucleus of a small operating system for the uARM emulator: processes, threads and messages,
-- a round-robin scheduler, the exception handlers, and the system service interface (SSI), a thread
-- that the others ask for services by messages.
--
-- The parts and where they are modelled, with paths from the root of the repository:
--
--   Base       shared names: tests on numbers, finite sequences of addresses, a memory as a function
--              of addresses, the bits of a number.
--   Bitmap     src/bitmap.h.
--   Listx      src/listx.h. `Links` is the memory of the `next` and `prev` fields, and an operation
--              is a function from links to links. Listx/Chain and Listx/Ring relate a circular list to the sequence
--              of its entries; Listx/Queues does it for all the lists of a memory at once (`Linked`);
--              Listx/Moves treats an entry that goes from one list to another.
--   Mikabooq   src/mikabooq.c, src/mikabooq.h and src/const.h. `Mem` has a function of the
--              descriptor's address for each field. A descriptor takes 16 units of memory and each
--              list field has its own offset, so that `container_of` is a subtraction and an address
--              tells which field of which descriptor it is. Proc, Thread and Msgq hold the operations
--              under their C names, and below them the invariants `Procs`, `Threads` and `Msgs`;
--              Mikabooq/Valid joins the three with the scheduling queues, Mikabooq/Sched is about
--              those. Msgq/Mailbox is the abstract view of a message queue, a list of senders and
--              payloads.
--   Boot       the first calls of `main` in src/init.c, the `LIST_HEAD` definitions, and the
--              descriptor that `ssi_thread_init` of src/SSI/ssi.c fills.
--   Start      `main` and the other functions of src/init.c, `load_readyq` of src/scheduler.c, and the
--              thread of the tests that it loads. Boot is the part of it that is about the tables.
--   Kernel     the state outside the tables. Scheduler is src/scheduler.c; Message, Receive and
--              Syscall are the sending half, the receiving half and the dispatch of
--              src/handlers/syscall.c; Trap is src/handlers/trap.c; Clock is src/clock/accounting.c
--              and accounting.h with src/SSI/services/wait_for_clock.c; Interrupts is src/handlers/interrupts.c.
--   Ssi        src/SSI. Create, Terminate, Tree, Manager and Io are the services, Request the request
--              functions of src/nucleus.h, Serve the body of the loop of src/SSI/ssi.c. Settled says
--              in which queues the threads stand while the SSI runs, Counted that `thread_count` is
--              right, Sound is the invariant of the tables, these queues and the process tree, and
--              Sound/Reached has the states that sequences of requests and messages lead to.
--   Syslib     src/syslib.c. What is printed is a list of character codes; Copy is `memcpy`.
--   Tests      the results at concrete inputs, from a memory of zeros.
--
-- The handlers use the operations of Mikabooq on the `mem` of `Kernel`. A handler never returns: its
-- result is an `Outcome`, the way in which it gives up the processor (LDST, HALT, PANIC, WAIT).
--
-- Numbers: `unsigned int` is a number below 2 ^ 32 with the wrap-around written out. A result
-- `int` that is 0 or negative is a `ℤ`.
--
-- Fuel: the loop of `msgq_get` has one round more than there are messages, and the loop of
-- `update_clock` one more than there are threads with the SSI. The loops of the termination of a
-- process have one round more than there are messages, threads and children, and its recursion goes
-- as deep as there are processes. The loop of `accountant` has a round for each millisecond of 2 ^ 31
-- cycles. A model whose fuel runs out returns `none` or `out_of_fuel`.
--
-- Not modelled: src/uARMsupportFiles (the emulator's library), that the nucleus prints messages, and
-- the test programs of src/tests but for the function that loads their thread. The system call
-- instructions that the nucleus itself executes, the address of a handler's local variables and the
-- layout of `state_t` are the parameters that `Machine` collects; the addresses of the handlers, the
-- state that STST stores and the registers of the bus are those of `Image`. The words that a
-- receive, a request or a device command writes (`words` of `Kernel`) are taken to lie outside the
-- descriptors. src/handlers/interrupts.c
-- does not compile: the word that `io_h` reads is an argument of the model.
pub mod Base
pub mod Bitmap
pub mod Boot
pub mod Kernel
pub mod Listx
pub mod Mikabooq
pub mod Ssi
pub mod Start
pub mod Syslib
mod Tests
