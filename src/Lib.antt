-- ===== src/Lib.antt =====
-- CxxFiber: a coroutine library for C++. Fibers run on one thread or on several, each thread taking
-- them in turn from its run queue; blockers, mutexes and condition variables suspend and resume
-- them, and system calls that would block are hooked so that only the calling fiber waits.
--
-- Prelude has the tests, lists, sums and integers that the parts share. Fifo is the interface of
-- the queues of the CxxJava base library (EConcurrentLiteQueue), which the blockers and the
-- condition variables use; that library is not in the repository, and list_fifo is an
-- implementation of the interface for concrete runs.
--
-- ConcurrentQueue models inc/EFiberUtil.hh: the linked queue whose nodes are lent by the fibers,
-- with memory as a function from addresses to nodes, each call of add and of poll being one step.
-- ConcurrentQueue.Interleaved has the calls of several threads step by step between the two spin
-- locks that guard them; memory is sequentially consistent there, and a lock is passed by a call
-- that finds it free.
--
-- Blocker models src/EFiberBlocker.cpp, one function for each section under the lock sync_;
-- Blocker.Timed has the timed tryWait, with the calls that others make meanwhile as an argument.
-- All plain threads wait on the one monitor sync_ and stand in the wait queue by it, so that
-- nothing is said of which of them a wakeUp lets go on. Mutex models src/EFiberMutex.cpp and
-- Condition src/EFiberCondition.cpp on top of it.
--
-- Runtime has the state that the other files share: State and Fiber are EFiber of inc/EFiber.hh,
-- World is EFiberScheduler of inc/EFiberScheduler.hh with its stubs and io waiters. A thread, its
-- queue and its io waiter go by one number, a null pointer is none, and following one sets the
-- field faulted.
--
-- Fiber models src/EFiber.cpp: the constructor, swapIn and sleep. Context models src/EContext.cpp:
-- the switches between a thread and its fibers on x86-64, the registers being those that SETJMP
-- keeps, and Context.Stack the stack and the ucontext from the constructor to the destructor, with
-- the addresses that malloc returns and the alignment as arguments. FiberLocal models
-- inc/EFiberLocal.hh with the loop of the destructor in src/EFiber.cpp; the hash table of the base
-- library is a parameter (Hash).
--
-- Scheduler models src/EFiberScheduler.cpp: schedule, and the body of the loops of join and
-- joinWithThreadBind; Scheduler.Joining has join(threads) up to the start of its threads, which
-- hands out the fibers of the default queue. Scheduler.Steps makes a step relation of the loops:
-- any thread may make the next step, a step being what the loop does between two points at which
-- another thread can come in. The body of a fiber is any list of the calls that Action has: yield,
-- wait, tryWait without a time, wakeUp, sleep, and schedule with and without the balance. The
-- tryWait with a time is not among them: it is modelled by itself, in Blocker.Timed, and nothing
-- that is shown of the steps is said of programs that call it. balanceIndex is an int that wraps,
-- and the steps schedule only while it has not. A thread may leave its loop at any time by a step,
-- as an interruption makes it; what the callbacks of the scheduler do and events on files are not
-- steps. The number of fibers is bounded by a parameter n, which is arbitrary. Scheduler.Loop has
-- the same loops as one thread runs them, with the phases that the schedule callback is told,
-- interrupt and the clean-up; there the callback, the bodies of the fibers and the events are
-- parameters, and the fuel is the number of turns that are looked at. Scheduler.Loop.Reached
-- relates the two: a Program that Conforms does what the steps allow, and its loop is then a run of
-- the steps. Scheduler.Loop.Worker has such a Program, whose bodies are lists of calls run by
-- fiber_worker of src/EContext.cpp. With fibers that only yield and try blockers the fuel that is
-- enough is one turn for each call that their bodies still have to make, tries included, one for
-- each fiber and one to find the queue empty (Scheduler.Loop.Brief). Scheduler.Events has the
-- callbacks of src/EIoWaiter.cpp that resume fibers from the event loop, and Scheduler.Setup the
-- size of the event sets that the constructors compute.
--
-- Channel models inc/EFiberChannel.hh: an event is one call of a blocker or of the queue by one of
-- the calls under way, which the record Traffic counts by where they stand; any list of events is a
-- run.
--
-- Timer models the timers of src/EFiberScheduler.cpp, by the times that their fiber meets (Course).
-- The loop of a periodic timer has fuel, which is the number of runs that are looked at.
-- Timer.Cancel models src/EFiberTimer.cpp.
--
-- IoWaiter models src/EIoWaiter.cpp: events on files, timers and the pause of a fiber. The event
-- loop below it is a parameter (EventLoop) with laws on what it keeps (Keeps); IoWaiter.ArrayLoop
-- is an instance for concrete runs. The boxes that hold the fibers are allocated and deleted, and a
-- read or a delete of what is not the program's sets the field corrupted.
--
-- FileContext models src/EFileContext.cpp: the context of a descriptor and, in FileContext.Table,
-- the table of contexts with the arithmetic of its indices and the spin locks of inc/EFiberUtil.hh.
-- The kernel is a parameter (Os).
--
-- Hooker models src/EHooker.cpp: Host is what a hooked call sees (the io waiter of its thread, the
-- kernel, errno, the table), the calls are programs of a state monad whose outcome may be an
-- exception, and the original calls are parameters. Hooker.Poll has poll, Hooker.Select select,
-- Hooker.Epoll epoll_wait, Hooker.Io the loop comm_io_on_fiber behind read, write, accept and their
-- kin, Hooker.Connect connect, Hooker.Sendfile the sendfile of Linux, Hooker.Files close, fcntl,
-- ioctl, setsockopt, dup2 and dup3, Hooker.Sleeps sleep, usleep and nanosleep. What the other
-- fibers do while one is paused is a parameter, any function on the host. The loops of
-- comm_io_on_fiber and of sendfile go on for as long as the kernel answers that they should, so
-- they have fuel; the outcome unfinished is the loop that has used it up. One unit is one round:
-- sendfile needs at most one for each byte when each round sends some, and comm_io_on_fiber one
-- unless the file that was ready turns out not to be. Hooker.OldIo is the variant of that loop for
-- compilers before C++11, which looks at the context again at each call, and Hooker.Epoll.Kevent
-- and Hooker.Sendfile.Mac are calls of macOS. Hooker.Resolver has gethostbyname, whose fuel is the
-- number of lookups: as many as doublings make the buffer large enough, and one. Hooker.Signals has
-- signal and the handler behind it. The times that a program passes as structs have no negative
-- parts here. Hooker.Symbols has the two tables of symbols and the dlopen of Linux. Not modelled:
-- the dlopen of macOS, which walks the images that are loaded.
--
-- src/eco_ae*.c is a copy of another project's event loop, and src/elf_hook.c and src/mach_hook.c
-- patch symbol tables: they are not modelled.
pub mod Blocker
pub mod Channel
pub mod Context
pub mod ConcurrentQueue
pub mod Condition
pub mod Fiber
pub mod FileContext
pub mod FiberLocal
pub mod Fifo
pub mod Hooker
pub mod IoWaiter
pub mod Mutex
pub mod Prelude
pub mod Runtime
pub mod Scheduler
pub mod Timer
