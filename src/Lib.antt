-- ===== src/Lib.antt =====
-- RTAI: the services of the real time kernel, with what makes them correct.
--
-- The program is a kernel extension: a scheduler for real time tasks (include/rtai_schedcore.h,
-- src/sched/), and over it services by which tasks wait for each other and exchange data (src/ipc/).
-- A service changes the state of tasks and queues with interrupts off, and calls rt_schedule() when
-- a task may have to run that is not the current one.
--
-- Files and what they model:
--   Base      names, numbers, lists and integers that all modules share
--   Kernel    RT_TASK (include/rtai_sched.h), SEM (include/rtai_sem.h) and the lists of a processor
--   Sched     include/rtai_schedcore.h: the ready list, the timed list, the queues of blocked tasks;
--             each function has the name of the source's
--   Prio      include/rtai_prinher.h and pass_prio of include/rtai_schedcore.h
--   Sem       src/ipc/sem/sem.c: Sem/Signal for signals, broadcast and deletion, Sem/Wait for waits,
--             Sem/Cond for condition variables and barriers
--   Mbx       src/ipc/mbx/mbx.c: Mbx/Ring for the byte buffer and its copy loops,
--             Mbx/Wait, Mbx/Send, Mbx/Receive and Mbx/Delete for the services
--   Rwl       src/ipc/sem/sem.c: the locks of many readers or one writer
--   Spl       src/ipc/sem/sem.c: the spin locks at its end
--   Api       src/sched/api.c: suspension, resumption and yield of tasks; Api/Prio for priorities and
--             policies, Api/Period for periods and sleep, Api/Unblock
--   Schedule  src/sched/sched.c: the choice of the next task; Schedule/Rms for priorities by periods
--   Signals   src/sched/signal.c: Signals/Serving for a task and the tasks that serve its signals
--   Fifos     src/ipc/fifos/fifos.c: Fifos/State for its structures, Fifos/Block for the semaphores and
--             the waits of Linux processes, Fifos/Transfer for sends and receives, Fifos/Service,
--             Fifos/Lifetime and Fifos/Named for the rtf_ functions, Fifos/Drain for the handler that
--             wakes processes
--   Msg       src/ipc/msg/msg.c: Msg/State for what its services share, Msg/Send, Msg/Rpc and
--             Msg/Receive for messages of a word
--   Registry  src/sched/api.c: the hash table of named objects, and its services
--   Nam2num   include/rtai_nam2num.h
--
-- How the code is modelled. A pointer to a task or to a semaphore is a number; the state is a record
-- `Kernel` that is passed on. A circular list is the list of its members. The code between the
-- disabling and the restoring of interrupts is one step. rt_schedule() is a parameter: the function
-- that takes the state at the call to the state in which the caller goes on, after whatever other
-- tasks and interrupts have done in between. rt_task_delete is a parameter as well.
-- A list in which the source links a task stands for the links as long as no task is linked in it twice.
-- Where the walk of priority inheritance follows a pointer that is no task's, the field `astray` of the
-- kernel is set, and what the state says from then on stands for nothing.
-- Configuration: one processor, no CONFIG_RTAI_FULL_PRINHER, no CONFIG_RTAI_LONG_TIMED_LIST,
-- no CONFIG_RTAI_RT_POLL, CONFIG_RTAI_USE_NEWERR=1. Counts and depths stay within an int.
--
-- Bounds. The copy loops of a mailbox take as fuel the number of bytes asked for, since a round copies
-- at least one byte of a valid buffer; the overwriting loop takes twice that and one more, since a
-- round may only make room. The services of a mailbox that wait and rt_mbx_delete run on fuel that
-- the caller names, since how often they wait depends on other tasks. nam2num and num2nam run over
-- at most six characters. The loops of the fifos' request handler run for 64 rounds, the size of their
-- arrays; a put to a fifo takes one round more than there are bytes, as rtf_resize can leave a write
-- position at which the first round only wraps. A search of the registry makes at most as many steps as
-- the table has slots, since the source ends it when it comes round. pass_prio and rt_change_prio take
-- one round more than there are tasks, since a round gives a priority to a task that has a lower one,
-- and no task gets it twice. A lock of readers and writers is waited for on fuel that the caller names.
-- A trigger of a signal takes as many rounds as its fuel says; two are enough while nobody triggers or
-- enables the signal as it is being served.
--
-- Not modelled: the switch of stacks and the programming of timers (src/sched/sched.c,
-- include/asm-x86/), the libm copy under src/math, the TLSF copy under src/malloc, wrappers that only
-- cast, and the services not named above (messages of several bytes and proxies, shared memory,
-- the creation of the tasks that serve signals).
pub mod Base
pub mod Mbx
pub mod Nam2num
pub mod Kernel
pub mod Sched
pub mod Prio
pub mod Sem
pub mod Rwl
pub mod Spl
pub mod Api
pub mod Schedule
pub mod Fifos
pub mod Registry
pub mod Msg
pub mod Signals
