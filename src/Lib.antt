-- ===== src/Lib.antt =====
-- Shuffling locks in user space (ulocks/): a library that replaces the mutexes of POSIX by one of
-- several lock algorithms. Each algorithm is a file of ulocks/src with a header in ulocks/include;
-- all have the same operations, X_mutex_lock, X_mutex_trylock, X_mutex_unlock and X_cond_*.
--
-- The parts, and where they are modelled:
-- + Atomic: compare-and-swap, `l_tas_uint8` of utils.h and the lock values of waiting_policy.h.
-- + Protocol.Code: the shape of an algorithm. Its memory is a record; its code is a step function
--   from a program counter with the live locals to the next one, where one step makes at most one
--   access to memory that other threads write. A schedule is a list of events, each of which lets
--   one thread make one step, so that a statement about all lists is one about all interleavings.
-- + Protocol.Wrapper: what every lock puts around its algorithm when it is built with condition
--   variables (COND_VAR is 1, as in ulocks/Makefile), as spinlock.c has it: the POSIX mutex that is
--   taken behind the lock and given back before it, and X_cond_timedwait, X_cond_wait,
--   X_cond_signal and X_cond_broadcast. The C library is a parameter (`Posix`): each call may
--   return any number or go on blocking. Nothing is supposed of it.
--   alockepfl.c alone has no assert behind pthread_mutex_trylock (`trylock_asserts` of Code).
-- + Protocol.Cases, Word, Token, Handover, Local, Induct, Refinement: what follows for every schedule from laws of one step.
-- + Waiting: waiting_policy.h, how a thread waits on a word and is woken, under each policy.
-- + Mcs: mcs.c, with any waiting policy, and mcsepfl.c. Memory has the structs, Mutex and MutexEpfl
--   the two locks, Stage what a thread is doing with the queue, which both share; Line orders the
--   threads of the queue, Facts, Moves, Invariant and Run are the proof over stages, Steps and
--   StepsEpfl show that each lock moves through its stages.
-- + Tas: spinlock.c, ttas.c, backoff.c, spinlockepfl.c, ttasepfl.c.
-- + Ticket: ticket.c with the ban of BLOCKING_FAIRNESS, which that file defines. Mutex has the code,
--   Dispenser the tickets modulo 2 ^ 32, Laws what a lock with tickets must do in one step, Invariant
--   what follows for every run, Change, Exclusion and Fairness the laws and results of this lock.
--   MutexEpfl, ChangeEpfl and Epfl are the same for ticketepfl.c.
-- + Ttasrw: ttasrw.c; Mutex is its mutex, RwLock its reader-writer lock.
-- + Aqs: aqs.c, the non-blocking ShflLock. Memory has the structs and the small functions, Shuffle
--   is `shuffle_waiters`, Mutex the lock itself; Queue is about chains of nodes.
-- + Aqm: aqm.c, the blocking ShflLock, in the same files; Mutex has the waits of `park_waiter`,
--   Cares and Wakeup the proof that no wake-up is lost, Stealing what becomes of `no_stealing`.
-- + Aqs.Wonode, Aqm.Wonode: aqswonode.c and aqmwonode.c, whose nodes stand on the stack. A thread's
--   node is a slot that holds anything before a call and is overwritten with anything behind it.
-- + Clh: clh.c, with any waiting policy, and clhepfl.c, in files of the same names; Moves, Turns,
--   Inherit and Wake are the moves of a thread, over the Line of Mcs. Node 1 is the dummy of the lock,
--   and node `i + 2` the one that thread `i` begins with.
-- + Cna: cna.c. Memory has the structs, Mutex the code, with `find_successor` and the second queue;
--   Facts, Moves, Steps and Exclusion are the proof, by the token of Protocol.Token.
--   Rows, Successor, Handover and Flush are about the order of the two queues behind an unlock.
-- + Malthusian: malthusian.c, with any waiting policy. Memory has the structs and the functions on the
--   passive set, which the holder alone runs, each as one step; Mutex is the lock. Chain and Passive
--   are about the set as a list, Moves and Steps about the lock.
-- + Alock: alockepfl.c, the array lock. Mutex has the code, Facts, Moves and Exclusion the proof over
--   the Line of Mcs, which counts the events that are left, so that `tail` does not wrap around.
-- + Partitioned: partitioned.c, whose waiters look at slots of their own. Mutex has the code, Facts,
--   Moves, Steps and Exclusion the proof over the Line of Mcs, where a ticket is a place. What the
--   store of an unlock does that misses the array, from ticket 2 ^ 31 on, is the parameter `stray`.
-- + Interpose: ulocks/src/interpose.c, the functions pthread_mutex_* and pthread_cond_*wait around any
--   of the locks. Table is the interface of the hash table CLHT, a parameter with the laws of its
--   documentation; Calls has the lookup and creation of locks and the calls; Invariant, Locks, Lookup
--   and Steps are the proof, Faithful, Leave, Arrive and Held that of what
--   a client holds, Exclusion the results. A client error (locking a mutex twice, unlocking
--   one that is not held) is a request that does nothing. A client takes a mutex for
--   unlocked once pthread_mutex_unlock is called. Freed addresses are not given out again.
--   Start has `interpose_init` and `lp_start_routine` by themselves, as steps of threads, and Numbers
--   the proof; a call of clht_create does not fail there, as the code asserts.
-- + Tests: concrete runs.
--
-- In each of these `step` is the code of lock, trylock and unlock, `create` is X_mutex_create, and
-- `mutex` a schedule of the whole, with `Wrapper.run` behind it. A thread is its number; it queues
-- with one node, whose address is the number plus one, so that 0 is NULL (the CLH and cna locks
-- apart). The stores to a node that is not yet in the queue are one step, since no other thread can
-- see it.
--
-- Numbers are natural numbers with the wrap-around of the C type written out. Fields that only
-- hold the values 0, 1 and the like have none. The clock, the register of `rdtscp`, random numbers
-- of `my_random` and the answer of the futex are inputs of a step, of any value. The memory is
-- sequentially consistent: reordering by the processor or the compiler is not modelled. A futex
-- call fails with EINTR or EAGAIN alone; on other errors the code ends the program.
--
-- There is no fuel in the models: schedules are finite lists, and a loop that waits is a program
-- counter that stays. The only bound is that of `solo` in Aqs.Shuffle.Solo, a call that no other
-- thread interrupts, and it is proved that enough steps are given. Ends in Cna.Successor is such
-- a call of cna.c as a relation, every proof of which is finite.
--
-- Not modelled: mutex and condition variable destruction and initialisation, which only call the C
-- library or free memory; debugging output; options that the sources leave commented out
-- (WAITER_CORRECTNESS, USE_COUNTER, BLOCKING_FAIRNESS and VRUNTIME_FAIRNESS in aqs.c); the POSIX
-- reader-writer lock behind ttasrw's; in ulocks/src/interpose.c the reader-writer locks, the spin
-- locks, which repeat the mutex functions, pthread_mutex_timedlock, which is an assert(0), and
-- which function of the C library each name is bound to; the other algorithms of ulocks/src; the kernel patch in klocks/.
mod Base
pub mod Protocol
pub mod Atomic
pub mod Waiting
pub mod Mcs
pub mod Clh
pub mod Cna
pub mod Malthusian
pub mod Alock
pub mod Partitioned
pub mod Interpose
pub mod Tas
pub mod Aqs
pub mod Ttasrw
pub mod Ticket
pub mod Aqm
pub mod Tests
