-- ===== src/Interpose/Start.antt =====
-- `interpose_init` and `lp_start_routine` of interpose.c, which load the library and number the
-- threads, one shared access at a time.
use shfllock.Base.{
  ℕ, ◌+◌, ◌%◌, ◌^◌, Bool, true, false, List, [], ◌∷◌, ◌==◌, ltb, if◌then◌else◌, assign,
}
use shfllock.Atomic.{cas}

-- MAX_THREADS of utils.h.
abbrev pub max_threads : ℕ
max_threads = 2048

-- The globals: whether `pthread_to_lock` is made, and whether the functions of the C library are
-- loaded.
pub record Library : Type 0 where
  pub init_spinlock : ℕ
  pub last_thread_id : ℕ
  pub pthread_to_lock : Bool
  pub loaded : Bool

pub data Stage : Type 0 where
  fresh : Stage  -- nothing of the library has run
  swap : Stage  -- `interpose_init`
  wait : Stage
  make_table : Stage
  number : Stage
  check : Stage
  load : Stage  -- the LOAD_FUNCs, of which no other thread sees the order
  publish : Stage
  start_number : Stage  -- `lp_start_routine`
  start_check : Stage
  running : Stage  -- with a number of its own
  guest : Stage  -- `interpose_init` has returned early, and given no number
  stopped : Stage  -- exit(-1)

-- A thread with its thread-local variable.
pub record Thread : Type 0 where
  pub stage : Stage
  pub cur_thread_id : ℕ

abbrev to : Thread → Stage → Thread
to t p = record t { stage = p }

-- `cur_thread_id = __sync_fetch_and_add(&last_thread_id, 1)`.
abbrev take : Library → Library
take m = record m { last_thread_id = (m.last_thread_id + 1) % 2 ^ 32 }

unfoldable pub step : Library → Thread → Library × Thread
step m t = elim t.stage [
  | swap ↦ (
    record m { init_spinlock = cas m.init_spinlock 0 1 },
    to t (
        if m.init_spinlock == 1
        then wait
        else (if m.init_spinlock == 2 then guest else make_table)),
  )
  | wait ↦ (m, to t (if m.init_spinlock == 1 then wait else guest))
  | make_table ↦ (record m { pthread_to_lock = true }, to t number)
  | number ↦ (take m, record { stage = check; cur_thread_id = m.last_thread_id })
  | check ↦ (m, to t (if ltb t.cur_thread_id max_threads then load else stopped))
  | load ↦ (record m { loaded = true }, to t publish)
  | publish ↦ (record m { init_spinlock = 2 }, to t running)
  | start_number ↦ (take m, record { stage = start_check; cur_thread_id = m.last_thread_id })
  | start_check ↦ (m, to t (if ltb t.cur_thread_id max_threads then running else stopped))
  | _ ↦ (m, t)
]

-- What happens to a thread: it goes on, the loader runs the constructor in it, `pthread_create`
-- has started it, or it calls pthread_spin_init or pthread_rwlock_init.
pub data Request : Type 0 where
  proceed : Request
  construct : Request
  start : Request
  set_up : Request

-- `if (init_spinlock != 2) interpose_init()`.
abbrev look : Library → Thread → Thread
look m t = if m.init_spinlock == 2 then t else to t swap

-- `pthread_create` calls a function that `interpose_init` has loaded.
unfoldable pub turn : Request → Library → Thread → Library × Thread
unfolding step
turn proceed m t = step m t
turn construct m t = elim t.stage [ fresh ↦ (m, to t swap) | _ ↦ (m, t) ]
turn start m t = elim t.stage [
  | fresh ↦ (m, if m.loaded then to t start_number else t)
  | _ ↦ (m, t)
]
turn set_up m t = elim t.stage [
  | fresh ↦ (m, look m t)
  | running ↦ (m, look m t)
  | guest ↦ (m, look m t)
  | _ ↦ (m, t)
]

pub record Event : Type 0 where
  pub tid : ℕ
  pub request : Request

pub record State : Type 0 where
  pub mem : Library
  pub thread : ℕ → Thread

unfoldable pub run : List Event → State → State
unfolding turn
run [] s = s
run (e ∷ es) s =
    let r = turn e.request s.mem (s.thread e.tid) in
    run es (record { mem = r.0; thread = assign s.thread e.tid r.1 })

-- The loaded image.
unfoldable pub image : State
image = record {
  mem = record { init_spinlock = 0; last_thread_id = 0; pthread_to_lock = false; loaded = false };
  thread = λ i. record { stage = fresh; cur_thread_id = 0 };
}
