-- ===== src/Ttasrw/RwLock.antt =====
-- The reader-writer lock of ttasrw.c, one shared access at a time, and threads that use it. The
-- POSIX lock that is taken behind it, and given back before it, is left out.
use shfllock.Base.{
  ℕ, ◌+◌, ◌-◌, ◌%◌, ◌^◌, Bool, true, false, List, [], ◌∷◌, ◌==◌, ltb, if◌then◌else◌, assign,
}
use shfllock.Atomic.{cas}

-- `lock_data` is a uint16_t; the low byte is `read_lock`, the high byte `write_lock`.
pub record TtasrwRwlock : Type 0 where
  pub lock_data : ℕ

abbrev pub max_rw : ℕ
max_rw = 255

abbrev pub w_mask : ℕ
w_mask = 0x100

-- Where a thread stands, with its live locals. `aux` is an rw_data_t, that is a uint8_t. The
-- unlock has one code for readers and writers; `writer` says which the thread is, and no step
-- reads it.
pub data Thread : Type 0 where
  outside : Thread
  rd_read : Thread
  rd_swap : (aux : ℕ) → Thread
  wr_read : Thread
  wr_swap : Thread
  tryrd_read : Thread
  tryrd_swap : (aux : ℕ) → Thread
  trywr_swap : Thread
  reading : Thread
  writing : Thread
  unlock_read : (writer : Bool) → Thread
  rdunlock : (writer : Bool) → Thread
  wrunlock : (writer : Bool) → Thread

pub data Op : Type 0 where
  rdlock wrlock tryrdlock trywrlock unlock : Op

-- `aux = impl->lock_data`
abbrev pub to_rw_data : ℕ → ℕ
to_rw_data v = v % 2 ^ 8

unfoldable pub step : Op → TtasrwRwlock → Thread → TtasrwRwlock × Thread
step o m rd_read =
    let aux = to_rw_data m.lock_data in (m, if ltb max_rw aux then rd_read else rd_swap aux)
step o m (rd_swap aux) = (
  record { lock_data = cas m.lock_data aux ((aux + 1) % 2 ^ 16) },
  if m.lock_data == aux then reading else rd_read,
)
step o m wr_read = (m, if m.lock_data == 0 then wr_swap else wr_read)
step o m wr_swap =
    (record { lock_data = cas m.lock_data 0 w_mask }, if m.lock_data == 0 then writing else wr_read)
step o m tryrd_read =
    let aux = to_rw_data m.lock_data in (m, if ltb max_rw aux then outside else tryrd_swap aux)
step o m (tryrd_swap aux) = (
  record { lock_data = cas m.lock_data aux ((aux + 1) % 2 ^ 16) },
  if m.lock_data == aux then reading else outside,
)
step o m trywr_swap =
    (record { lock_data = cas m.lock_data 0 w_mask }, if m.lock_data == 0 then writing else outside)
step o m (unlock_read w) = (m, if ltb max_rw m.lock_data then wrunlock w else rdunlock w)
step o m (rdunlock w) = (record { lock_data = (m.lock_data + 2 ^ 16 - 1) % 2 ^ 16 }, outside)
step o m (wrunlock w) = (record { lock_data = 0 }, outside)
step rdlock m outside = (m, rd_read)
step wrlock m outside = (m, wr_read)
step tryrdlock m outside = (m, tryrd_read)
step trywrlock m outside = (m, trywr_swap)
step unlock m reading = (m, unlock_read false)
step unlock m writing = (m, unlock_read true)
step o m t = (m, t)

pub record Event : Type 0 where
  pub tid : ℕ
  pub op : Op

pub record State : Type 0 where
  pub mem : TtasrwRwlock
  pub thread : ℕ → Thread

unfoldable pub turn : ℕ → Event → State → State
unfolding step
turn n e s =
    let r = step e.op s.mem (s.thread e.tid) in
    if ltb e.tid n then record { mem = r.0; thread = assign s.thread e.tid r.1 } else s

unfoldable pub run : ℕ → List Event → State → State
unfolding turn
run n [] s = s
run n (e ∷ es) s = run n es (turn n e s)

-- `ttasrw_rwlock_create`, with every thread outside.
abbrev pub create : State
create = record { mem = record { lock_data = 0 }; thread = λ i. outside }
