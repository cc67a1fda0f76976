-- ===== src/Tests/Passive.antt =====
-- The lock of malthusian.c, and its passive set.
use shfllock.Base.{ℕ, ◌≡◌, refl, List, [], ◌∷◌, arith}
use shfllock.Waiting.{Futex, spin_then_park, woken}
use shfllock.Protocol.Code.{inside}
use shfllock.Protocol.Wrapper.{Event, lock, unlock}
use shfllock.Protocol.Refinement.{view_of}
use shfllock.Malthusian.Memory.{
  MalthusianMutex, create, passive_set_push_front, passive_set_pop_front, passive_set_pop_back,
}
use shfllock.Malthusian.Mutex.{mutex}
use shfllock.Malthusian.Passive.{Passive, pop_front-push_front, pop_back-Passive}
use shfllock.Malthusian.Steps.{malthusian_exclusive}
use shfllock.Tests.Machine.{small_posix, times}

abbrev third : ℕ
third = 2

-- Threads 1 and 2 queue behind thread 0, which sets thread 1 aside and hands over to thread 2.
abbrev surplus : List (Event Futex)
surplus =
    let y : Futex = woken in
    times 6 0 lock y
      (times 6 1 lock y (times 6 2 lock y (times 12 0 unlock y (times 6 2 lock y []))))

malthusian_scene : view_of ((mutex spin_then_park small_posix 3 surplus).thread 2) ≡ inside
unfolding mutex
malthusian_scene = refl

-- Thread 1 is the passive set.
malthusian_passive : (mutex spin_then_park small_posix 3 surplus).mem.passive_set_tail ≡ 2
unfolding mutex
malthusian_passive = refl

malthusian_exclusive_example : third ≡ third
malthusian_exclusive_example =
    malthusian_exclusive spin_then_park small_posix 3 surplus 2 2 (omega arith) (omega arith)
      malthusian_scene malthusian_scene

create-Passive : Passive create []
unfolding create
create-Passive = record { chain = (refl, refl); distinct = tt }

-- Node 7 alone.
abbrev seven : MalthusianMutex
seven = passive_set_push_front create 7

pop_front-push_front_example :
    Passive (passive_set_push_front create 7) (7 ∷ [])
    × ((passive_set_pop_front (passive_set_push_front create 7)).1 ≡ 7)
    × Passive (passive_set_pop_front (passive_set_push_front create 7)).0 []
pop_front-push_front_example = pop_front-push_front create 7 [] create-Passive (omega arith) tt

seven-Passive : Passive seven (7 ∷ [])
seven-Passive = (pop_front-push_front create 7 [] create-Passive (omega arith) tt).0

-- Nodes 9 and 7, of which 7 has been there longer.
two-Passive : Passive (passive_set_push_front seven 9) (9 ∷ 7 ∷ [])
two-Passive = (pop_front-push_front seven 9 (7 ∷ []) seven-Passive (omega arith) (omega arith)).0

pop_back-Passive_example :
    ((passive_set_pop_back (passive_set_push_front seven 9)).1 ≡ 7)
    × Passive (passive_set_pop_back (passive_set_push_front seven 9)).0 (9 ∷ [])
pop_back-Passive_example = pop_back-Passive (passive_set_push_front seven 9) (9 ∷ []) 7 two-Passive
