-- ===== src/Tests/Started.antt =====
-- The start of the library in two threads.
use shfllock.Base.{ℕ, length, true, ◌<◌, ◌^◌, ◌≡◌, refl, List, [], ◌∷◌, arith}
use shfllock.Interpose.Start.{
  Request, proceed, construct, start, set_up, running, guest, Event, run, image, max_threads,
}
use shfllock.Interpose.Numbers.{numbers_differ, guest-Ready}
use shfllock.Tests.Machine.{owner, waiter}

abbrev on : ℕ → Request → Event
on i q = record { tid = i; request = q }

-- The constructor runs in thread 0, which then starts thread 1; thread 2 calls pthread_rwlock_init
-- while thread 0 is on its way.
abbrev two_started : List Event
two_started =
    on 0 construct
    ∷ on 0 proceed
    ∷ on 2 set_up
    ∷ on 2 proceed
    ∷ on 0 proceed
    ∷ on 0 proceed
    ∷ on 0 proceed
    ∷ on 2 proceed
    ∷ on 0 proceed
    ∷ on 0 proceed
    ∷ on 2 proceed
    ∷ on 1 start
    ∷ on 1 proceed
    ∷ on 1 proceed
    ∷ []

short_start : length two_started < 2 ^ 32
unfolding length
short_start = omega arith

stage_first : ((run two_started image).thread 0).stage ≡ running
unfolding run image
stage_first = refl

stage_second : ((run two_started image).thread 1).stage ≡ running
unfolding run image
stage_second = refl

stage_third : ((run two_started image).thread 2).stage ≡ guest
unfolding run image
stage_third = refl

number_second : ((run two_started image).thread 1).cur_thread_id ≡ 1
unfolding run image
number_second = refl

numbers_differ_example :
    (((run two_started image).thread 0).cur_thread_id < max_threads)
    × (((run two_started image).thread 0).cur_thread_id
          ≡ ((run two_started image).thread 1).cur_thread_id
        → owner ≡ waiter)
numbers_differ_example =
    numbers_differ two_started short_start owner waiter stage_first stage_second

guest-Ready_example :
    ((run two_started image).mem.pthread_to_lock ≡ true)
    × ((run two_started image).mem.loaded ≡ true)
guest-Ready_example = guest-Ready two_started short_start 2 stage_third
