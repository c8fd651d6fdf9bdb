-- ===== src/Timer/Tests.antt =====
-- Runs of civan/timer.cc on small managers.
use civan.Common.{ℕ, ◌+◌, ◌<◌, ◌≡◌, ◌≢◌, refl, inl, [], ◌∷◌, some, true, false, arith}
use civan.Timer.State.{
  Timer, TimerManager, list_expired_cb, get_next_timer, callbacks, lower_bound, skip_equal,
  split_expired, fire_expired, detect_clock_rollover, add, object,
}
use civan.Timer.Preserve.{IsValid, add-IsValid}
use civan.Timer.Handles.{
  Cancels, cancel-Cancels, Refreshes, refresh-Refreshes, Resets, reset-Resets,
}
use civan.Timer.Expiry.{due, firing, list_expired_cb-firing, list_expired_cb-IsValid}
use civan.Timer.Wait.{get_next_timer-list_expired_cb, get_next_timer_lem}

abbrev once_at_5 : Timer
once_at_5 = record { address = 1; recurring = false; ms = 5; next = 5; cb = some 7 }

abbrev every_10 : Timer
every_10 = record { address = 2; recurring = true; ms = 10; next = 10; cb = some 8 }

abbrev at_40 : Timer
at_40 = record { address = 3; recurring = false; ms = 40; next = 40; cb = some 9 }

abbrev three_timers : TimerManager
three_timers = record {
  timers = once_at_5 ∷ every_10 ∷ at_40 ∷ [];
  parked = [];
  tickled = false;
  previous_time = 0;
}

three_timers-IsValid : IsValid three_timers
three_timers-IsValid = record {
  sorted = ((inl (omega arith), (inl (omega arith), tt)), ((inl (omega arith), tt), (tt, tt)));
  unique = λ a. ground arith;
  done = tt;
}

fire_at_10 : (list_expired_cb 10 99 three_timers).0 ≡ some 7 ∷ some 8 ∷ []
unfolding list_expired_cb fire_expired detect_clock_rollover split_expired lower_bound skip_equal
fire_at_10 = refl

list_expired_cb-firing_example :
    (list_expired_cb 10 99 three_timers).0 ≡ callbacks (firing 10 three_timers)
list_expired_cb-firing_example = list_expired_cb-firing 10 99 three_timers three_timers-IsValid

list_expired_cb-IsValid_example : IsValid (list_expired_cb 10 99 three_timers).1
list_expired_cb-IsValid_example = list_expired_cb-IsValid 10 99 three_timers three_timers-IsValid

get_next_timer-list_expired_cb_example :
    0 < (get_next_timer 10 (list_expired_cb 10 99 three_timers).1).0
get_next_timer-list_expired_cb_example =
    get_next_timer-list_expired_cb 10 99 three_timers three_timers-IsValid
      (λ e. omega arith, (λ e. omega arith, (λ e. omega arith, tt)))

get_next_timer_lem_run :
    let wait = (get_next_timer 2 three_timers).0 in
    (due (2 + wait) three_timers.timers ≢ [])
    × ((k : ℕ) → k < wait → due (2 + k) three_timers.timers ≡ [])
get_next_timer_lem_run = get_next_timer_lem 2 three_timers three_timers-IsValid (λ e. cc)

cancel-Cancels_run : Cancels 2 every_10 three_timers
unfolding object
cancel-Cancels_run = cancel-Cancels 2 every_10 three_timers three_timers-IsValid refl

refresh-Refreshes_run : Refreshes 2 4 every_10 three_timers
unfolding object
refresh-Refreshes_run = refresh-Refreshes 2 4 every_10 three_timers three_timers-IsValid refl

reset-Resets_run : Resets 2 30 true 4 every_10 three_timers
unfolding object
reset-Resets_run = reset-Resets 2 30 true 4 every_10 three_timers three_timers-IsValid refl

add-IsValid_run : IsValid (add (record at_40 { address = 4 }) three_timers).1
add-IsValid_run =
    add-IsValid (record at_40 { address = 4 }) three_timers three_timers-IsValid (omega arith)
