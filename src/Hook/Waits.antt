-- ===== src/Hook/Waits.antt =====
-- How the hooks of civan/hook.cc wait: the timers and events of `do_io`, and the time of `sleep`.
use civan.Common.{
  ℕ, ◌*◌, ◌/◌, ◌%◌, ◌^◌, ◌≤◌, List, [], ◌∷◌, ◌++◌, Option, some, Bool, true, false, not, ◌&&◌, ◌==◌,
  ◌≡◌, ◌↔◌, refl, ◌∙◌, arith, Bool-cases, inl, inr, if_both,
}
use civan.Hook.Io.{
  CallAnswer, moved, interrupted, would_block, failed, Result, error, Action, calls, sets_timer,
  cancels_timer, adds_event, yields, Round, timer_set, timer_cancelled, wait_actions, io_round,
  io_loop, etimedout, no_timeout,
}

-- The milliseconds that `sleep` gives its timer, which are an `unsigned int`, and those of `usleep`.
unfoldable pub sleep_ms : ℕ → ℕ
sleep_ms seconds = seconds * 1000 % 2 ^ 32

unfoldable pub usleep_ms : ℕ → ℕ
usleep_ms usec = usec / 1000

-- Up to 4294967 seconds this is the time that is asked for, and no further.
pub sleep_ms_iff : (seconds : ℕ) → (sleep_ms seconds ≡ seconds * 1000) ↔ (seconds ≤ 4294967)
unfolding sleep_ms
sleep_ms_iff seconds = ground arith

-- Where a hook is: between two calls, with a timer set, with an event added, after an event that could
-- not be added, or woken up; the Boolean is whether a timer is set.
pub data Mode : Type 0 where
  between armed : Mode
  waits unadded awake : Bool → Mode

-- Whether actions keep to the protocol: a timer is set before the event is added, a fiber yields next if
-- the event was added and not if it was not, and a timer that is set is cancelled before the next call
-- and before the end. Nothing is called after an event that could not be added.
unfoldable pub follows : Mode → List Action → Bool
follows between [] = true
follows between (calls ∷ rest) = follows between rest
follows between (sets_timer timeout ∷ rest) = follows armed rest
follows between (adds_event true ∷ rest) = follows (waits false) rest
follows between (adds_event false ∷ rest) = follows (unadded false) rest
follows between (cancels_timer ∷ rest) = false
follows between (yields ∷ rest) = false
follows armed [] = false
follows armed (adds_event true ∷ rest) = follows (waits true) rest
follows armed (adds_event false ∷ rest) = follows (unadded true) rest
follows armed (calls ∷ rest) = false
follows armed (sets_timer timeout ∷ rest) = false
follows armed (cancels_timer ∷ rest) = false
follows armed (yields ∷ rest) = false
follows (waits timer) [] = false
follows (waits timer) (yields ∷ rest) = follows (awake timer) rest
follows (waits timer) (cancels_timer ∷ rest) = false
follows (waits timer) (calls ∷ rest) = false
follows (waits timer) (sets_timer timeout ∷ rest) = false
follows (waits timer) (adds_event added ∷ rest) = false
follows (unadded timer) [] = not timer
follows (unadded timer) (cancels_timer ∷ rest) = timer && follows (unadded false) rest
follows (unadded timer) (yields ∷ rest) = false
follows (unadded timer) (calls ∷ rest) = false
follows (unadded timer) (sets_timer timeout ∷ rest) = false
follows (unadded timer) (adds_event added ∷ rest) = false
follows (awake timer) [] = not timer
follows (awake timer) (cancels_timer ∷ rest) = timer && follows between rest
follows (awake timer) (calls ∷ rest) = not timer && follows between rest
follows (awake timer) (sets_timer timeout ∷ rest) = false
follows (awake timer) (adds_event added ∷ rest) = false
follows (awake timer) (yields ∷ rest) = false

-- Whether actions begin with a call, or are none.
abbrev begins : List Action → Bool
begins [] = true
begins (calls ∷ rest) = true
begins (sets_timer timeout ∷ rest) = false
begins (adds_event added ∷ rest) = false
begins (cancels_timer ∷ rest) = false
begins (yields ∷ rest) = false

awake_begins :
    (rest : List Action) → begins rest ≡ true → follows (awake false) rest ≡ follows between rest
unfolding follows
awake_begins [] h = refl
awake_begins (calls ∷ rest) h = refl
awake_begins (sets_timer timeout ∷ rest) h = cc
awake_begins (adds_event added ∷ rest) h = cc
awake_begins (cancels_timer ∷ rest) h = cc
awake_begins (yields ∷ rest) h = cc

wait_again :
    (timeout : ℕ) (rest : List Action)
    → begins rest ≡ true
    → follows between (wait_actions timeout true ++ rest) ≡ follows between rest
unfolding wait_actions timer_set timer_cancelled follows
wait_again timeout rest b = elim (Bool-cases (timeout == no_timeout)) [
  | inl e ↦ rw (wait_actions, timer_set, timer_cancelled, e) (awake_begins rest b)
  | inr e ↦ rw (wait_actions, timer_set, timer_cancelled, e) refl
]

pub wait_ends : (timeout : ℕ) (added : Bool) → follows between (wait_actions timeout added) ≡ true
unfolding wait_actions timer_set timer_cancelled follows
wait_ends timeout true = elim (Bool-cases (timeout == no_timeout)) [
  | inl e ↦ rw (wait_actions, timer_set, timer_cancelled, e) refl
  | inr e ↦ rw (wait_actions, timer_set, timer_cancelled, e) refl
]
wait_ends timeout false = elim (Bool-cases (timeout == no_timeout)) [
  | inl e ↦ rw (wait_actions, timer_set, timer_cancelled, e) refl
  | inr e ↦ rw (wait_actions, timer_set, timer_cancelled, e) refl
]

-- Actions that begin with a call and keep to the protocol.
abbrev IsCalm : Option Result × List Action → Type 0
IsCalm later = (begins later.1 ≡ true) × (follows between later.1 ≡ true)

io_round-IsCalm :
    (timeout : ℕ) (answer : CallAnswer) (r : Round) (later : Option Result × List Action)
    → IsCalm later
    → IsCalm (io_round timeout answer r later)
unfolding io_round follows
io_round-IsCalm timeout (moved n) r later c = (refl, refl)
io_round-IsCalm timeout (failed errno) r later c = (refl, refl)
io_round-IsCalm timeout interrupted r (result, actions) (b, c) = (refl, c)
io_round-IsCalm timeout would_block r (result, actions) (b, c) =
    if_both IsCalm (not r.added) (some (error r.add_errno), calls ∷ wait_actions timeout false) _
      (refl, wait_ends timeout false)
      (if_both IsCalm r.timed_out (some (error etimedout), calls ∷ wait_actions timeout true)
        (result, calls ∷ (wait_actions timeout true ++ actions)) (refl, wait_ends timeout true)
        (refl, wait_again timeout actions b ∙ c))

io_loop-IsCalm : (timeout : ℕ) (rounds : List Round) → IsCalm (io_loop timeout rounds)
unfolding io_loop follows
io_loop-IsCalm timeout [] = (refl, refl)
io_loop-IsCalm timeout (r ∷ rounds) =
    io_round-IsCalm timeout r.answer r (io_loop timeout rounds) (io_loop-IsCalm timeout rounds)

-- Whatever the system answers, and however often: the loop of `do_io` sets its timer before it adds
-- the event, yields just after each event that it has added and never after one that it could not add,
-- and cancels the timer before the next call and before it returns.
pub io_loop-follows :
    (timeout : ℕ) (rounds : List Round) → follows between (io_loop timeout rounds).1 ≡ true
io_loop-follows timeout rounds = (io_loop-IsCalm timeout rounds).1
