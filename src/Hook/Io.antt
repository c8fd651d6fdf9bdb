-- ===== src/Hook/Io.antt =====
-- `do_io` and the hooks of civan/hook.cc that do not wait. The call of the system that a hook stands
-- for is the parameter that answers; a context of a descriptor is what `FdMgr` gives for it.
use civan.Common.{
  ℕ, ◌+◌, ◌*◌, ◌/◌, ◌-◌, ◌%◌, ◌^◌, List, [], ◌∷◌, ◌++◌, Option, none, some, Bool, true, false, not,
  ◌||◌, ◌==◌, if◌then◌else◌,
}
use civan.FdManager.State.{FdCtx, TimeoutType, get_timeout, set_timeout}

-- What one call of the system answers: a count, or -1 with `EINTR`, `EAGAIN` or another `errno`.
pub data CallAnswer : Type 0 where
  moved : ℕ → CallAnswer
  interrupted would_block : CallAnswer
  failed : ℕ → CallAnswer

-- What the hook answers: a count, or -1 with `errno`.
pub data Result : Type 0 where
  returned error : ℕ → Result

-- What the hook does: it calls the system, sets a timer, cancels it, registers the event, with or without
-- success, or yields.
pub data Action : Type 0 where
  calls : Action
  sets_timer : ℕ → Action
  cancels_timer yields : Action
  adds_event : Bool → Action

-- One call of the system and, if it would block, what comes of waiting: whether `addEvent` succeeded,
-- `errno` if it did not, and whether the timer has fired when the fiber wakes up.
pub record Round : Type 0 where
  pub answer : CallAnswer
  pub added : Bool
  pub add_errno : ℕ
  pub timed_out : Bool

abbrev pub etimedout : ℕ
etimedout = 110

abbrev pub ebadf : ℕ
ebadf = 9

-- `addConditionTimer` unless the timeout is `(uint64_t)-1`, and `if(timer) timer->cancel()`.
abbrev pub no_timeout : ℕ
no_timeout = 2 ^ 64 - 1

unfoldable pub timer_set : ℕ → List Action
timer_set timeout = if timeout == no_timeout then [] else sets_timer timeout ∷ []

unfoldable pub timer_cancelled : ℕ → List Action
timer_cancelled timeout = if timeout == no_timeout then [] else cancels_timer ∷ []

-- What a round does that would block.
unfoldable pub wait_actions : ℕ → Bool → List Action
unfolding timer_set timer_cancelled
wait_actions timeout added =
    timer_set timeout
    ++ adds_event added
      ∷ (if added then yields ∷ timer_cancelled timeout else timer_cancelled timeout)

-- What a round comes to by its answer; `later` is what the rounds after it come to.
unfoldable pub io_round :
    ℕ → CallAnswer → Round → Option Result × List Action → Option Result × List Action
unfolding wait_actions
io_round timeout (moved n) r later = (some (returned n), calls ∷ [])
io_round timeout (failed errno) r later = (some (error errno), calls ∷ [])
io_round timeout interrupted r (result, actions) = (result, calls ∷ actions)
io_round timeout would_block r (result, actions) =
    if not r.added
    then (some (error r.add_errno), calls ∷ wait_actions timeout false)
    else if r.timed_out
    then (some (error etimedout), calls ∷ wait_actions timeout true)
    else (result, calls ∷ (wait_actions timeout true ++ actions))

-- From `retry` on, for the rounds that there are; `none` is a hook that is still in its loop after them.
unfoldable pub io_loop : ℕ → List Round → Option Result × List Action
unfolding io_round
io_loop timeout [] = (none, [])
io_loop timeout (r ∷ rounds) = io_round timeout r.answer r (io_loop timeout rounds)

-- The answer of one call that is handed on as it is.
unfoldable pub one_call : CallAnswer → ℕ → ℕ → Result
one_call (moved n) eintr eagain = returned n
one_call (failed errno) eintr eagain = error errno
one_call interrupted eintr eagain = error eintr
one_call would_block eintr eagain = error eagain

abbrev pub pass_on : List Round → Option Result × List Action
pass_on [] = (none, [])
pass_on (r ∷ rounds) = (some (one_call r.answer 4 11), calls ∷ [])

-- `do_io`; `ctx` is what `FdMgr` has for the descriptor.
unfoldable pub do_io : Bool → Option FdCtx → TimeoutType → List Round → Option Result × List Action
unfolding io_loop one_call
do_io hook_enable none timeout_so rounds = pass_on rounds
do_io hook_enable (some ctx) timeout_so rounds =
    if not hook_enable
    then pass_on rounds
    else if ctx.is_closed
    then (some (error ebadf), [])
    else if not ctx.is_socket || ctx.user_nonblock
    then pass_on rounds
    else io_loop (get_timeout timeout_so ctx) rounds

-- `setsockopt` of `SO_RCVTIMEO` or `SO_SNDTIMEO`, with the hook enabled, before the call of the system.
unfoldable pub set_timeout_option : TimeoutType → ℕ → ℕ → FdCtx → FdCtx
set_timeout_option optname tv_sec tv_usec ctx =
    set_timeout optname ((tv_sec * 1000 + tv_usec / 1000) % 2 ^ 64) ctx
