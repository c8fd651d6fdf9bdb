-- ===== src/Hook/Connect.antt =====
-- `connect_with_timeout` of civan/hook.cc. What the system answers to `connect` and to the question for
-- `SO_ERROR`, what `addEvent` answers and whether the timer fires first are arguments.
use civan.Common.{
  ℕ, List, [], ◌∷◌, Option, none, some, Bool, true, false, not, ◌&&◌, ◌==◌, if◌then◌else◌, ◌≡◌,
  refl, ap, ◌∙◌,
}
use civan.FdManager.State.{FdCtx}
use civan.Hook.Io.{Result, returned, error, Action, calls, wait_actions, etimedout, ebadf}
use civan.Hook.Waits.{follows, between, wait_ends}

-- What `connect` of the system answers: 0, -1 with `EINPROGRESS`, or -1 with another `errno`.
pub data ConnectAnswer : Type 0 where
  connected in_progress : ConnectAnswer
  refused : ℕ → ConnectAnswer

abbrev pub einprogress : ℕ
einprogress = 115

unfoldable pub connect_answer : ConnectAnswer → Result
connect_answer connected = returned 0
connect_answer in_progress = error einprogress
connect_answer (refused errno) = error errno

-- The end of the function: `getsockopt` fails with an `errno`, or gives the error of the socket.
pub data SocketError : Type 0 where
  unreadable : ℕ → SocketError
  socket_error : ℕ → SocketError

unfoldable pub from_socket : SocketError → Result
from_socket (unreadable errno) = error errno
from_socket (socket_error e) = if e == 0 then returned 0 else error e

unfoldable pub connect_wait : ℕ → Bool → Bool → SocketError → Result × List Action
unfolding from_socket wait_actions
connect_wait timeout added timed_out e = (
  if added && timed_out then error etimedout else from_socket e,
  calls ∷ wait_actions timeout added,
)

unfoldable pub connect_with_timeout :
    Bool → Option FdCtx → ℕ → ConnectAnswer → Bool → Bool → SocketError → Result × List Action
unfolding connect_answer connect_wait
connect_with_timeout hook_enable ctx timeout answer added timed_out e =
    if not hook_enable then (connect_answer answer, calls ∷ []) else elim ctx [
      | none ↦ (error ebadf, [])
      | some c ↦
          if c.is_closed
          then (error ebadf, [])
          else if not c.is_socket
          then (connect_answer answer, calls ∷ [])
          else if c.user_nonblock
          then (connect_answer answer, calls ∷ [])
          else elim answer [
            | connected ↦ (returned 0, calls ∷ [])
            | in_progress ↦ connect_wait timeout added timed_out e
            | refused errno ↦ (error errno, calls ∷ [])
          ]
    ]

connect_open :
    (closed socket user : Bool) (c : FdCtx) (timeout : ℕ) (added timed_out : Bool) (e : SocketError)
    → closed ≡ false
    → socket ≡ true
    → user ≡ false
    → connect_with_timeout true
        (some (record c { is_closed = closed; is_socket = socket; user_nonblock = user }))
        timeout
        in_progress
        added
        timed_out
        e
      ≡ connect_wait timeout added timed_out e
unfolding connect_with_timeout
connect_open true socket user c timeout added timed_out e h k l = cc
connect_open false false user c timeout added timed_out e h k l = cc
connect_open false true true c timeout added timed_out e h k l = cc
connect_open false true false c timeout added timed_out e h k l = refl

-- Where the system answers `EINPROGRESS` for an open socket whose user waits: the answer is a timeout
-- if the event was added and the timer fired first, and the error of the socket otherwise, also where
-- the event could not be added and nothing was waited for. The timer is cancelled before the return.
pub connect_with_timeout-from_socket :
    (c : FdCtx) (timeout : ℕ) (added timed_out : Bool) (e : SocketError)
    → c.is_closed ≡ false
    → c.is_socket ≡ true
    → c.user_nonblock ≡ false
    → ((connect_with_timeout true (some c) timeout in_progress added timed_out e).0
        ≡ (if added && timed_out then error etimedout else from_socket e))
      × (follows between
            (connect_with_timeout true (some c) timeout in_progress added timed_out e).1
          ≡ true)
unfolding connect_wait follows
connect_with_timeout-from_socket c timeout added timed_out e h k l =
    let waits : connect_with_timeout true (some c) timeout in_progress added timed_out e
        ≡ connect_wait timeout added timed_out e =
      connect_open c.is_closed c.is_socket c.user_nonblock c timeout added timed_out e h k l in
    (ap (λ r. r.0) waits, ap (λ r. follows between r.1) waits ∙ wait_ends timeout added)
