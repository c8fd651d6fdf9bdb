-- ===== src/Hook/Tests.antt =====
-- Runs of the hooks of civan/hook.cc.
use civan.Common.{◌*◌, ◌≤◌, List, [], ◌∷◌, some, true, false, ◌≡◌, ◌↔◌, refl}
use civan.FdManager.State.{FdCtx, so_rcvtimeo, get_timeout, set_timeout}
use civan.Hook.Io.{
  Round, moved, interrupted, would_block, returned, calls, sets_timer, cancels_timer, adds_event,
  yields, io_loop, do_io, pass_on, set_timeout_option,
}
use civan.Hook.Flags.{Flags, set_fl, SetsMode, set_fl-SetsMode, do_io-set_fl}
use civan.Hook.Connect.{
  in_progress, socket_error, from_socket, connect_with_timeout, connect_with_timeout-from_socket,
}
use civan.Hook.Waits.{sleep_ms, sleep_ms_iff, follows, between, io_loop-follows}

abbrev open_socket : FdCtx
open_socket = record {
  is_init = true;
  is_socket = true;
  sys_nonblock = true;
  user_nonblock = false;
  is_closed = false;
  fd = 5;
  recv_timeout = 1000;
  send_timeout = 1000;
}

abbrev blocks_once : List Round
blocks_once =
    record { answer = would_block; added = true; add_errno = 0; timed_out = false }
    ∷ record { answer = interrupted; added = true; add_errno = 0; timed_out = false }
    ∷ record { answer = moved 3; added = true; add_errno = 0; timed_out = false }
    ∷ []

do_io_run : do_io true (some open_socket) so_rcvtimeo blocks_once ≡ (
  some (returned 3),
  calls ∷ sets_timer 1000 ∷ adds_event true ∷ yields ∷ cancels_timer ∷ calls ∷ calls ∷ [],
)
unfolding do_io get_timeout
do_io_run = refl

-- `SO_RCVTIMEO` of 0 asks for no timeout, but the timer is set, to 0.
zero_timeout_run : get_timeout so_rcvtimeo (set_timeout_option so_rcvtimeo 0 0 open_socket) ≡ 0
unfolding set_timeout_option get_timeout set_timeout
zero_timeout_run = refl

sleep_run : sleep_ms 4294968 ≡ 704
unfolding sleep_ms
sleep_run = refl

sleep_ms_iff_run : (sleep_ms 2 ≡ 2 * 1000) ↔ (2 ≤ 4294967)
sleep_ms_iff_run = sleep_ms_iff 2

-- Waits twice, and then `addEvent` fails.
abbrev blocks_then_fails : List Round
blocks_then_fails =
    record { answer = would_block; added = true; add_errno = 0; timed_out = false }
    ∷ record { answer = would_block; added = true; add_errno = 0; timed_out = false }
    ∷ record { answer = would_block; added = false; add_errno = 9; timed_out = false }
    ∷ []

io_loop-follows_example : follows between (io_loop 1000 blocks_then_fails).1 ≡ true
io_loop-follows_example = io_loop-follows 1000 blocks_then_fails

abbrev asks_nonblock : Flags
asks_nonblock = record { nonblock = true; other = 2 }

-- A system that keeps `O_NONBLOCK` and answers the access mode 1 that the file was opened with.
abbrev opened_for_writing : Flags → Flags
opened_for_writing given = record given { other = 1 }

set_fl-SetsMode_example :
    SetsMode opened_for_writing asks_nonblock open_socket so_rcvtimeo blocks_once
set_fl-SetsMode_example =
    set_fl-SetsMode opened_for_writing asks_nonblock open_socket so_rcvtimeo blocks_once
      (λ given. refl)

do_io-set_fl_run :
    do_io true (some (set_fl asks_nonblock open_socket).1) so_rcvtimeo blocks_once
    ≡ pass_on blocks_once
do_io-set_fl_run = do_io-set_fl asks_nonblock open_socket so_rcvtimeo blocks_once refl

-- `addEvent` fails, the socket has no error yet, and `connect` answers 0.
connect_with_timeout-from_socket_run :
    ((connect_with_timeout true (some open_socket) 5000 in_progress false false (socket_error 0)).0
      ≡ from_socket (socket_error 0))
    × (follows between
          (connect_with_timeout true
            (some open_socket)
            5000
            in_progress
            false
            false
            (socket_error 0)).1
        ≡ true)
connect_with_timeout-from_socket_run =
    connect_with_timeout-from_socket open_socket 5000 false false (socket_error 0) refl refl refl
