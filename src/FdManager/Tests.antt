-- ===== src/FdManager/Tests.antt =====
-- Runs of civan/fd_manager.cc.
use civan.Common.{ℕ, ◌-◌, ◌^◌, ◌≡◌, ◌≢◌, none, some, [], ◌∷◌, true, false, arith, if◌then◌else◌}
use civan.FdManager.State.{
  FdCtx, FdManager, found, so_rcvtimeo, other_type, new_ctx, get_timeout, del,
}
use civan.FdManager.Lookup.{lookup, Gets, get-Gets, lookup-del, new_ctx_lem}

-- The context of a socket.
abbrev socket : ℕ → FdCtx
socket fd = record {
  is_init = true;
  is_socket = true;
  sys_nonblock = true;
  user_nonblock = false;
  is_closed = false;
  fd = fd;
  recv_timeout = 2 ^ 64 - 1;
  send_timeout = 2 ^ 64 - 1;
}

-- A table of 4 places, with descriptor 1.
abbrev four_places : FdManager
four_places = record { datas = none ∷ some (socket 1) ∷ none ∷ none ∷ [] }

get-Gets_example : Gets 5 true socket four_places
get-Gets_example = get-Gets 5 true socket four_places (omega arith)

lookup-del_run :
    (lookup 1 (del 1 four_places) ≡ none) × (◌≢◌ {A = ℕ} 1 2 → lookup 2 (del 1 four_places) ≡ none)
lookup-del_run = lookup-del 1 2 four_places

new_ctx_lem_run :
    let (after, c) = new_ctx (found true) false false 7 in
    (c.fd ≡ 7)
    × (c.sys_nonblock ≡ c.is_socket)
    × (c.user_nonblock ≡ false)
    × (c.is_closed ≡ false)
    × (after ≡ (if c.is_socket then true else false))
    × (get_timeout so_rcvtimeo c ≡ 2 ^ 64 - 1)
    × (get_timeout other_type c ≡ 2 ^ 64 - 1)
new_ctx_lem_run = new_ctx_lem (found true) false false 7
