-- ===== src/FdManager/State.antt =====
-- `FdCtx` and `FdManager` of civan/fd_manager.cc. The locks make each operation one step. What
-- `fstat` and `fcntl` answer is an argument. A descriptor is -1 or not negative.
use civan.Common.{
  ℕ, ◌-◌, ◌*◌, ◌/◌, ◌^◌, List, [], ◌++◌, Option, none, some, Bool, true, false, ltb, leb,
  if◌then◌else◌, length, get_elem?, set, take, replicate,
}
use civan.Common.Outcome.{Outcome, ok, undefined}

pub record FdCtx : Type 0 where
  pub is_init : Bool
  pub is_socket : Bool
  pub sys_nonblock : Bool
  pub user_nonblock : Bool
  pub is_closed : Bool
  pub fd : ℕ
  pub recv_timeout : ℕ
  pub send_timeout : ℕ

-- What `fstat` says of a descriptor: that it fails, or whether it is a socket.
pub data Stat : Type 0 where
  fails : Stat
  found : (socket : Bool) → Stat

-- `init`. The Booleans are `O_NONBLOCK` of the descriptor before it and after it.
unfoldable pub init : Stat → Bool → FdCtx → Bool × FdCtx
init stat flag c = if c.is_init then (flag, c) else (elim stat [
  | fails ↦ (
    flag,
    record c {
      is_init = false;
      is_socket = false;
      sys_nonblock = false;
      user_nonblock = false;
      is_closed = false;
    },
  )
  | found socket ↦ (
    if socket then true else flag,
    record c {
      is_init = true;
      is_socket = socket;
      sys_nonblock = socket;
      user_nonblock = false;
      is_closed = false;
    },
  )
])

-- The constructor; `closed` is what the bit `m_isClosed` holds before `init`. A timeout of -1 is the
-- largest `uint64_t`.
unfoldable pub new_ctx : Stat → Bool → Bool → ℕ → Bool × FdCtx
unfolding init
new_ctx stat flag closed fd = init stat flag (record {
  is_init = false;
  is_socket = false;
  sys_nonblock = false;
  user_nonblock = false;
  is_closed = closed;
  fd = fd;
  recv_timeout = 2 ^ 64 - 1;
  send_timeout = 2 ^ 64 - 1;
})

-- `SO_RCVTIMEO`, and any other type.
pub data TimeoutType : Type 0 where
  so_rcvtimeo other_type : TimeoutType

unfoldable pub set_timeout : TimeoutType → ℕ → FdCtx → FdCtx
set_timeout so_rcvtimeo v c = record c { recv_timeout = v }
set_timeout other_type v c = record c { send_timeout = v }

unfoldable pub get_timeout : TimeoutType → FdCtx → ℕ
get_timeout so_rcvtimeo c = c.recv_timeout
get_timeout other_type c = c.send_timeout

-- `m_datas`: a null pointer is `none`.
pub record FdManager : Type 0 where
  pub datas : List (Option FdCtx)

-- `m_datas.resize(size)`.
unfoldable pub resize : ℕ → List (Option FdCtx) → List (Option FdCtx)
resize size ds = take size ds ++ replicate (size - length ds) none

unfoldable pub new_manager : FdManager
unfolding resize
new_manager = record { datas = resize 64 [] }

-- The part of `get` that makes a context. `m_datas[fd]` out of range is undefined.
unfoldable pub put_ctx : ℕ → FdCtx → FdManager → Outcome (Option FdCtx × FdManager)
put_ctx fd ctx m =
    let ds = if leb (length m.datas) fd then resize (fd * 3 / 2) m.datas else m.datas in
    if ltb fd (length ds) then ok (some ctx, record { datas = set ds fd (some ctx) }) else undefined

-- `m_datas[fd]` within range.
abbrev pub pointer : Option (Option FdCtx) → Option FdCtx
pointer none = none
pointer (some p) = p

-- `get(fd, auto_create)`; `fd` is `none` for -1, and `ctx` the context that `new FdCtx(fd)` makes.
unfoldable pub get : Option ℕ → Bool → (ℕ → FdCtx) → FdManager → Outcome (Option FdCtx × FdManager)
get none auto_create ctx m = ok (none, m)
get (some fd) auto_create ctx m =
    if leb (length m.datas) fd
    then (if auto_create then put_ctx fd (ctx fd) m else ok (none, m))
    else (elim (pointer (get_elem? m.datas fd)) [
      | some c ↦ ok (some c, m)
      | none ↦ if auto_create then put_ctx fd (ctx fd) m else ok (none, m)
    ])

-- `del(fd)` of a descriptor that is not negative.
unfoldable pub del : ℕ → FdManager → FdManager
del fd m = if leb (length m.datas) fd then m else record { datas = set m.datas fd none }
