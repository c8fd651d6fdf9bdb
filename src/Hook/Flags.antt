-- ===== src/Hook/Flags.antt =====
-- `fcntl` with `F_SETFL` and `F_GETFL`, and `ioctl` with `FIONBIO`, of civan/hook.cc. Flags are
-- `O_NONBLOCK` and the other bits.
use civan.Common.{
  ℕ, List, some, Bool, true, false, not, ◌||◌, if◌then◌else◌, ◌≡◌, refl, ap, ◌∙◌, inl, inr,
  Bool-cases, arith,
}
use civan.FdManager.State.{FdCtx, TimeoutType, get_timeout, so_rcvtimeo, other_type}
use civan.Hook.Io.{Round, do_io, pass_on, io_loop}

pub record Flags : Type 0 where
  pub nonblock : Bool
  pub other : ℕ

-- The test `!ctx || ctx->isClose() || !ctx->isSocket()` for a context that is there.
abbrev pub is_passed : FdCtx → Bool
is_passed ctx = ctx.is_closed || not ctx.is_socket

-- `F_SETFL`: the flags that the system gets, and the context afterwards.
unfoldable pub set_fl : Flags → FdCtx → Flags × FdCtx
set_fl arg ctx =
    if is_passed ctx
    then (arg, ctx)
    else (record arg { nonblock = ctx.sys_nonblock }, record ctx { user_nonblock = arg.nonblock })

-- `F_GETFL`, where the system has answered `arg`.
unfoldable pub get_fl : Flags → FdCtx → Flags
get_fl arg ctx = if is_passed ctx then arg else record arg { nonblock = ctx.user_nonblock }

-- `ioctl` of `FIONBIO`: the system gets `arg` as it is.
unfoldable pub set_fionbio : Bool → FdCtx → Bool × FdCtx
set_fionbio arg ctx =
    if is_passed ctx then (arg, ctx) else (arg, record ctx { user_nonblock = arg })

open_parts : (a b : Bool) → (a || not b) ≡ false → (a ≡ false) × (b ≡ true)
open_parts true b h = cc
open_parts false true h = (refl, refl)
open_parts false false h = cc

set_fl_open :
    (arg : Flags) (ctx : FdCtx)
    → is_passed ctx ≡ false
    → (set_fl arg ctx).1 ≡ record ctx { user_nonblock = arg.nonblock }
unfolding set_fl
set_fl_open arg ctx h =
    let branch : Bool → Flags × FdCtx = λ passed. if passed then (arg, ctx) else (
      record arg { nonblock = ctx.sys_nonblock },
      record ctx { user_nonblock = arg.nonblock },
    ) in
    ap (λ passed. (branch passed).1) h

-- The branches of `do_io` for a context that has not changed but for `m_userNonblock`.
do_io_open :
    (closed socket user : Bool) (ctx : FdCtx) (timeout_so : TimeoutType) (rounds : List Round)
    → closed ≡ false
    → socket ≡ true
    → do_io true
        (some (record ctx { is_closed = closed; is_socket = socket; user_nonblock = user }))
        timeout_so
        rounds
      ≡ (if user then pass_on rounds else io_loop (get_timeout timeout_so ctx) rounds)
unfolding do_io get_timeout
do_io_open true socket user ctx timeout_so rounds h k = cc
do_io_open false false user ctx timeout_so rounds h k = cc
do_io_open false true true ctx timeout_so rounds h k = refl
do_io_open false true false ctx so_rcvtimeo rounds h k = refl
do_io_open false true false ctx other_type rounds h k = refl

-- After `F_SETFL` on an open socket a read or write goes straight to the system if the caller asked for
-- `O_NONBLOCK`, and waits in the loop of `do_io` if it did not.
pub do_io-set_fl :
    (arg : Flags) (ctx : FdCtx) (timeout_so : TimeoutType) (rounds : List Round)
    → is_passed ctx ≡ false
    → do_io true (some (set_fl arg ctx).1) timeout_so rounds
      ≡ (if arg.nonblock then pass_on rounds else io_loop (get_timeout timeout_so ctx) rounds)
do_io-set_fl arg ctx timeout_so rounds h =
    ap (λ ctx'. do_io true (some ctx') timeout_so rounds) (set_fl_open arg ctx h)
    ∙ do_io_open ctx.is_closed ctx.is_socket arg.nonblock ctx timeout_so rounds
        (open_parts ctx.is_closed ctx.is_socket h).0 (open_parts ctx.is_closed ctx.is_socket h).1

-- What the system answers to `F_GETFL` after it got flags with `F_SETFL`: `O_NONBLOCK` is one of the flags
-- that fcntl(2) says are set; of the others it keeps some.
abbrev pub KeepsMode : (Flags → Flags) → Type 0
KeepsMode status = (given : Flags) → (status given).nonblock ≡ given.nonblock

-- A caller that sets flags and asks for them, over any system that keeps `O_NONBLOCK`.
pub record SetsMode (status : Flags → Flags) (arg : Flags) (ctx : FdCtx) (timeout_so : TimeoutType)
    (rounds : List Round) : Type 0 where
  pub sees_own : (get_fl (status (set_fl arg ctx).0) (set_fl arg ctx).1).nonblock ≡ arg.nonblock
  pub sees_others :
      (get_fl (status (set_fl arg ctx).0) (set_fl arg ctx).1).other
      ≡ (status (set_fl arg ctx).0).other
  pub keeps_library :
      is_passed ctx ≡ false → (status (set_fl arg ctx).0).nonblock ≡ ctx.sys_nonblock
  pub waits_or_not :
      is_passed ctx ≡ false
      → do_io true (some (set_fl arg ctx).1) timeout_so rounds
        ≡ (if arg.nonblock then pass_on rounds else io_loop (get_timeout timeout_so ctx) rounds)

-- The claim, by the test of the context, which `F_SETFL` does not change.
by_test :
    (status : Flags → Flags) (arg : Flags) (ctx : FdCtx)
    → KeepsMode status
    → ((get_fl (status (set_fl arg ctx).0) (set_fl arg ctx).1).nonblock ≡ arg.nonblock)
      × ((get_fl (status (set_fl arg ctx).0) (set_fl arg ctx).1).other
          ≡ (status (set_fl arg ctx).0).other)
      × ((status (set_fl arg ctx).0).nonblock
          ≡ (if is_passed ctx then arg.nonblock else ctx.sys_nonblock))
unfolding get_fl set_fl
by_test status arg ctx k =
    let opened = record arg { nonblock = ctx.sys_nonblock } in
    elim (Bool-cases ctx.is_closed) [
      | inl e ↦ (
        ground (arith, k arg, k opened),
        ground (arith, k arg, k opened),
        ground (arith, k arg, k opened),
      )
      | inr e ↦ elim (Bool-cases ctx.is_socket) [
        | inl h ↦ (
          ground (arith, k arg, k opened),
          ground (arith, k arg, k opened),
          ground (arith, k arg, k opened),
        )
        | inr h ↦ (
          ground (arith, k arg, k opened),
          ground (arith, k arg, k opened),
          ground (arith, k arg, k opened),
        )
      ]
    ]

-- Over any system that keeps `O_NONBLOCK`: a caller that sets flags with `F_SETFL` sees its own
-- `O_NONBLOCK` with `F_GETFL`, and of the other flags what the system answers. Of an open socket the
-- system has the mode that the library chose, and a hooked read or write goes straight to the system if
-- the caller asked for `O_NONBLOCK`, and waits in the loop of `do_io` if it did not.
pub set_fl-SetsMode :
    (status : Flags → Flags) (arg : Flags) (ctx : FdCtx) (timeout_so : TimeoutType)
    (rounds : List Round)
    → KeepsMode status
    → SetsMode status arg ctx timeout_so rounds
set_fl-SetsMode status arg ctx timeout_so rounds k =
    let (own, others, mode) = by_test status arg ctx k in
    record {
      sees_own = own;
      sees_others = others;
      keeps_library = λ e. mode ∙ ap (λ b. if b then arg.nonblock else ctx.sys_nonblock) e;
      waits_or_not = do_io-set_fl arg ctx timeout_so rounds;
    }
