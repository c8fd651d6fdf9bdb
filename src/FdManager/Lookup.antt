-- ===== src/FdManager/Lookup.antt =====
-- `FdManager` of civan/fd_manager.cc as a map from descriptors to contexts.
use civan.Common.{
  ℕ, zero, suc, ◌-◌, ◌*◌, ◌/◌, ◌^◌, ◌≤◌, ◌<◌, ◌≡◌, ◌≢◌, refl, ap, sym, ◌∙◌, ◌⊎◌, inl, inr, List, [],
  ◌∷◌, ◌++◌, Option, none, some, Bool, true, false, arith, ltb, leb, if◌then◌else◌, length,
  get_elem?, set, take, replicate, Bool-cases, Option-cases, get_elem?-set_self, get_elem?-set_ne,
  length-append, length-take, length-replicate, length-set,
}
use civan.Common.Outcome.{Outcome, ok, undefined}
use civan.FdManager.State.{
  FdCtx, FdManager, Stat, fails, found, so_rcvtimeo, other_type, resize, new_ctx, init, put_ctx,
  pointer, get, del, get_timeout,
}

-- The abstract view: the context of a descriptor, where there is one.
abbrev pub lookup : ℕ → FdManager → Option FdCtx
lookup fd m = pointer (get_elem? m.datas fd)

get_elem?-nulls : (n i : ℕ) → pointer (get_elem? (replicate n none) i) ≡ none
get_elem?-nulls zero i = refl
get_elem?-nulls (suc n) zero = refl
get_elem?-nulls (suc n) (suc i) = get_elem?-nulls n i

get_elem?-resize :
    (size i : ℕ) (ds : List (Option FdCtx))
    → length ds ≤ size
    → pointer (get_elem? (take size ds ++ replicate (size - length ds) none) i)
      ≡ pointer (get_elem? ds i)
get_elem?-resize zero i [] h = refl
get_elem?-resize zero i (d ∷ ds) h = absurd (omega (arith, h))
get_elem?-resize (suc size) i [] h = get_elem?-nulls (suc size - 0) i
get_elem?-resize (suc size) zero (d ∷ ds) h = refl
get_elem?-resize (suc size) (suc i) (d ∷ ds) h =
    ap (λ n. pointer (get_elem? (take size ds ++ replicate n none) i)) (omega arith)
    ∙ get_elem?-resize size i ds (omega (arith, h))

-- What a call of `get` leaves.
pub record Gets (fd : ℕ) (auto_create : Bool) (ctx : ℕ → FdCtx) (m : FdManager) : Type 0 where
  pub answer : Option FdCtx
  pub after : FdManager
  pub returns : get (some fd) auto_create ctx m ≡ ok (answer, after)
  pub here : lookup fd after ≡ answer
  pub created : answer ≡ (
      if auto_create
      then (elim (lookup fd m) [ none ↦ some (ctx fd) | some c ↦ some c ])
      else lookup fd m)
  pub others : (i : ℕ) → fd ≢ i → lookup i after ≡ lookup i m
  pub room : length m.datas ≤ length after.datas

length-resize :
    (size : ℕ) (ds : List (Option FdCtx))
    → length ds ≤ size
    → length (take size ds ++ replicate (size - length ds) none) ≡ size
length-resize size ds h = omega (
  arith,
  length-append (take size ds) (replicate (size - length ds) none),
  length-take size ds,
  length-replicate {A = Option FdCtx} (size - length ds) none,
)

-- The table with room for a descriptor.
abbrev roomy : ℕ → FdManager → List (Option FdCtx)
roomy fd m = if leb (length m.datas) fd then resize (fd * 3 / 2) m.datas else m.datas

-- A table that holds what the manager has, with room for a descriptor.
record IsRoomy (fd : ℕ) (m : FdManager) (ds : List (Option FdCtx)) : Type 0 where
  long : fd < length ds
  grown : length m.datas ≤ length ds
  same : (i : ℕ) → pointer (get_elem? ds i) ≡ lookup i m

roomy_lem : (fd : ℕ) (m : FdManager) → 2 ≤ length m.datas → IsRoomy fd m (roomy fd m)
unfolding resize
roomy_lem fd m two = go (leb (length m.datas) fd) refl
  where
    go :
        (t : Bool)
        → leb (length m.datas) fd ≡ t
        → IsRoomy fd m (if t then resize (fd * 3 / 2) m.datas else m.datas)
    go true short =
        let wide : length m.datas ≤ fd * 3 / 2 = ground (arith, short) in
        let long = length-resize (fd * 3 / 2) m.datas wide in
        record {
          long = ground (arith, short, long);
          grown = omega (arith, long);
          same = λ i. get_elem?-resize (fd * 3 / 2) i m.datas wide;
        }
    go false enough = record {
      long = ground (arith, enough);
      grown = omega arith;
      same = λ i. refl;
    }

put_ctx_lem :
    (fd : ℕ) (c : FdCtx) (m : FdManager)
    → 2 ≤ length m.datas
    → put_ctx fd c m ≡ ok (some c, record { datas = set (roomy fd m) fd (some c) })
unfolding put_ctx
put_ctx_lem fd c m two = go (ltb fd (length (roomy fd m))) refl
  where
    go :
        (t : Bool)
        → ltb fd (length (roomy fd m)) ≡ t
        → ◌≡◌ {A = Outcome (Option FdCtx × FdManager)}
            (if t then ok (some c, record { datas = set (roomy fd m) fd (some c) }) else undefined)
            (ok (some c, record { datas = set (roomy fd m) fd (some c) }))
    go true h = refl
    go false h = absurd (ground (arith, h, (roomy_lem fd m two).long))

-- A context that is made new.
made :
    (fd : ℕ) (ctx : ℕ → FdCtx) (m : FdManager)
    → 2 ≤ length m.datas
    → lookup fd m ≡ none
    → get (some fd) true ctx m ≡ put_ctx fd (ctx fd) m
    → Gets fd true ctx m
made fd ctx m two empty e =
    let r = roomy_lem fd m two in
    record {
      answer = some (ctx fd);
      after = record { datas = set (roomy fd m) fd (some (ctx fd)) };
      returns = e ∙ put_ctx_lem fd (ctx fd) m two;
      here = ap pointer (get_elem?-set_self (roomy fd m) fd (some (ctx fd)) r.long);
      created = rw empty refl;
      others = λ i ne. ap pointer (get_elem?-set_ne (roomy fd m) (some (ctx fd)) ne) ∙ r.same i;
      room = omega (arith, r.grown, length-set (roomy fd m) fd (some (ctx fd)));
    }

-- What is answered as it is there.
there :
    (fd : ℕ) (auto_create : Bool) (ctx : ℕ → FdCtx) (m : FdManager)
    → (if auto_create
        then (elim (lookup fd m) [ none ↦ some (ctx fd) | some c ↦ some c ])
        else lookup fd m)
      ≡ lookup fd m
    → get (some fd) auto_create ctx m ≡ ok (lookup fd m, m)
    → Gets fd auto_create ctx m
there fd auto_create ctx m created e = record {
  answer = lookup fd m;
  after = m;
  returns = e;
  here = refl;
  created = sym created;
  others = λ i ne. refl;
  room = omega arith;
}

beyond : (ds : List (Option FdCtx)) (i : ℕ) → length ds ≤ i → pointer (get_elem? ds i) ≡ none
beyond [] i h = refl
beyond (d ∷ ds) zero h = absurd (omega (arith, h))
beyond (d ∷ ds) (suc i) h = beyond ds i (omega (arith, h))

-- `get` of a descriptor returns its context; with `auto_create` it makes one where there is none. What
-- it answers is in the table after it, and the contexts of other descriptors are as they were. (The
-- table has two places at least, as it has from the constructor on.)
pub get-Gets :
    (fd : ℕ) (auto_create : Bool) (ctx : ℕ → FdCtx) (m : FdManager)
    → 2 ≤ length m.datas
    → Gets fd auto_create ctx m
unfolding get
get-Gets fd auto_create ctx m two =
    go auto_create (Bool-cases (leb (length m.datas) fd)) (Option-cases (lookup fd m))
  where
    go :
        (auto : Bool)
        → (leb (length m.datas) fd ≡ true) ⊎ (leb (length m.datas) fd ≡ false)
        → (lookup fd m ≡ none) ⊎ ((c : FdCtx) × (lookup fd m ≡ some c))
        → Gets fd auto ctx m
    go true (inl short) (inl empty) = made fd ctx m two empty (rw (short, get) refl)
    go true (inr long) (inl empty) = made fd ctx m two empty (rw (long, get) (rw empty refl))
    go false (inl short) (inl empty) = there fd false ctx m refl (rw (short, get) (rw empty refl))
    go false (inr long) (inl empty) = there fd false ctx m refl (rw (long, get) (rw empty refl))
    go auto (inl short) (inr (c, full)) =
        absurd (nothing (sym full ∙ beyond m.datas fd (ground (arith, short))))
      where
        nothing : {x : FdCtx} → some x ≡ none → ⊥
        nothing h = cc
    go true (inr long) (inr (c, full)) =
        there fd true ctx m (rw full refl) (rw (long, get) (rw full refl))
    go false (inr long) (inr (c, full)) = there fd false ctx m refl (rw (long, get) (rw full refl))

-- After `del` a descriptor has no context, and other descriptors have what they had.
pub lookup-del :
    (fd i : ℕ) (m : FdManager)
    → (lookup fd (del fd m) ≡ none) × (fd ≢ i → lookup i (del fd m) ≡ lookup i m)
unfolding del
lookup-del fd i m = go (leb (length m.datas) fd) refl
  where
    go :
        (t : Bool)
        → leb (length m.datas) fd ≡ t
        → (lookup fd (if t then m else record { datas = set m.datas fd none }) ≡ none)
          × (fd ≢ i
              → lookup i (if t then m else record { datas = set m.datas fd none }) ≡ lookup i m)
    go true short = (beyond m.datas fd (ground (arith, short)), λ ne. refl)
    go false long = (
      ap pointer (get_elem?-set_self m.datas fd none (ground (arith, long))),
      λ ne. ap pointer (get_elem?-set_ne m.datas none ne),
    )

-- A new context: the descriptor, and both timeouts at the largest value; a socket is made not to
-- block, by the system and in its context, and the flag of another descriptor is left.
pub new_ctx_lem :
    (stat : Stat) (flag closed : Bool) (fd : ℕ)
    → let (after, c) = new_ctx stat flag closed fd in
      (c.fd ≡ fd)
      × (c.sys_nonblock ≡ c.is_socket)
      × (c.user_nonblock ≡ false)
      × (c.is_closed ≡ false)
      × (after ≡ (if c.is_socket then true else flag))
      × (get_timeout so_rcvtimeo c ≡ 2 ^ 64 - 1)
      × (get_timeout other_type c ≡ 2 ^ 64 - 1)
unfolding new_ctx init get_timeout
new_ctx_lem fails flag closed fd = (refl, refl, refl, refl, refl, refl, refl)
new_ctx_lem (found socket) flag closed fd = (refl, refl, refl, refl, refl, refl, refl)
