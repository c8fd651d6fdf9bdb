-- ===== src/IoManager/Contexts.antt =====
-- The table of descriptors of civan/iomanager.cc in order: each context agrees with its flags, and
-- `m_pendingEventCount` counts the registered events. An operation that keeps one context in order keeps
-- the table in order.
use civan.Common.{
  ℕ, zero, suc, ◌+◌, ◌-◌, ◌%◌, ◌^◌, ◌≤◌, ◌≡◌, refl, ap, sym, subst, ◌∙◌, List, [], ◌∷◌, ◌++◌,
  Option, none, some, Bool, true, false, arith, leb, if◌then◌else◌, length, get_elem?, set, take,
  replicate,
}
use civan.Common.Outcome.{Outcome, ok, undefined, ◌>>=◌, >>=-eq-ok}
use civan.IoManager.State.{FdContext, new_context, IoManager, View}
use civan.IoManager.Table.{context_resize, view, store, with_context, if_known}
use civan.IoManager.Pending.{idle, IsConsistent, registered}
use civan.IoManager.Counted.{Keeps}

abbrev pub AllConsistent : List FdContext → Type 0
AllConsistent [] = Unit {0}
AllConsistent (c ∷ cs) = IsConsistent c × AllConsistent cs

-- How many events are registered in the table.
abbrev pub total : List FdContext → ℕ
total [] = 0
total (c ∷ cs) = registered c + total cs

pub record IsValid (m : IoManager) : Type 0 where
  pub consistent : AllConsistent m.contexts
  pub counted : m.pending ≡ total m.contexts % 2 ^ 64

set-AllConsistent :
    (cs : List FdContext) (fd : ℕ) (c : FdContext)
    → AllConsistent cs
    → IsConsistent c
    → AllConsistent (set cs fd c)
set-AllConsistent [] fd c a k = tt
set-AllConsistent (x ∷ cs) zero c a k = (k, a.1)
set-AllConsistent (x ∷ cs) (suc fd) c a k = (a.0, set-AllConsistent cs fd c a.1 k)

pub get-IsConsistent :
    (cs : List FdContext) (fd : ℕ) (c : FdContext)
    → AllConsistent cs
    → get_elem? cs fd ≡ some c
    → IsConsistent c
get-IsConsistent [] fd c a e = cc
get-IsConsistent (x ∷ cs) zero c a e = subst IsConsistent (some_lem e) a.0
  where
    some_lem : some x ≡ some c → x ≡ c
    some_lem h = cc
get-IsConsistent (x ∷ cs) (suc fd) c a e = get-IsConsistent cs fd c a.1 e

-- What is registered beside one context.
abbrev others : List FdContext → ℕ → ℕ
others [] fd = 0
others (c ∷ cs) zero = total cs
others (c ∷ cs) (suc fd) = registered c + others cs fd

total-get :
    (cs : List FdContext) (fd : ℕ) (c : FdContext)
    → get_elem? cs fd ≡ some c
    → total cs ≡ registered c + others cs fd
total-get [] fd c e = cc
total-get (x ∷ cs) zero c e = ap (λ y. registered y + total cs) (some_lem e)
  where
    some_lem : some x ≡ some c → x ≡ c
    some_lem h = cc
total-get (x ∷ cs) (suc fd) c e = omega (arith, total-get cs fd c e)

total-set :
    (cs : List FdContext) (fd : ℕ) (c x : FdContext)
    → get_elem? cs fd ≡ some x
    → total (set cs fd c) ≡ registered c + others cs fd
total-set [] fd c x e = cc
total-set (y ∷ cs) zero c x e = refl
total-set (y ∷ cs) (suc fd) c x e = omega (arith, total-set cs fd c x e)

abbrev pub known :
    (Option FdContext) → ℕ → (View → Outcome (Bool × View)) → IoManager → Outcome (Bool × IoManager)
known o fd op m = elim o [ none ↦ undefined | some c ↦ op (view c m) >>= store fd m ]

pub with_context-IsValid :
    (fd : ℕ) (op : View → Outcome (Bool × View)) (m : IoManager)
    → Keeps op
    → IsValid m
    → (b : Bool) (m' : IoManager) → with_context fd op m ≡ ok (b, m')
    → IsValid m'
unfolding with_context
with_context-IsValid fd op m keeps v b m' e = go (get_elem? m.contexts fd) refl e
  where
    go :
        (o : Option FdContext)
        → get_elem? m.contexts fd ≡ o
        → known o fd op m ≡ ok (b, m')
        → IsValid m'
    go none g h = cc
    go (some c) g h =
        let ((d, u), p, q) = >>=-eq-ok (op (view c m)) (store fd m) h in
        let k =
          keeps (others m.contexts fd) (view c m)
            (record {
              consistent = get-IsConsistent m.contexts fd c v.consistent g;
              counted = v.counted ∙ ap (λ t. t % 2 ^ 64) (total-get m.contexts fd c g);
            })
            d u p in
        subst IsValid (second q) (record {
          consistent = set-AllConsistent m.contexts fd u.context v.consistent k.consistent;
          counted = k.counted ∙ ap (λ t. t % 2 ^ 64) (sym (total-set m.contexts fd u.context c g));
        })
      where
        second :
            {x y : Bool} {p q : IoManager}
            → ◌≡◌ {A = Outcome (Bool × IoManager)} (ok (x, p)) (ok (y, q))
            → p ≡ q
        second h = cc

take-AllConsistent : (n : ℕ) (cs : List FdContext) → AllConsistent cs → AllConsistent (take n cs)
take-AllConsistent zero cs a = tt
take-AllConsistent (suc n) [] a = tt
take-AllConsistent (suc n) (c ∷ cs) a = (a.0, take-AllConsistent n cs a.1)

append-AllConsistent :
    (cs ds : List FdContext) → AllConsistent cs → AllConsistent ds → AllConsistent (cs ++ ds)
append-AllConsistent [] ds a b = b
append-AllConsistent (c ∷ cs) ds a b = (a.0, append-AllConsistent cs ds a.1 b)

fresh-AllConsistent : (n : ℕ) → AllConsistent (replicate n new_context)
fresh-AllConsistent zero = tt
fresh-AllConsistent (suc n) = (record { reads_ok = idle; writes_ok = idle }, fresh-AllConsistent n)

total-fresh : (n : ℕ) → total (replicate n new_context) ≡ 0
total-fresh zero = refl
total-fresh (suc n) = omega (arith, total-fresh n)

total-append : (cs ds : List FdContext) → total (cs ++ ds) ≡ total cs + total ds
total-append [] ds = omega arith
total-append (c ∷ cs) ds = omega (arith, total-append cs ds)

total-take : (n : ℕ) (cs : List FdContext) → length cs ≤ n → total (take n cs) ≡ total cs
total-take zero [] h = refl
total-take zero (c ∷ cs) h = absurd (omega (arith, h))
total-take (suc n) [] h = refl
total-take (suc n) (c ∷ cs) h = omega (arith, total-take n cs (omega (arith, h)))

resize-total :
    (n : ℕ) (cs : List FdContext) → length cs ≤ n → total (context_resize n cs) ≡ total cs
unfolding context_resize
resize-total n cs h = omega (
  arith,
  total-append (take n cs) (replicate (n - length cs) new_context),
  total-take n cs h,
  total-fresh (n - length cs),
)

pub resize-IsValid :
    (n : ℕ) (m : IoManager)
    → length m.contexts ≤ n
    → IsValid m
    → IsValid (record m { contexts = context_resize n m.contexts })
unfolding context_resize
resize-IsValid n m h v = record {
  consistent =
      append-AllConsistent _ _ (take-AllConsistent n m.contexts v.consistent)
        (fresh-AllConsistent (n - length m.contexts));
  counted = v.counted ∙ ap (λ t. t % 2 ^ 64) (sym (resize-total n m.contexts h));
}

pub if_known-IsValid :
    (fd : ℕ) (op : View → Outcome (Bool × View)) (m : IoManager)
    → Keeps op
    → IsValid m
    → (b : Bool) (m' : IoManager) → if_known fd op m ≡ ok (b, m')
    → IsValid m'
if_known-IsValid fd op m keeps v b m' e = go (leb (length m.contexts) fd) e
  where
    go : (t : Bool) → (if t then ok (false, m) else with_context fd op m) ≡ ok (b, m') → IsValid m'
    go true h = subst IsValid (second h) v
      where
        second :
            {x y : Bool} {p q : IoManager}
            → ◌≡◌ {A = Outcome (Bool × IoManager)} (ok (x, p)) (ok (y, q))
            → p ≡ q
        second k = cc
    go false h = with_context-IsValid fd op m keeps v b m' h
