-- ===== src/ByteArray/Append.antt =====
-- A byte array that is only written at its end, as a new one is.
use civan.Common.{
  ℕ, ◌+◌, ◌^◌, ◌≤◌, ◌<◌, ◌≡◌, ◌≢◌, refl, ap, sym, ◌∙◌, inl, inr, List, [], ◌∷◌, ◌++◌, arith, length,
  length-append, length-take, Bool-cases, ltb, append_assoc, append-nil,
}
use civan.Common.Outcome.{Outcome, ok, ◌>>=◌}
use civan.ByteArray.Nodes.{Node, flat}
use civan.ByteArray.State.{ByteArray, nodes, write, create}
use civan.ByteArray.Memory.{AllSized-right, take_all, drop_all, splice}
use civan.ByteArray.Invariant.{IsValid, IsSeated, contents, capacity_split, create-IsValid}
use civan.ByteArray.Write.{Wrote, write-Wrote}

pub record IsAppending (s : ByteArray) : Type 0 where
  pub valid : IsValid s
  pub seat : IsSeated s
  pub at_end : s.position ≡ s.size
  pub tight : s.capacity ≤ s.position + s.base_size

-- A call that adds `buf` at the end.
pub record Appends (buf : List ℕ) (s : ByteArray) (call : Outcome ByteArray) : Type 0 where
  pub after : ByteArray
  pub returns : call ≡ ok after
  pub appending : IsAppending after
  pub view : contents after ≡ contents s ++ buf
  pub moved : after.position ≡ s.position + length buf
  pub base_kept : after.base_size ≡ s.base_size
  pub endian_kept : after.endian ≡ s.endian

pub length-contents : (s : ByteArray) → IsValid s → length (contents s) ≡ s.size
length-contents s v = omega (arith, length-take s.size (flat (nodes s)), v.size_le, v.holds)

-- A cursor that lags at the end of its node is in the last node, where less than a node is free.
lag_is_end :
    (s : ByteArray) (xs : List Node)
    → s.ahead ≡ xs
    → xs ≢ []
    → IsValid s
    → s.position ≡ length (flat s.passed) + s.base_size
    → s.capacity < s.position + s.base_size
    → s.position ≡ s.capacity
lag_is_end s [] e ne v p t = absurd (ne refl)
lag_is_end s (x ∷ []) e ne v p t =
    let sized = rw e at (AllSized-right s.base_size s.passed s.ahead v.sized) in
    omega (arith, capacity_split s v, ap (λ ns. length (flat ns)) e, length-append x [], sized)
lag_is_end s (x ∷ y ∷ rest) e ne v p t =
    let sized = rw e at (AllSized-right s.base_size s.passed s.ahead v.sized) in
    omega (
      arith,
      capacity_split s v,
      ap (λ ns. length (flat ns)) e,
      length-append x (y ++ flat rest),
      length-append y (flat rest),
      sized,
    )

splice_end :
    (bytes : List ℕ) (pos : ℕ) (buf : List ℕ)
    → length bytes ≡ pos
    → splice bytes pos buf ≡ bytes ++ buf
splice_end bytes pos buf e =
    ground (arith, take_all pos bytes, drop_all (pos + length buf) bytes, append-nil buf)

module _ (buf : List ℕ) (s : ByteArray) (w : IsAppending s) (some_bytes : 0 < length buf)
    (limit : s.position + length buf + s.base_size ≤ 2 ^ 53) where
  wrote : Wrote buf s
  wrote = write-Wrote buf s w.valid w.seat some_bytes limit

  still_tight : wrote.after.capacity < wrote.after.position + wrote.after.base_size
  still_tight = omega (arith, wrote.tight, wrote.moved, wrote.base_kept, w.tight)

  still-IsSeated : IsSeated wrote.after
  still-IsSeated = record {
    node = wrote.node;
    from = omega (arith, wrote.from);
    to =
        elim (Bool-cases
          (ltb wrote.after.position (length (flat wrote.after.passed) + wrote.after.base_size))) [
            | inl inside ↦ inl (ground arith)
            | inr lags ↦ inr (
                lag_is_end wrote.after wrote.after.ahead refl wrote.node wrote.valid
                  (ground (arith, wrote.to)) still_tight)
          ];
  }

  write_some : Appends buf s (write buf s)
  write_some = record {
    after = wrote.after;
    returns = wrote.returns;
    appending = record {
      valid = wrote.valid;
      seat = still-IsSeated;
      at_end = omega (arith, wrote.moved, wrote.sized, w.at_end);
      tight = omega (arith, still_tight);
    };
    view =
        wrote.view
        ∙ splice_end (contents s) s.position buf (length-contents s w.valid ∙ sym w.at_end);
    moved = wrote.moved;
    base_kept = wrote.base_kept;
    endian_kept = wrote.endian_kept;
  }

-- `write` on an array that is only written at its end returns, appends the bytes to the contents (also
-- where there are none), and leaves such an array, where the memory stays within 2 ^ 53.
pub write-Appends :
    (buf : List ℕ) (s : ByteArray)
    → IsAppending s
    → s.position + length buf + s.base_size ≤ 2 ^ 53
    → Appends buf s (write buf s)
unfolding write
write-Appends [] s w limit = record {
  after = s;
  returns = refl;
  appending = w;
  view = sym (append-nil (contents s));
  moved = omega arith;
  base_kept = refl;
  endian_kept = refl;
}
write-Appends (b ∷ buf) s w limit = write_some (b ∷ buf) s w (omega arith) limit

-- Two such calls in a row.
pub Appends-then :
    (x y : List ℕ) (s : ByteArray) (m : Outcome ByteArray) (k : ByteArray → Outcome ByteArray)
    → (first : Appends x s m) → Appends y first.after (k first.after)
    → Appends (x ++ y) s (m >>= k)
Appends-then x y s m k first next = record {
  after = next.after;
  returns = rw first.returns next.returns;
  appending = next.appending;
  view = next.view ∙ rw first.view (append_assoc (contents s) x y);
  moved = omega (arith, next.moved, first.moved, length-append x y);
  base_kept = next.base_kept ∙ first.base_kept;
  endian_kept = next.endian_kept ∙ first.endian_kept;
}

pub create-IsAppending : (fill base : ℕ) → 0 < base → base < 2 ^ 64 → IsAppending (create fill base)
create-IsAppending fill base b h = record {
  valid = create-IsValid fill base b h;
  seat = unfold create in record { node = λ e. cc; from = omega arith; to = inl (omega arith) };
  at_end = unfold create in refl;
  tight = unfold create in omega arith;
}
