-- ===== src/ByteArray/Cursor.antt =====
-- Where the cursor of civan/bytearray.cc and the position part: writes and reads that go wrong, and
-- `toString`, which does not.
use civan.Common.{
  Bool-cases, inl, inr, ℕ, ◌+◌, ◌-◌, ◌%◌, ◌≤◌, ◌<◌, ◌≡◌, refl, ap, sym, subst, ◌∙◌, List, [], ◌∷◌,
  ◌++◌, arith, length, drop, false, ltb, ◌==◌, suc, max, length-append, length-drop, append_assoc,
}
use civan.Common.Outcome.{ok, undefined, ◌>>=◌}
use native.Mathlib.Nat.{mod-lt, mul-mod_right, mul-suc}
use civan.ByteArray.Nodes.{Node, flat, overwrite, slice}
use civan.ByteArray.State.{
  ByteArray, nodes, write, put, add_capacity, append_nodes, get_capacity, set_position, read_at,
  to_string, wrapping_sub,
}
use civan.ByteArray.Memory.{
  AllSized, AllSized-left, AllSized-right, flat-append, length-flat, overwrite_right, take_all,
  drop_all,
}
use civan.ByteArray.Loops.{Written, write_loop-Written, Reads, read_loop-Reads}
use civan.ByteArray.Invariant.{IsValid, IsAligned, contents, capacity_split, position-mod}
use civan.ByteArray.Read.{set_position-Moved, get_read_size_lem, slice-take, slice_right}
use civan.ByteArray.Append.{length-contents}

-- Behind the last node the cursor is null.
aligned_end :
    (s : ByteArray) (xs : List Node)
    → s.ahead ≡ xs
    → IsValid s
    → IsAligned s
    → s.position ≡ s.capacity
    → xs ≡ []
aligned_end s [] e v a p = refl
aligned_end s (x ∷ xs) e v a p =
    let sized =
      subst (AllSized s.base_size) e (AllSized-right s.base_size s.passed s.ahead v.sized) in
    absurd (
      omega (
        arith,
        capacity_split s v,
        ap (λ ns. length (flat ns)) e,
        length-append x (flat xs),
        sized,
        a.to,
      ))

write_at_null :
    (buf : List ℕ) (s : ByteArray)
    → 0 < length buf
    → IsValid s
    → s.position ≡ s.capacity
    → s.ahead ≡ []
    → write buf s ≡ undefined
unfolding write add_capacity append_nodes get_capacity
write_at_null buf s n v full null =
    let none_free : get_capacity s ≡ 0 =
      unfold get_capacity in omega (arith, v.fits, v.position_le) in
    ground (arith, none_free)

-- After `setPosition` to the end of the memory `m_cur` is null, and a write of any bytes follows it:
-- `addCapacity` looks for the last node from `m_cur`.
pub write-set_position_end :
    (buf : List ℕ) (s : ByteArray)
    → IsValid s
    → 0 < length buf
    → (set_position s.capacity s >>= write buf) ≡ undefined
write-set_position_end buf s v n =
    let to_end = set_position-Moved s.capacity s v (omega arith) in
    rw to_end.returns (
      write_at_null buf to_end.after n to_end.valid
        (omega (arith, to_end.moved, to_end.capacity_kept))
        (aligned_end to_end.after to_end.after.ahead refl to_end.valid to_end.aligned
          (omega (arith, to_end.moved, to_end.capacity_kept))))

-- A write that follows one which ended at the end of a node, with a node behind it.
module _ (buf : List ℕ) (s : ByteArray) (v : IsValid s)
    (lags : s.position ≡ length (flat s.passed) + s.base_size) (some_bytes : 0 < length buf)
    (room : s.position + length buf ≤ s.capacity) where
  offset : s.position % s.base_size ≡ 0
  offset =
      let e =
        length-flat s.base_size s.passed (AllSized-left s.base_size s.passed s.ahead v.sized) in
      ap (λ p. p % s.base_size)
        (lags ∙ ap (λ n. n + s.base_size) e ∙ sym (mul-suc s.base_size (length s.passed)))
      ∙ mul-mod_right s.base_size (suc (length s.passed))

  run : Written s.base_size s.ahead 0 buf
  run =
      write_loop-Written s.base_size s.ahead 0 buf
        (AllSized-right s.base_size s.passed s.ahead v.sized) (omega arith) some_bytes
        (omega (arith, capacity_split s v))

  enough : add_capacity (length buf) s ≡ ok s
  unfolding add_capacity get_capacity
  enough = ground (arith, v.fits)

  not_empty : (length buf == 0) ≡ false
  not_empty = ground arith

  -- Where the position is at the end of the node of the cursor, as a write that fills it leaves them,
  -- and there is room behind, the next write lays its bytes one node too early, over those just
  -- written, while the position moves on.
  pub write_lagging :
      (after : ByteArray) × (write buf s ≡ ok after)
      × (flat (nodes after) ≡ overwrite (flat (nodes s)) (s.position - s.base_size) buf)
      × (after.position ≡ s.position + length buf)
  unfolding write put
  write_lagging = (
    record s {
      passed = s.passed ++ run.passed;
      ahead = run.left;
      position = s.position + length buf;
      size = max (s.position + length buf) s.size;
    },
    rw (not_empty, enough) (rw (offset, run.returns, put)),
    ground (
      arith,
      append_assoc s.passed run.passed run.left,
      flat-append s.passed (run.passed ++ run.left),
      flat-append s.passed s.ahead,
      overwrite_right (flat s.passed) (flat s.ahead) (s.position - s.base_size) buf,
      run.memory,
      lags,
    ),
    refl,
  )

-- `read` with a position of its own, from an aligned cursor: the bytes come from the node of the
-- cursor, at the offset that the position has in its own node.
module _ (n p : ℕ) (s : ByteArray) (v : IsValid s) (a : IsAligned s) (some_bytes : 0 < n)
    (enough : p + n ≤ s.size)
    (room : length (flat s.passed) + p % s.base_size + n ≤ s.capacity) where
  at_run : Reads s.base_size s.ahead (p % s.base_size) n
  at_run =
      read_loop-Reads s.base_size s.ahead (p % s.base_size) n
        (AllSized-right s.base_size s.passed s.ahead v.sized) (mod-lt p v.base_pos) some_bytes
        (omega (arith, capacity_split s v))

  in_size : ltb (wrapping_sub s.size p) n ≡ false
  in_size = ground (arith, v.fits, v.size_le)

  -- From an aligned cursor `read` with a position of its own reads from the node of the cursor, at the
  -- offset that this position has in its own node, where there are enough bytes.
  pub read_at_lem :
      read_at n p s ≡ ok (slice (flat (nodes s)) (length (flat s.passed) + p % s.base_size) n)
  unfolding read_at
  read_at_lem =
      rw (in_size, at_run.returns, read_at)
        (ground (
          arith,
          flat-append s.passed s.ahead,
          slice_right (flat s.passed) (flat s.ahead) (length (flat s.passed) + p % s.base_size) n,
        ))

-- From an aligned cursor of a valid array `toString` gives the bytes that are still to be read, and leaves them.
pub to_string_lem :
    (s : ByteArray) → IsValid s → IsAligned s → to_string s ≡ ok (drop s.position (contents s))
unfolding to_string
to_string_lem s v a = elim (Bool-cases (s.size == s.position)) [
  | inl none_left ↦
      ground (arith, get_read_size_lem s v, drop_all s.position (contents s), length-contents s v)
  | inr some_left ↦
      let n = s.size - s.position in
      let offset_eq = position-mod s v a in
      let got =
        read_at_lem n s.position s v a (ground (arith, v.position_le))
          (omega (arith, v.position_le))
          (omega (arith, offset_eq, a.from, v.size_le, v.position_le)) in
      ground (
        arith,
        get_read_size_lem s v,
        got,
        offset_eq,
        a.from,
        slice-take (flat (nodes s)) s.size s.position n,
        take_all n (drop s.position (contents s)),
        length-drop s.position (contents s),
        length-contents s v,
      )
]
