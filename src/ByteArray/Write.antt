-- ===== src/ByteArray/Write.antt =====
-- `ByteArray::write`, against the array seen as one run of bytes with a position.
use civan.Common.{
  ℕ, ◌+◌, ◌-◌, ◌%◌, ◌^◌, ◌≤◌, ◌<◌, ◌≡◌, ◌≢◌, refl, ap, sym, ◌∙◌, ◌⊎◌, List, [], ◌++◌, arith, length,
  max, length-append, ◌==◌, append_assoc, append-nil, false,
}
use civan.Common.Outcome.{ok}
use civan.ByteArray.Nodes.{flat, overwrite}
use civan.ByteArray.State.{ByteArray, nodes, write, put}
use civan.ByteArray.Memory.{
  AllSized, AllSized-append, AllSized-left, AllSized-right, flat-append, length-overwrite,
  overwrite_right, splice, take-overwrite-splice,
}
use civan.ByteArray.Loops.{Written, write_loop-Written}
use civan.ByteArray.Invariant.{
  right_nil, IsValid, IsAligned, IsSeated, contents, position-mod, capacity_split, Grown,
  add_capacity-Grown,
}

-- What a write of `buf` leaves. The cursor is in the node that took the last byte.
pub record Wrote (buf : List ℕ) (s : ByteArray) : Type 0 where
  pub after : ByteArray
  pub returns : write buf s ≡ ok after
  pub valid : IsValid after
  pub view : contents after ≡ splice (contents s) s.position buf
  pub moved : after.position ≡ s.position + length buf
  pub node : after.ahead ≢ []
  pub from : length (flat after.passed) < after.position
  pub to : after.position ≤ length (flat after.passed) + after.base_size
  pub sized : after.size ≡ max (s.position + length buf) s.size
  pub tight :
      (after.capacity ≡ s.capacity) ⊎ (after.capacity < s.position + length buf + s.base_size)
  pub base_kept : after.base_size ≡ s.base_size
  pub endian_kept : after.endian ≡ s.endian

-- `put` over memory with room for the bytes.
pub record Put (buf : List ℕ) (s : ByteArray) : Type 0 where
  pub after : ByteArray
  pub returns : put buf s ≡ ok after
  pub valid : IsValid after
  pub memory : flat (nodes after) ≡ overwrite (flat (nodes s)) s.position buf
  pub moved : after.position ≡ s.position + length buf
  pub node : after.ahead ≢ []
  pub from : length (flat after.passed) < after.position
  pub to : after.position ≤ length (flat after.passed) + after.base_size
  pub sized : after.size ≡ max (s.position + length buf) s.size
  pub capacity_kept : after.capacity ≡ s.capacity
  pub base_kept : after.base_size ≡ s.base_size
  pub endian_kept : after.endian ≡ s.endian

module _ (buf : List ℕ) (s : ByteArray) (v : IsValid s) (a : IsAligned s)
    (some_bytes : 0 < length buf) (room : s.position + length buf ≤ s.capacity) where
  offset : s.position % s.base_size ≡ s.position - length (flat s.passed)
  offset = position-mod s v a

  run : Written s.base_size s.ahead (s.position - length (flat s.passed)) buf
  run =
      write_loop-Written s.base_size s.ahead _ buf
        (AllSized-right s.base_size s.passed s.ahead v.sized) (omega (arith, a.to)) some_bytes
        (omega (arith, capacity_split s v, a.from))

  abbrev put_after : ByteArray
  put_after = record s {
    passed = s.passed ++ run.passed;
    ahead = run.left;
    position = s.position + length buf;
    size = max (s.position + length buf) s.size;
  }

  put_memory :
      flat ((s.passed ++ run.passed) ++ run.left) ≡ overwrite (flat (nodes s)) s.position buf
  put_memory = ground (
    arith,
    append_assoc s.passed run.passed run.left,
    flat-append s.passed (run.passed ++ run.left),
    flat-append s.passed s.ahead,
    overwrite_right (flat s.passed) (flat s.ahead) s.position buf,
    run.memory,
    a.from,
  )

  -- `put` lays the bytes over the memory at the position.
  put_sized : AllSized s.base_size ((s.passed ++ run.passed) ++ run.left)
  put_sized = rw (append_assoc s.passed run.passed run.left) (
      AllSized-append s.base_size s.passed (run.passed ++ run.left)
        (AllSized-left s.base_size s.passed s.ahead v.sized) run.sized)

  put_length : length (flat ((s.passed ++ run.passed) ++ run.left)) ≡ s.capacity
  put_length = rw put_memory (length-overwrite (flat (nodes s)) s.position buf ∙ sym v.holds)

  passed_length :
      length (flat (s.passed ++ run.passed)) ≡ length (flat s.passed) + length (flat run.passed)
  passed_length =
      ap length (flat-append s.passed run.passed) ∙ length-append (flat s.passed) (flat run.passed)

  left_ne : run.left ≢ []
  left_ne e = omega (
    arith,
    ap length (ap flat (ap (◌++◌ (s.passed ++ run.passed)) e)),
    ap length (ap flat (append-nil (s.passed ++ run.passed))),
    put_length,
    passed_length,
    run.reached,
    a.from,
  )

  put-Put : Put buf s
  unfolding put
  put-Put = record {
    after = put_after;
    returns = rw (offset, run.returns, put);
    valid = record {
      base_pos = v.base_pos;
      sized = put_sized;
      root = λ e. left_ne (right_nil (s.passed ++ run.passed) run.left e);
      holds = sym put_length;
      position_le = omega arith;
      size_le = omega (arith, v.size_le);
      fits = v.fits;
    };
    memory = put_memory;
    moved = refl;
    node = left_ne;
    from = omega (arith, passed_length, run.reached, a.from);
    to = omega (arith, passed_length, run.within, a.from);
    sized = refl;
    capacity_kept = refl;
    base_kept = refl;
    endian_kept = refl;
  }

module _ (buf : List ℕ) (s : ByteArray) (v : IsValid s) (seat : IsSeated s)
    (some_bytes : 0 < length buf) (limit : s.position + length buf + s.base_size ≤ 2 ^ 53) where
  grown : Grown (length buf) s
  grown = add_capacity-Grown (length buf) s v seat some_bytes limit

  placed : Put buf grown.after
  placed = put-Put buf grown.after grown.valid grown.aligned some_bytes grown.room

  placed_view : contents placed.after ≡ splice (contents s) s.position buf
  placed_view =
      rw (placed.memory, placed.sized, grown.memory, grown.position_kept, grown.size_kept)
        (take-overwrite-splice (flat (nodes s)) grown.fresh s.size s.position buf v.position_le
          (omega (arith, v.size_le, v.holds))
          (omega
            (arith, grown.room, grown.position_kept, grown.valid.holds, ap length grown.memory)))

  not_empty : (length buf == 0) ≡ false
  not_empty = ground arith

  -- From a seated cursor of a valid array `write` of some bytes returns: it lays them over the contents
  -- at the position, with the size grown as needed, moves behind them and leaves a valid array, where
  -- the memory stays within 2 ^ 53.
  pub write-Wrote : Wrote buf s
  unfolding write
  write-Wrote = record {
    after = placed.after;
    returns = rw (not_empty, grown.returns) placed.returns;
    valid = placed.valid;
    view = placed_view;
    moved = omega (arith, placed.moved, grown.position_kept);
    node = placed.node;
    from = placed.from;
    to = placed.to;
    sized = omega (arith, placed.sized, grown.position_kept, grown.size_kept);
    tight = ground (arith, grown.tight, placed.capacity_kept);
    base_kept = placed.base_kept ∙ grown.base_kept;
    endian_kept = placed.endian_kept ∙ grown.endian_kept;
  }
