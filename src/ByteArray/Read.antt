-- ===== src/ByteArray/Read.antt =====
-- `ByteArray::read`, `setPosition` and `clear`, against the array seen as one run of bytes.
use civan.Common.{
  ℕ, ◌+◌, ◌-◌, ◌≤◌, ◌<◌, ◌≡◌, refl, ap, sym, ◌∙◌, List, ◌++◌, arith, length, take, drop, max,
  length-append, ltb, append_assoc, false, if◌then◌else◌,
}
use civan.Common.Outcome.{ok, out_of_range}
use civan.ByteArray.Nodes.{flat, slice}
use civan.ByteArray.State.{ByteArray, nodes, read, get_read_size, set_position}
use civan.ByteArray.Memory.{
  AllSized-right, flat-append, drop-append, drop_all, drop-take, take-take,
}
use civan.ByteArray.Loops.{Reads, read_loop-Reads, Sought, seek-Sought}
use civan.ByteArray.Invariant.{IsValid, IsAligned, contents, position-mod, capacity_split}

-- What a read of `n` bytes leaves.
pub record WasRead (n : ℕ) (s : ByteArray) : Type 0 where
  pub after : ByteArray
  pub returns : read n s ≡ ok (slice (contents s) s.position n, after)
  pub valid : IsValid after
  pub aligned : IsAligned after
  pub view : contents after ≡ contents s
  pub moved : after.position ≡ s.position + n
  pub size_kept : after.size ≡ s.size
  pub capacity_kept : after.capacity ≡ s.capacity
  pub base_kept : after.base_size ≡ s.base_size
  pub endian_kept : after.endian ≡ s.endian

pub get_read_size_lem : (s : ByteArray) → IsValid s → get_read_size s ≡ s.size - s.position
unfolding get_read_size
get_read_size_lem s v = omega (arith, v.position_le, v.size_le, v.fits)

-- A run within the bytes in use is a run of the memory.
pub slice-take :
    (mem : List ℕ) (size pos n : ℕ) → pos + n ≤ size → slice (take size mem) pos n ≡ slice mem pos n
slice-take mem size pos n h =
    rw (drop-take pos size mem) (take-take n (size - pos) (drop pos mem) (omega arith))

-- A run behind the first of two blocks is a run of the second.
pub slice_right :
    (m r : List ℕ) (pos n : ℕ) → length m ≤ pos → slice (m ++ r) pos n ≡ slice r (pos - length m) n
slice_right m r pos n h = ground (arith, drop-append pos m r, drop_all pos m)

-- On a valid array a read of more bytes than are left throws.
pub read_past_end :
    (n : ℕ) (s : ByteArray) → IsValid s → s.size - s.position < n → read n s ≡ out_of_range
unfolding read
read_past_end n s v h = ground (arith, get_read_size_lem s v)

module _ (n : ℕ) (s : ByteArray) (v : IsValid s) (a : IsAligned s) (some_bytes : 0 < n)
    (enough : s.position + n ≤ s.size) where
  run : Reads s.base_size s.ahead (s.position - length (flat s.passed)) n
  run =
      read_loop-Reads s.base_size s.ahead _ n (AllSized-right s.base_size s.passed s.ahead v.sized)
        (omega (arith, a.to, a.from)) some_bytes
        (omega (arith, capacity_split s v, a.from, v.size_le))

  abbrev read_after : ByteArray
  read_after = record s {
    passed = s.passed ++ run.passed;
    ahead = run.left;
    position = s.position + n;
  }

  same_nodes : nodes read_after ≡ nodes s
  same_nodes = append_assoc s.passed run.passed run.left ∙ ap (◌++◌ s.passed) run.chain

  passed_length :
      length (flat (s.passed ++ run.passed)) ≡ length (flat s.passed) + length (flat run.passed)
  passed_length =
      ap length (flat-append s.passed run.passed) ∙ length-append (flat s.passed) (flat run.passed)

  bytes_read :
      slice (flat s.ahead) (s.position - length (flat s.passed)) n ≡ slice (contents s) s.position n
  bytes_read = sym (
      slice-take (flat (nodes s)) s.size s.position n enough
      ∙ rw (flat-append s.passed s.ahead)
          (slice_right (flat s.passed) (flat s.ahead) s.position n a.from))

  in_size : ltb (get_read_size s) n ≡ false
  in_size = ground (arith, get_read_size_lem s v)

  -- From an aligned cursor of a valid array `read` of some bytes, where there are enough, gives those at
  -- the position, moves behind them, and changes nothing else.
  pub read-WasRead : WasRead n s
  unfolding read
  read-WasRead = record {
    after = read_after;
    returns = rw (in_size, position-mod s v a, run.returns, read) (rw bytes_read);
    valid = record {
      base_pos = v.base_pos;
      sized = rw same_nodes v.sized;
      root = rw same_nodes v.root;
      holds = rw same_nodes v.holds;
      position_le = enough;
      size_le = v.size_le;
      fits = v.fits;
    };
    aligned = record {
      from = omega (arith, passed_length, run.below, a.from);
      to = omega (arith, passed_length, run.within, a.from);
    };
    view = rw same_nodes refl;
    moved = refl;
    size_kept = refl;
    capacity_kept = refl;
    base_kept = refl;
    endian_kept = refl;
  }

-- What `setPosition(v)` leaves.
pub record Moved (to : ℕ) (s : ByteArray) : Type 0 where
  pub after : ByteArray
  pub returns : set_position to s ≡ ok after
  pub valid : IsValid after
  pub aligned : IsAligned after
  pub chain : nodes after ≡ nodes s
  pub moved : after.position ≡ to
  pub sized : after.size ≡ max to s.size
  pub capacity_kept : after.capacity ≡ s.capacity
  pub base_kept : after.base_size ≡ s.base_size
  pub endian_kept : after.endian ≡ s.endian

pub set_position_past_end :
    (to : ℕ) (s : ByteArray) → s.capacity < to → set_position to s ≡ out_of_range
unfolding set_position
set_position_past_end to s h = ground arith

module _ (to : ℕ) (s : ByteArray) (v : IsValid s) (in_capacity : to ≤ s.capacity) where
  spot : Sought s.base_size (nodes s) to
  spot = seek-Sought s.base_size (nodes s) to v.sized v.base_pos v.root (omega (arith, v.holds))

  in_range : ltb s.capacity to ≡ false
  in_range = ground arith

  -- In a valid array `setPosition` within the capacity returns, wherever the cursor was: it aligns the
  -- cursor, grows the size up to the position, and keeps the bytes.
  pub set_position-Moved : Moved to s
  unfolding set_position
  set_position-Moved = record {
    after = record s {
      position = to;
      size = if ltb s.size to then to else s.size;
      passed = spot.passed;
      ahead = spot.left;
    };
    returns = rw (in_range, spot.returns, set_position);
    valid = record {
      base_pos = v.base_pos;
      sized = rw spot.chain v.sized;
      root = rw spot.chain v.root;
      holds = rw spot.chain v.holds;
      position_le = ground arith;
      size_le = ground (arith, v.size_le);
      fits = v.fits;
    };
    aligned = record { from = spot.below; to = spot.within };
    chain = spot.chain;
    moved = refl;
    sized = ground arith;
    capacity_kept = refl;
    base_kept = refl;
    endian_kept = refl;
  }
