-- ===== src/ByteArray/Invariant.antt =====
-- When a byte array of civan/bytearray.cc is well formed, and where its cursor may stand.
use civan.Common.{
  ℕ, ◌+◌, ◌-◌, ◌*◌, ◌%◌, ◌^◌, ◌≤◌, ◌<◌, ◌≡◌, ◌≢◌, refl, ap, ◌⊎◌, inl, inr, List, [], ◌∷◌, ◌++◌,
  arith, length, take, replicate, length-append, length-replicate, Bool-cases, leb, ◌==◌,
  append_assoc, append-nil, zero, suc, ◌∙◌, sym, if◌then◌else◌,
}
use civan.Common.Outcome.{ok}
use native.Mathlib.Nat.{mod-eq_of_lt, add-mul-mod_self_left}
use civan.ByteArray.Nodes.{Node, flat, new_nodes}
use civan.ByteArray.Doubles.{blocks_for, blocks_cover}
use civan.ByteArray.State.{ByteArray, nodes, get_capacity, append_nodes, add_capacity, create}
use civan.ByteArray.Memory.{AllSized, AllSized-append, AllSized-left, flat-append, length-flat}

pub record IsValid (s : ByteArray) : Type 0 where
  pub base_pos : 0 < s.base_size
  pub sized : AllSized s.base_size (nodes s)
  pub root : nodes s ≢ []
  pub holds : s.capacity ≡ length (flat (nodes s))
  pub position_le : s.position ≤ s.size
  pub size_le : s.size ≤ s.capacity
  pub fits : s.capacity < 2 ^ 64

-- The cursor is in the node that holds the position; behind the last node it is null.
pub record IsAligned (s : ByteArray) : Type 0 where
  pub from : length (flat s.passed) ≤ s.position
  pub to : s.position < length (flat s.passed) + s.base_size

-- A cursor from which `write` works: in the node that holds the position or, with the position at
-- the end of the memory, in a node.
pub record IsSeated (s : ByteArray) : Type 0 where
  pub node : s.ahead ≢ []
  pub from : length (flat s.passed) ≤ s.position
  pub to : (s.position < length (flat s.passed) + s.base_size) ⊎ (s.position ≡ s.capacity)

-- The abstract view: the bytes up to `m_size`.
abbrev pub contents : ByteArray → List ℕ
contents s = take s.size (flat (nodes s))

AllSized-replicate :
    (base count : ℕ) (node : Node) → length node ≡ base → AllSized base (replicate count node)
AllSized-replicate base zero node h = tt
AllSized-replicate base (suc count) node h = (h, AllSized-replicate base count node h)

pub AllSized-new_nodes : (fill base count : ℕ) → AllSized base (new_nodes fill base count)
unfolding new_nodes
AllSized-new_nodes fill base count = AllSized-replicate base count _ (length-replicate base fill)

pub length-new_nodes :
    (fill base count : ℕ) → length (flat (new_nodes fill base count)) ≡ count * base
unfolding new_nodes
length-new_nodes fill base zero = omega arith
length-new_nodes fill base (suc count) = grind (
  arith,
  length-append (replicate base fill) (flat (new_nodes fill base count)),
  length-replicate base fill,
  length-new_nodes fill base count,
)

pub create-IsValid : (fill base : ℕ) → 0 < base → base < 2 ^ 64 → IsValid (create fill base)
unfolding create
create-IsValid fill base b h = record {
  base_pos = b;
  sized = (length-replicate base fill, tt);
  root = λ e. cc;
  holds = ground (arith, append-nil (replicate base fill), length-replicate base fill);
  position_le = omega arith;
  size_le = omega arith;
  fits = h;
}

mod_offset : (b k p : ℕ) → b * k ≤ p → p < b * k + b → p % b ≡ p - b * k
mod_offset b k p lo hi =
    let e : p ≡ p - b * k + b * k = omega arith in
    ap (λ q. q % b) e
    ∙ add-mul-mod_self_left (p - b * k) b k
    ∙ mod-eq_of_lt {n = p - b * k} {m = b} (omega arith)

pub right_nil : (xs ys : List Node) → xs ++ ys ≡ [] → ys ≡ []
right_nil [] ys e = e
right_nil (x ∷ xs) ys e = cc

left_nil : (xs ys : List Node) → xs ++ ys ≡ [] → xs ≡ []
left_nil [] ys e = refl
left_nil (x ∷ xs) ys e = cc

-- The offset in the node that holds the position.
pub position-mod :
    (s : ByteArray)
    → IsValid s
    → IsAligned s
    → s.position % s.base_size ≡ s.position - length (flat s.passed)
position-mod s v a =
    let e = length-flat s.base_size s.passed (AllSized-left s.base_size s.passed s.ahead v.sized) in
    rw e (
      mod_offset s.base_size (length s.passed) s.position (omega (arith, e, a.from))
        (omega (arith, e, a.to)))

pub capacity_split :
    (s : ByteArray) → IsValid s → s.capacity ≡ length (flat s.passed) + length (flat s.ahead)
capacity_split s v =
    v.holds
    ∙ ap length (flat-append s.passed s.ahead)
    ∙ length-append (flat s.passed) (flat s.ahead)

-- What `addCapacity(n)` leaves: room for `n` bytes behind the position, in nodes added at the end.
pub record Grown (n : ℕ) (s : ByteArray) : Type 0 where
  pub after : ByteArray
  pub returns : add_capacity n s ≡ ok after
  pub valid : IsValid after
  pub aligned : IsAligned after
  pub room : after.position + n ≤ after.capacity
  pub tight : (after.capacity ≡ s.capacity) ⊎ (after.capacity < s.position + n + s.base_size)
  pub base_kept : after.base_size ≡ s.base_size
  pub position_kept : after.position ≡ s.position
  pub size_kept : after.size ≡ s.size
  pub endian_kept : after.endian ≡ s.endian
  pub fresh : List ℕ
  pub memory : flat (nodes after) ≡ flat (nodes s) ++ fresh

get_capacity_lem : (s : ByteArray) → IsValid s → get_capacity s ≡ s.capacity - s.position
unfolding get_capacity
get_capacity_lem s v = omega arith

-- `append_nodes` behind its test for a null `m_cur`.
append_nodes_lem :
    (count : ℕ) (s : ByteArray) (xs : List Node)
    → s.ahead ≡ xs
    → xs ≢ []
    → append_nodes count s ≡ (
        if get_capacity s == 0
        then ok (record s {
          capacity = s.capacity + count * s.base_size;
          passed = nodes s;
          ahead = new_nodes s.fill s.base_size count;
        })
        else ok (record s {
          capacity = s.capacity + count * s.base_size;
          ahead = s.ahead ++ new_nodes s.fill s.base_size count;
        }))
unfolding append_nodes
append_nodes_lem count s [] e h = absurd (h refl)
append_nodes_lem count s (x ∷ xs) e h = rw (e, append_nodes) (rw e)

module _ (n : ℕ) (s : ByteArray) (v : IsValid s) (seat : IsSeated s) (pos : 0 < n)
    (limit : s.position + n + s.base_size ≤ 2 ^ 53) where
  -- No node is added where the memory suffices.
  grown_enough : n ≤ s.capacity - s.position → Grown n s
  unfolding add_capacity
  grown_enough h = record {
    after = s;
    returns = ground (arith, get_capacity_lem s v);
    valid = v;
    aligned = record { from = seat.from; to = omega (arith, seat.to) };
    room = omega arith;
    tight = inl refl;
    base_kept = refl;
    position_kept = refl;
    size_kept = refl;
    endian_kept = refl;
    fresh = [];
    memory = sym (append-nil (flat (nodes s)));
  }

  abbrev missing : ℕ
  missing = blocks_for (n - (s.capacity - s.position)) s.base_size

  grown_chain :
      flat (nodes s ++ new_nodes s.fill s.base_size missing)
      ≡ flat (nodes s) ++ flat (new_nodes s.fill s.base_size missing)
  grown_chain = flat-append (nodes s) (new_nodes s.fill s.base_size missing)

  grown_length :
      length (flat (nodes s ++ new_nodes s.fill s.base_size missing))
      ≡ s.capacity + missing * s.base_size
  grown_length = rw grown_chain (
      omega (
        arith,
        length-append (flat (nodes s)) (flat (new_nodes s.fill s.base_size missing)),
        length-new_nodes s.fill s.base_size missing,
        v.holds,
      ))

  grown_sized : AllSized s.base_size (nodes s ++ new_nodes s.fill s.base_size missing)
  grown_sized =
      AllSized-append s.base_size (nodes s) _ v.sized
        (AllSized-new_nodes s.fill s.base_size missing)

  grown_ne : nodes s ++ new_nodes s.fill s.base_size missing ≢ []
  grown_ne e = v.root (left_nil (nodes s) _ e)

  -- With no room left the cursor goes to the first new node.
  grown_full : s.capacity ≡ s.position → Grown n s
  unfolding add_capacity
  grown_full h =
      let cover =
        blocks_cover (n - (s.capacity - s.position)) s.base_size v.base_pos (omega (arith, h))
          (omega (arith, h)) in
      record {
        after = record s {
          capacity = s.capacity + missing * s.base_size;
          passed = nodes s;
          ahead = new_nodes s.fill s.base_size missing;
        };
        returns =
            ground (arith, get_capacity_lem s v, append_nodes_lem missing s s.ahead refl seat.node);
        valid = record {
          base_pos = v.base_pos;
          sized = grown_sized;
          root = grown_ne;
          holds = sym grown_length;
          position_le = v.position_le;
          size_le = omega (arith, v.size_le);
          fits = omega (arith, cover);
        };
        aligned = record { from = omega (arith, v.holds); to = omega (arith, v.holds, v.base_pos) };
        room = omega (arith, cover);
        tight = inr (omega (arith, cover));
        base_kept = refl;
        position_kept = refl;
        size_kept = refl;
        endian_kept = refl;
        fresh = flat (new_nodes s.fill s.base_size missing);
        memory = grown_chain;
      }

  -- Otherwise it stays, and the new nodes go behind the last.
  grown_short : s.position < s.capacity → s.capacity - s.position < n → Grown n s
  unfolding add_capacity
  grown_short lt h =
      let cover =
        blocks_cover (n - (s.capacity - s.position)) s.base_size v.base_pos (omega (arith, h))
          (omega (arith, h)) in
      let e = append_assoc s.passed s.ahead (new_nodes s.fill s.base_size missing) in
      record {
        after = record s {
          capacity = s.capacity + missing * s.base_size;
          ahead = s.ahead ++ new_nodes s.fill s.base_size missing;
        };
        returns =
            ground (arith, get_capacity_lem s v, append_nodes_lem missing s s.ahead refl seat.node);
        valid = record {
          base_pos = v.base_pos;
          sized = rw (← e) grown_sized;
          root = rw (← e) grown_ne;
          holds = rw (← e) (sym grown_length);
          position_le = v.position_le;
          size_le = omega (arith, v.size_le);
          fits = omega (arith, cover);
        };
        aligned = record { from = seat.from; to = omega (arith, seat.to) };
        room = omega (arith, cover);
        tight = inr (omega (arith, cover));
        base_kept = refl;
        position_kept = refl;
        size_kept = refl;
        endian_kept = refl;
        fresh = flat (new_nodes s.fill s.base_size missing);
        memory = rw (← e) grown_chain;
      }

  -- From a seated cursor of a valid array `addCapacity` of some bytes returns, where the memory stays
  -- within 2 ^ 53: there is room for them, the bytes are as they were, at most a block is added beyond
  -- what is needed, and the cursor is in the node that holds the position.
  pub add_capacity-Grown : Grown n s
  add_capacity-Grown = elim (Bool-cases (leb n (s.capacity - s.position))) [
    | inl h ↦ grown_enough (ground arith)
    | inr h ↦ elim (Bool-cases (s.capacity == s.position)) [
      | inl full ↦ grown_full (ground arith)
      | inr short ↦ grown_short (ground (arith, v.position_le, v.size_le)) (ground arith)
    ]
  ]
