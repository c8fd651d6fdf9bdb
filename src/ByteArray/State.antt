-- ===== src/ByteArray/State.antt =====
-- `class ByteArray` of civan/bytearray.h: its fields, and the operations of civan/bytearray.cc that
-- move its cursor or write and read raw bytes.
-- The nodes before `m_cur` are `passed`, and those from it on `ahead`: `m_root` is the head of the
-- two together, and `m_cur` is null where `ahead` is empty. Sizes and positions count bytes of
-- memory that is allocated, so they do not reach 2 ^ 64; where the code subtracts one from another
-- without a test, `wrapping_sub` is the `size_t` that it gets.
use civan.Common.{
  ℕ, ◌+◌, ◌-◌, ◌*◌, ◌%◌, ◌^◌, max, List, [], ◌∷◌, ◌++◌, Bool, none, some, length, ltb, leb, ◌==◌,
  if◌then◌else◌,
}
use civan.Common.Outcome.{Outcome, ok, out_of_range, undefined, ◌>>=◌}
use civan.ByteArray.Doubles.{blocks_for}
use civan.ByteArray.Nodes.{Node, write_loop, read_loop, seek, new_nodes}

-- `CIVAN_LITTLE_ENDIAN` and `CIVAN_BIG_ENDIAN`.
pub data Endian : Type 0 where
  little_endian big_endian : Endian

-- `fill` is no field of the class: it is what the memory of a new node happens to hold.
pub record ByteArray : Type 0 where
  pub base_size : ℕ
  pub position : ℕ
  pub capacity : ℕ
  pub size : ℕ
  pub endian : Endian
  pub passed : List Node
  pub ahead : List Node
  pub fill : ℕ

-- `a - b` on `size_t`.
abbrev pub wrapping_sub : ℕ → ℕ → ℕ
wrapping_sub a b = (a + 2 ^ 64 - b) % 2 ^ 64

-- All the nodes, from `m_root`.
abbrev pub nodes : ByteArray → List Node
nodes s = s.passed ++ s.ahead

-- The constructor.
unfoldable pub create : ℕ → ℕ → ByteArray
unfolding new_nodes
create fill base_size = record {
  base_size = base_size;
  position = 0;
  capacity = base_size;
  size = 0;
  endian = big_endian;
  passed = [];
  ahead = new_nodes fill base_size 1;
  fill = fill;
}

unfoldable pub set_is_little_endian : Bool → ByteArray → ByteArray
set_is_little_endian val s = record s { endian = if val then little_endian else big_endian }

-- `getReadSize` and `getCapacity`.
unfoldable pub get_read_size : ByteArray → ℕ
get_read_size s = wrapping_sub s.size s.position

unfoldable pub get_capacity : ByteArray → ℕ
get_capacity s = wrapping_sub s.capacity s.position

-- The part of `addCapacity` behind its tests. It walks from `m_cur` to the last node.
unfoldable pub append_nodes : ℕ → ByteArray → Outcome ByteArray
unfolding get_capacity new_nodes
append_nodes count s = elim s.ahead [
  | [] ↦ undefined
  | node ∷ rest ↦
      let first = new_nodes s.fill s.base_size count in
      let grown = s.capacity + count * s.base_size in
      if get_capacity s == 0
      then ok (record s { capacity = grown; passed = s.passed ++ s.ahead; ahead = first })
      else ok (record s { capacity = grown; ahead = s.ahead ++ first })
]

unfoldable pub add_capacity : ℕ → ByteArray → Outcome ByteArray
unfolding append_nodes
add_capacity size s =
    let old_cap = get_capacity s in
    if size == 0
    then ok s
    else if leb size old_cap
    then ok s
    else append_nodes (blocks_for (size - old_cap) s.base_size) s

-- The part of `write` behind `addCapacity`. `ncap` is read through `m_cur`.
unfoldable pub put : List ℕ → ByteArray → Outcome ByteArray
put buf s = elim (write_loop s.ahead (s.position % s.base_size) buf) [
  | none ↦ undefined
  | some (passed, left) ↦ ok (record s {
    passed = s.passed ++ passed;
    ahead = left;
    position = s.position + length buf;
    size = max (s.position + length buf) s.size;
  })
]

unfoldable pub write : List ℕ → ByteArray → Outcome ByteArray
write buf s = if length buf == 0 then ok s else (add_capacity (length buf) s >>= put buf)

-- `read(void* buf, size_t size)`: the bytes that it copies to `buf`, and the array behind it.
unfoldable pub read : ℕ → ByteArray → Outcome (List ℕ × ByteArray)
unfolding get_read_size
read n s =
    if ltb (get_read_size s) n
    then out_of_range
    else (elim (read_loop s.ahead (s.position % s.base_size) n) [
      | none ↦ undefined
      | some (bytes, passed, left) ↦
          ok (
            bytes,
            record s { passed = s.passed ++ passed; ahead = left; position = s.position + n },
          )
    ])

-- `read(void* buf, size_t size, size_t position) const`. It starts in the node of `m_cur`, at the
-- offset of `position`.
unfoldable pub read_at : ℕ → ℕ → ByteArray → Outcome (List ℕ)
read_at n position s =
    if ltb (wrapping_sub s.size position) n
    then out_of_range
    else (elim (read_loop s.ahead (position % s.base_size) n) [
      | none ↦ undefined
      | some (bytes, passed, left) ↦ ok bytes
    ])

unfoldable pub set_position : ℕ → ByteArray → Outcome ByteArray
set_position v s = if ltb s.capacity v then out_of_range else (elim (seek (nodes s) v) [
  | none ↦ undefined
  | some (passed, left) ↦ ok (record s {
    position = v;
    size = if ltb s.size v then v else s.size;
    passed = passed;
    ahead = left;
  })
])

-- `clear` keeps the root node alone.
unfoldable pub clear : ByteArray → Outcome ByteArray
clear s = elim (nodes s) [
  | [] ↦ undefined
  | root ∷ rest ↦
      ok (record s {
        size = 0;
        capacity = length root;
        position = 0;
        passed = [];
        ahead = root ∷ [];
      })
]

unfoldable pub to_string : ByteArray → Outcome (List ℕ)
to_string s = if get_read_size s == 0 then ok [] else read_at (get_read_size s) s.position s
