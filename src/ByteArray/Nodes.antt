-- ===== src/ByteArray/Nodes.antt =====
-- The chain of nodes behind civan/bytearray.h, and the loops of civan/bytearray.cc that walk it.
-- A node is the memory it owns: `Node::size` is the length of the list, and a null pointer is the
-- empty chain. The chain is split at `m_cur`: a loop takes the nodes from `m_cur` on, and answers
-- with the nodes that it has passed and those that are left.
use civan.Common.{
  ℕ, zero, suc, ◌+◌, ◌-◌, List, [], ◌∷◌, ◌++◌, Option, none, some, length, take, drop, replicate,
  ltb, leb, ◌==◌, if◌then◌else◌,
}

-- `struct Node`.
abbrev pub Node : Type 0
Node = List ℕ

-- The memory of a chain, front to back.
abbrev pub flat : List Node → List ℕ
flat [] = []
flat (node ∷ nodes) = node ++ flat nodes

-- `memcpy(ptr + pos, src, n)` into a block of memory, for the bytes that fit.
abbrev pub overwrite : List ℕ → ℕ → List ℕ → List ℕ
overwrite [] pos src = []
overwrite (x ∷ mem) zero [] = x ∷ mem
overwrite (x ∷ mem) zero (b ∷ src) = b ∷ overwrite mem zero src
overwrite (x ∷ mem) (suc pos) src = x ∷ overwrite mem pos src

-- `memcpy(dst, ptr + pos, n)` out of a block of memory.
abbrev pub slice : List ℕ → ℕ → ℕ → List ℕ
slice mem pos n = take n (drop pos mem)

-- The loop of `write`, from the node `m_cur` at offset `pos`.
unfoldable pub write_loop : List Node → ℕ → List ℕ → Option (List Node × List Node)
write_loop [] pos src = none
write_loop (node ∷ rest) pos src =
    let ncap = length node - pos in
    let more = write_loop rest 0 (drop ncap src) in
    if leb (length src) ncap then some ([], overwrite node pos src ∷ rest) else (elim more [
      | none ↦ none
      | some (passed, left) ↦ some (overwrite node pos (take ncap src) ∷ passed, left)
    ])

-- The loop of `read`, from the node `m_cur` at offset `npos`: the bytes, the nodes passed and left.
unfoldable pub read_loop : List Node → ℕ → ℕ → Option (List ℕ × List Node × List Node)
read_loop [] npos n = none
read_loop (node ∷ rest) npos n =
    let ncap = length node - npos in
    let more = read_loop rest 0 (n - ncap) in
    if n == 0
    then some ([], [], node ∷ rest)
    else if leb n ncap
    then (if length node == npos + n
        then some (slice node npos n, node ∷ [], rest)
        else some (slice node npos n, [], node ∷ rest))
    else (elim more [
      | none ↦ none
      | some (bytes, passed, left) ↦ some (slice node npos ncap ++ bytes, node ∷ passed, left)
    ])

-- The loop of `setPosition`, from the root: the nodes before the new `m_cur` and those from it on.
unfoldable pub seek : List Node → ℕ → Option (List Node × List Node)
seek [] v = none
seek (node ∷ rest) v =
    let more = seek rest (v - length node) in
    if ltb (length node) v
    then (elim more [ none ↦ none | some (passed, left) ↦ some (node ∷ passed, left) ])
    else if v == length node
    then some (node ∷ [], rest)
    else some ([], node ∷ rest)

-- `new Node(base_size)`, `count` times. What `new char[s]` leaves in its memory is not specified:
-- `fill` stands for it.
unfoldable pub new_nodes : ℕ → ℕ → ℕ → List Node
new_nodes fill base_size count = replicate count (replicate base_size fill)
