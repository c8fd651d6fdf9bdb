-- ===== src/ByteArray/Loops.antt =====
-- The three loops of civan/bytearray.cc, on the chain seen as one run of memory.
use civan.Common.{
  ℕ, ◌+◌, ◌-◌, ◌≤◌, ◌<◌, ◌≡◌, refl, ap, List, [], ◌∷◌, ◌++◌, some, arith, length, take, drop,
  length-append, length-drop, append-nil, Bool-cases, ◌≢◌, inl, inr, ltb, leb, ◌==◌, false, true,
}
use civan.ByteArray.Nodes.{Node, flat, overwrite, slice, write_loop, read_loop, seek}
use civan.ByteArray.Memory.{
  AllSized, overwrite-append, length-overwrite, slice-append, overwrite-nil, take_all, drop_all,
}

-- What `write_loop` answers when the chain has room for `src` at `pos`. The cursor rests on the
-- node that took the last byte.
pub record Written (base : ℕ) (ahead : List Node) (pos : ℕ) (src : List ℕ) : Type 0 where
  pub passed : List Node
  pub left : List Node
  pub returns : write_loop ahead pos src ≡ some (passed, left)
  pub memory : flat (passed ++ left) ≡ overwrite (flat ahead) pos src
  pub sized : AllSized base (passed ++ left)
  pub reached : length (flat passed) < pos + length src
  pub within : pos + length src ≤ length (flat passed) + base

-- The round of the loop that fills the node and goes on to the next.
write_loop_next :
    (base : ℕ) (node : Node) (rest : List Node) (pos : ℕ) (src : List ℕ)
    → length node ≡ base
    → pos ≤ base
    → leb (length src) (length node - pos) ≡ false
    → Written base rest 0 (drop (length node - pos) src)
    → Written base (node ∷ rest) pos src
unfolding write_loop
write_loop_next base node rest pos src h p more next = record {
  passed = overwrite node pos (take (length node - pos) src) ∷ next.passed;
  left = next.left;
  returns = rw (more, next.returns);
  memory = ground (arith, overwrite-append node (flat rest) pos src, next.memory);
  sized = ground (arith, next.sized, length-overwrite node pos (take (length node - pos) src));
  reached = ground (
    arith,
    next.reached,
    length-drop (length node - pos) src,
    length-append (overwrite node pos (take (length node - pos) src)) (flat next.passed),
    length-overwrite node pos (take (length node - pos) src),
  );
  within = ground (
    arith,
    next.within,
    length-drop (length node - pos) src,
    length-append (overwrite node pos (take (length node - pos) src)) (flat next.passed),
    length-overwrite node pos (take (length node - pos) src),
  );
}

pub write_loop-Written :
    (base : ℕ) (ahead : List Node) (pos : ℕ) (src : List ℕ)
    → AllSized base ahead
    → pos ≤ base
    → 0 < length src
    → pos + length src ≤ length (flat ahead)
    → Written base ahead pos src
unfolding write_loop
write_loop-Written base [] pos src h p n f = absurd (omega arith)
write_loop-Written base (node ∷ rest) pos src h p n f =
    elim (Bool-cases (leb (length src) (length node - pos))) [
      | inl here ↦ record {
        passed = [];
        left = overwrite node pos src ∷ rest;
        returns = rw here;
        memory = ground (
          arith,
          overwrite-append node (flat rest) pos src,
          take_all (length node - pos) src,
          drop_all (length node - pos) src,
          overwrite-nil (flat rest) (pos - length node),
        );
        sized = ground (arith, length-overwrite node pos src);
        reached = omega arith;
        within = ground arith;
      }
      | inr more ↦ write_loop_next base node rest pos src h.0 p more (
          write_loop-Written base rest 0 (drop (length node - pos) src) h.1 (omega arith)
            (ground (arith, length-drop (length node - pos) src))
            (ground (arith, length-drop (length node - pos) src, length-append node (flat rest))))
    ]

-- What `read_loop` answers when `n` bytes stand behind `npos`. A cursor at the end of a node has
-- moved on to the next, or to null behind the last.
pub record Reads (base : ℕ) (ahead : List Node) (npos n : ℕ) : Type 0 where
  pub passed : List Node
  pub left : List Node
  pub returns : read_loop ahead npos n ≡ some (slice (flat ahead) npos n, passed, left)
  pub chain : passed ++ left ≡ ahead
  pub below : length (flat passed) ≤ npos + n
  pub within : npos + n < length (flat passed) + base

read_loop_next :
    (base : ℕ) (node : Node) (rest : List Node) (npos n : ℕ)
    → length node ≡ base
    → npos ≤ base
    → length node - npos < n
    → Reads base rest 0 (n - (length node - npos))
    → Reads base (node ∷ rest) npos n
unfolding read_loop
read_loop_next base node rest npos n h p more next = record {
  passed = node ∷ next.passed;
  left = next.left;
  returns = ground (
    arith,
    next.returns,
    slice-append node (flat rest) npos n,
    take_all n (drop npos node),
    take_all (length node - npos) (drop npos node),
    length-drop npos node,
  );
  chain = ap (◌∷◌ node) next.chain;
  below = ground (arith, next.below, length-append node (flat next.passed));
  within = ground (arith, next.within, length-append node (flat next.passed));
}

-- A run that ends within the first of two blocks is a run of that block.
within_node : (m r : List ℕ) (pos n : ℕ) → n ≤ length m - pos → slice (m ++ r) pos n ≡ slice m pos n
within_node m r pos n h = ground (arith, slice-append m r pos n, append-nil (slice m pos n))

pub read_loop-Reads :
    (base : ℕ) (ahead : List Node) (npos n : ℕ)
    → AllSized base ahead
    → npos < base
    → 0 < n
    → npos + n ≤ length (flat ahead)
    → Reads base ahead npos n
unfolding read_loop
read_loop-Reads base [] npos n h p k f = absurd (omega arith)
read_loop-Reads base (node ∷ rest) npos n h p k f = elim (Bool-cases (leb n (length node - npos))) [
  | inl here ↦ elim (Bool-cases (length node == npos + n)) [
    | inl end ↦ record {
      passed = node ∷ [];
      left = rest;
      returns = ground (arith, within_node node (flat rest) npos n);
      chain = refl;
      below = ground (arith, append-nil node);
      within = ground (arith, append-nil node);
    }
    | inr inside ↦ record {
      passed = [];
      left = node ∷ rest;
      returns = ground (arith, within_node node (flat rest) npos n);
      chain = refl;
      below = omega arith;
      within = ground arith;
    }
  ]
  | inr more ↦ read_loop_next base node rest npos n h.0 (omega arith) (ground arith) (
      read_loop-Reads base rest 0 (n - (length node - npos)) h.1 (omega arith) (ground arith)
        (ground (arith, length-append node (flat rest))))
]

-- Where `seek` leaves the cursor: in the node that holds `v`, or null at the end of the chain.
pub record Sought (base : ℕ) (nodes : List Node) (v : ℕ) : Type 0 where
  pub passed : List Node
  pub left : List Node
  pub returns : seek nodes v ≡ some (passed, left)
  pub chain : passed ++ left ≡ nodes
  pub below : length (flat passed) ≤ v
  pub within : v < length (flat passed) + base

seek_next :
    (base : ℕ) (node : Node) (rest : List Node) (v : ℕ)
    → length node ≡ base
    → ltb (length node) v ≡ true
    → Sought base rest (v - length node)
    → Sought base (node ∷ rest) v
unfolding seek
seek_next base node rest v h more next = record {
  passed = node ∷ next.passed;
  left = next.left;
  returns = rw (more, next.returns);
  chain = ap (◌∷◌ node) next.chain;
  below = ground (arith, next.below, length-append node (flat next.passed));
  within = ground (arith, next.within, length-append node (flat next.passed));
}

pub seek-Sought :
    (base : ℕ) (nodes : List Node) (v : ℕ)
    → AllSized base nodes
    → 0 < base
    → nodes ≢ []
    → v ≤ length (flat nodes)
    → Sought base nodes v
unfolding seek
seek-Sought base [] v h b ne f = absurd (ne refl)
seek-Sought base (node ∷ rest) v h b ne f = elim (Bool-cases (ltb (length node) v)) [
  | inl more ↦ seek_next base node rest v h.0 more (
      seek-Sought base rest (v - length node) h.1 b (rest_ne more)
        (ground (arith, length-append node (flat rest))))
  | inr here ↦ elim (Bool-cases (v == length node)) [
    | inl end ↦ record {
      passed = node ∷ [];
      left = rest;
      returns = rw (here, end);
      chain = refl;
      below = ground (arith, append-nil node);
      within = ground (arith, append-nil node);
    }
    | inr inside ↦ record {
      passed = [];
      left = node ∷ rest;
      returns = rw (here, inside);
      chain = refl;
      below = omega arith;
      within = ground arith;
    }
  ]
]
  where
    rest_ne : ltb (length node) v ≡ true → rest ≢ []
    rest_ne more e = ground (arith, ap flat e, length-append node (flat rest))
