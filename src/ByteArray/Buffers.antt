-- ===== src/ByteArray/Buffers.antt =====
-- `getReadBuffers` and `getWriteBuffers` of civan/bytearray.cc.
use civan.Common.{
  ℕ, zero, suc, ◌+◌, ◌-◌, ◌*◌, ◌/◌, ◌%◌, ◌≤◌, ◌<◌, ◌≡◌, refl, ap, sym, ◌∙◌, inl, inr, List, [], ◌∷◌,
  ◌++◌, Option, none, some, false, arith, length, subst, take, drop, min, leb, ◌==◌, if◌then◌else◌,
  Bool-cases, length-append, length-drop, append-nil,
}
use civan.Common.Outcome.{Outcome, ok, undefined, ◌>>=◌}
use native.Mathlib.Nat.{div-add-mod', mod-lt, suc-mul}
use civan.ByteArray.Feed.{drop-drop}
use civan.ByteArray.Nodes.{Node, flat, slice}
use civan.ByteArray.State.{ByteArray, nodes, wrapping_sub, get_read_size, add_capacity}
use civan.ByteArray.Memory.{
  AllSized, AllSized-right, flat-append, slice-append, take_all, drop_all, drop-append,
}
use civan.ByteArray.Invariant.{IsValid, IsAligned, contents, capacity_split, position-mod}
use civan.ByteArray.Read.{get_read_size_lem, slice-take, slice_right}

-- An `iovec`: `iov_base` points into the memory of a node, at an offset.
pub record Iovec : Type 0 where
  pub memory : Node
  pub offset : ℕ
  pub iov_len : ℕ

-- The bytes that `iovec`s cover, one after the other.
abbrev pub covered : List Iovec → List ℕ
covered [] = []
covered (v ∷ vs) = slice v.memory v.offset v.iov_len ++ covered vs

-- The loops, over the nodes from `cur`. `ncap` is what is left of the node, by `here`; for the later
-- nodes it is `next`: `m_baseSize` in the first `getReadBuffers` and `cur->size` in the others.
unfoldable pub fill_buffers : (Node → ℕ) → (Node → ℕ) → List Node → ℕ → ℕ → Option (List Iovec)
fill_buffers here next [] npos len = none
fill_buffers here next (node ∷ rest) npos len =
    let ncap = here node - npos in
    let more = fill_buffers next next rest 0 (len - ncap) in
    if leb len ncap
    then some (record { memory = node; offset = npos; iov_len = len } ∷ [])
    else (elim more [
      | none ↦ none
      | some vs ↦ some (record { memory = node; offset = npos; iov_len = ncap } ∷ vs)
    ])

abbrev pub cap : Node → ℕ
cap node = length node

unfoldable pub fill_from : (Node → ℕ) → List Node → ℕ → ℕ → Outcome (ℕ × List Iovec)
fill_from next ns npos len = elim (fill_buffers cap next ns npos len) [
  | none ↦ undefined
  | some vs ↦ ok (len, vs)
]

-- `getReadBuffers(buffers, len)`: its result, and what it adds to `buffers`.
unfoldable pub get_read_buffers : ℕ → ByteArray → Outcome (ℕ × List Iovec)
get_read_buffers len s =
    let n = min (get_read_size s) len in
    if n == 0 then ok (0, []) else fill_from (λ _. s.base_size) s.ahead (s.position % s.base_size) n

-- `getReadBuffers(buffers, len, position)`.
unfoldable pub get_read_buffers_at : ℕ → ℕ → ByteArray → Outcome (ℕ × List Iovec)
get_read_buffers_at len position s =
    let n = min (wrapping_sub s.size position) len in
    if n == 0
    then ok (0, [])
    else fill_from cap (drop (position / s.base_size) (nodes s)) (position % s.base_size) n

-- `getWriteBuffers(buffers, len)`, which may add nodes.
unfoldable pub get_write_buffers : ℕ → ByteArray → Outcome ((ℕ × List Iovec) × ByteArray)
get_write_buffers len s =
    if len == 0
    then ok ((0, []), s)
    else (add_capacity len s >>= λ s'.
        fill_from cap s'.ahead (s'.position % s'.base_size) len >>= λ r. ok (r, s'))

-- What a call gives: buffers that cover the bytes asked for.
pub record Covers (n : ℕ) (bytes : List ℕ) (call : Outcome (ℕ × List Iovec)) : Type 0 where
  pub buffers : List Iovec
  pub returns : call ≡ ok (n, buffers)
  pub run : covered buffers ≡ bytes

record Fills (here next : Node → ℕ) (ahead : List Node) (npos n : ℕ) : Type 0 where
  buffers : List Iovec
  returns : fill_buffers here next ahead npos n ≡ some buffers
  bytes : covered buffers ≡ slice (flat ahead) npos n

-- A way to tell the size of a node.
abbrev Sizes : ℕ → (Node → ℕ) → Type 0
Sizes base here = (node : Node) → length node ≡ base → here node ≡ base

fill_buffers-Fills :
    (base : ℕ) (here next : Node → ℕ) (ahead : List Node) (npos n : ℕ)
    → Sizes base here
    → Sizes base next
    → AllSized base ahead
    → npos < base
    → 0 < n
    → npos + n ≤ length (flat ahead)
    → Fills here next ahead npos n
unfolding fill_buffers
fill_buffers-Fills base here next [] npos n c d h p k f = absurd (omega arith)
fill_buffers-Fills base here next (node ∷ rest) npos n c d h p k f =
    elim (Bool-cases (leb n (here node - npos))) [
      | inl fits ↦ record {
        buffers = record { memory = node; offset = npos; iov_len = n } ∷ [];
        returns = rw fits refl;
        bytes = ground (
          arith,
          c node h.0,
          h.0,
          slice-append node (flat rest) npos n,
          append-nil (slice node npos n),
        );
      }
      | inr beyond ↦
          let later =
            fill_buffers-Fills base next next rest 0 (n - (here node - npos)) d d h.1 (omega arith)
              (ground (arith, c node h.0))
              (ground (arith, c node h.0, h.0, length-append node (flat rest))) in
          record {
            buffers =
                record { memory = node; offset = npos; iov_len = here node - npos } ∷ later.buffers;
            returns = rw (beyond, later.returns) refl;
            bytes = ground (
              arith,
              c node h.0,
              h.0,
              later.bytes,
              slice-append node (flat rest) npos n,
              take_all n (drop npos node),
              take_all (length node - npos) (drop npos node),
              length-drop npos node,
            );
          }
    ]

fill_from-Covers :
    (base : ℕ) (next : Node → ℕ) (ahead : List Node) (npos n : ℕ)
    → Sizes base next
    → AllSized base ahead
    → npos < base
    → 0 < n
    → npos + n ≤ length (flat ahead)
    → Covers n (slice (flat ahead) npos n) (fill_from next ahead npos n)
unfolding fill_from
fill_from-Covers base next ahead npos n d h p k f =
    let filled = fill_buffers-Fills base cap next ahead npos n (λ node e. e) d h p k f in
    record {
      buffers = filled.buffers;
      returns = rw (filled.returns, fill_from) refl;
      run = filled.bytes;
    }

-- The test for no bytes in front of the loop.
Covers-if :
    (n : ℕ) (mem : List ℕ) (pos : ℕ) (call : Outcome (ℕ × List Iovec))
    → (0 < n → Covers n (slice mem pos n) call)
    → Covers n (slice mem pos n) (if n == 0 then ok (0, []) else call)
Covers-if zero mem pos call h = record { buffers = []; returns = refl; run = refl }
Covers-if (suc n) mem pos call h =
    let some_bytes : (suc n == 0) ≡ false = ground arith in
    subst (λ b. Covers (suc n) (slice mem pos (suc n)) (if b then ok (0, []) else call))
      (sym some_bytes) (h (omega arith))

-- From an aligned cursor of a valid array `getReadBuffers` gives buffers that cover, in order, the bytes
-- from the position on: as many as are asked for, or as there are.
pub get_read_buffers-Covers :
    (len : ℕ) (s : ByteArray)
    → IsValid s
    → IsAligned s
    → Covers
        (min (s.size - s.position) len)
        (slice (contents s) s.position (min (s.size - s.position) len))
        (get_read_buffers len s)
unfolding get_read_buffers
get_read_buffers-Covers len s v a =
    let n = min (s.size - s.position) len in
    rw (get_read_size_lem s v, position-mod s v a, get_read_buffers)
      (Covers-if n (contents s) s.position
        (fill_from (λ _. s.base_size) s.ahead (s.position - length (flat s.passed)) n)
        (λ pos. rw (bytes_at n (omega arith)) (
          fill_from-Covers s.base_size (λ _. s.base_size) s.ahead
            (s.position - length (flat s.passed)) n (λ node e. refl)
            (AllSized-right s.base_size s.passed s.ahead v.sized) (omega (arith, a.to, a.from)) pos
            (omega (arith, capacity_split s v, v.size_le, a.from, v.position_le)))))
  where
    bytes_at :
        (n : ℕ)
        → n ≤ s.size - s.position
        → slice (contents s) s.position n
          ≡ slice (flat s.ahead) (s.position - length (flat s.passed)) n
    bytes_at n h =
        slice-take (flat (nodes s)) s.size s.position n (omega (arith, v.position_le))
        ∙ rw (flat-append s.passed s.ahead)
            (slice_right (flat s.passed) (flat s.ahead) s.position n a.from)

flat-drop :
    (base k : ℕ) (ns : List Node) → AllSized base ns → flat (drop k ns) ≡ drop (k * base) (flat ns)
flat-drop base zero ns h =
    let none_yet : 0 ≡ 0 * base = omega arith in ap (λ i. drop i (flat ns)) none_yet
flat-drop base (suc k) [] h = sym (drop_all (suc k * base) [] (omega arith))
flat-drop base (suc k) (node ∷ rest) h = ground (
  arith,
  flat-drop base k rest h.1,
  h.0,
  drop-append (suc k * base) node (flat rest),
  drop_all (suc k * base) node,
  suc-mul k base,
)

AllSized-drop : (base k : ℕ) (ns : List Node) → AllSized base ns → AllSized base (drop k ns)
AllSized-drop base zero ns h = h
AllSized-drop base (suc k) [] h = tt
AllSized-drop base (suc k) (node ∷ rest) h = AllSized-drop base k rest h.1

-- On a valid array `getReadBuffers` with a position up to the size gives buffers that cover, in order,
-- the bytes from that position on, wherever the cursor is: as many as are asked for, or as there are.
pub get_read_buffers_at-Covers :
    (len position : ℕ) (s : ByteArray)
    → IsValid s
    → position ≤ s.size
    → Covers
        (min (s.size - position) len)
        (slice (contents s) position (min (s.size - position) len))
        (get_read_buffers_at len position s)
unfolding get_read_buffers_at
get_read_buffers_at-Covers len position s v h =
    let n = min (s.size - position) len in
    let k = position / s.base_size in
    let left : wrapping_sub s.size position ≡ s.size - position =
      omega (arith, v.fits, v.size_le) in
    let parts = div-add-mod' position s.base_size in
    let held : length (flat (drop k (nodes s))) ≡ s.capacity - k * s.base_size =
      ap length (flat-drop s.base_size k (nodes s) v.sized)
      ∙ length-drop (k * s.base_size) (flat (nodes s))
      ∙ ap (λ c. c - k * s.base_size) (sym v.holds) in
    rw (left, get_read_buffers_at)
      (Covers-if n (contents s) position
        (fill_from cap (drop k (nodes s)) (position % s.base_size) n)
        (λ pos. rw (bytes_at n (omega arith)) (
          fill_from-Covers s.base_size cap (drop k (nodes s)) (position % s.base_size) n
            (λ node e. e) (AllSized-drop s.base_size k (nodes s) v.sized)
            (mod-lt position v.base_pos) pos (omega (arith, held, parts, v.size_le)))))
  where
    bytes_at :
        (n : ℕ)
        → n ≤ s.size - position
        → slice (contents s) position n
          ≡ slice (flat (drop (position / s.base_size) (nodes s))) (position % s.base_size) n
    bytes_at n le =
        slice-take (flat (nodes s)) s.size position n (omega arith)
        ∙ ap (λ i. slice (flat (nodes s)) i n) (sym (div-add-mod' position s.base_size))
        ∙ ap (take n) (
            drop-drop (position / s.base_size * s.base_size) (position % s.base_size)
              (flat (nodes s)))
        ∙ ap (λ mem. slice mem (position % s.base_size) n)
            (sym (flat-drop s.base_size (position / s.base_size) (nodes s) v.sized))
