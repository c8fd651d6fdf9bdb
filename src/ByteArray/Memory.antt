-- ===== src/ByteArray/Memory.antt =====
-- How reading and writing a run of bytes meet on a block of memory, and on two blocks in a row.
use civan.Common.{
  ℕ, zero, suc, ◌+◌, ◌-◌, ◌*◌, ◌≤◌, ◌≡◌, refl, sym, ap, List, [], ◌∷◌, ◌++◌, arith, length, take,
  drop, length-append, length-drop, length-take, append_assoc, append-nil, max,
}
use native.Mathlib.Nat.{suc-add}
use civan.ByteArray.Nodes.{Node, flat, overwrite, slice}

module _ {ℓ} {A : Type ℓ} where
  pub take_all : (n : ℕ) (xs : List A) → length xs ≤ n → take n xs ≡ xs
  take_all zero [] h = refl
  take_all zero (x ∷ xs) h = absurd (omega arith)
  take_all (suc n) [] h = refl
  take_all (suc n) (x ∷ xs) h = ap (◌∷◌ x) (take_all n xs (omega arith))

  pub drop_all : (n : ℕ) (xs : List A) → length xs ≤ n → drop n xs ≡ []
  drop_all zero [] h = refl
  drop_all zero (x ∷ xs) h = absurd (omega arith)
  drop_all (suc n) [] h = refl
  drop_all (suc n) (x ∷ xs) h = drop_all n xs (omega arith)

  pub take-append :
      (n : ℕ) (xs ys : List A) → take n (xs ++ ys) ≡ take n xs ++ take (n - length xs) ys
  take-append zero [] ys = refl
  take-append zero (x ∷ xs) ys = ground arith
  take-append (suc n) [] ys = ground arith
  take-append (suc n) (x ∷ xs) ys = ground (arith, take-append n xs ys)

  pub drop-append :
      (n : ℕ) (xs ys : List A) → drop n (xs ++ ys) ≡ drop n xs ++ drop (n - length xs) ys
  drop-append zero [] ys = refl
  drop-append zero (x ∷ xs) ys = ground arith
  drop-append (suc n) [] ys = ground arith
  drop-append (suc n) (x ∷ xs) ys = ground (arith, drop-append n xs ys)

pub length-overwrite :
    (mem : List ℕ) (pos : ℕ) (src : List ℕ) → length (overwrite mem pos src) ≡ length mem
length-overwrite [] pos src = refl
length-overwrite (x ∷ mem) zero [] = refl
length-overwrite (x ∷ mem) zero (b ∷ src) = ap suc (length-overwrite mem zero src)
length-overwrite (x ∷ mem) (suc pos) src = ap suc (length-overwrite mem pos src)

pub overwrite-nil : (mem : List ℕ) (pos : ℕ) → overwrite mem pos [] ≡ mem
overwrite-nil [] pos = refl
overwrite-nil (x ∷ mem) zero = refl
overwrite-nil (x ∷ mem) (suc pos) = ap (◌∷◌ x) (overwrite-nil mem pos)

-- A write over two blocks in a row splits at the end of the first.
pub overwrite-append :
    (m r : List ℕ) (pos : ℕ) (src : List ℕ)
    → overwrite (m ++ r) pos src
      ≡ overwrite m pos (take (length m - pos) src)
        ++ overwrite r (pos - length m) (drop (length m - pos) src)
overwrite-append [] r pos src = ground arith
overwrite-append (x ∷ m) r zero [] = ground (arith, overwrite-nil r 0)
overwrite-append (x ∷ m) r zero (b ∷ src) = ground (arith, overwrite-append m r zero src)
overwrite-append (x ∷ m) r (suc pos) src = ground (arith, overwrite-append m r pos src)

pub slice-append :
    (m r : List ℕ) (pos n : ℕ)
    → slice (m ++ r) pos n ≡ slice m pos n ++ slice r (pos - length m) (n - (length m - pos))
slice-append m r pos n = ground (
  arith,
  drop-append pos m r,
  take-append n (drop pos m) (drop (pos - length m) r),
  length-drop pos m,
)

-- A write leaves the memory before it and behind it as it was, and is read back.
pub take-overwrite :
    (mem : List ℕ) (pos : ℕ) (src : List ℕ) → take pos (overwrite mem pos src) ≡ take pos mem
take-overwrite [] pos src = refl
take-overwrite (x ∷ mem) zero src = refl
take-overwrite (x ∷ mem) (suc pos) src = ap (◌∷◌ x) (take-overwrite mem pos src)

pub overwrite_eq :
    (mem : List ℕ) (pos : ℕ) (src : List ℕ)
    → pos + length src ≤ length mem
    → overwrite mem pos src ≡ take pos mem ++ (src ++ drop (pos + length src) mem)
overwrite_eq [] zero [] h = refl
overwrite_eq [] zero (b ∷ src) h = absurd (omega arith)
overwrite_eq [] (suc pos) src h = absurd (omega arith)
overwrite_eq (x ∷ mem) zero [] h = ground arith
overwrite_eq (x ∷ mem) zero (b ∷ src) h = ground (arith, overwrite_eq mem zero src (omega arith))
overwrite_eq (x ∷ mem) (suc pos) src h =
    rw (suc-add pos (length src)) (ap (◌∷◌ x) (overwrite_eq mem pos src (omega arith)))

pub slice-overwrite :
    (mem : List ℕ) (pos : ℕ) (src : List ℕ)
    → pos + length src ≤ length mem
    → slice (overwrite mem pos src) pos (length src) ≡ src
slice-overwrite [] zero [] h = refl
slice-overwrite [] zero (b ∷ src) h = absurd (omega arith)
slice-overwrite [] (suc pos) src h = absurd (omega arith)
slice-overwrite (x ∷ mem) zero [] h = refl
slice-overwrite (x ∷ mem) zero (b ∷ src) h = ap (◌∷◌ b) (slice-overwrite mem zero src (omega arith))
slice-overwrite (x ∷ mem) (suc pos) src h = slice-overwrite mem pos src (omega arith)

pub flat-append : (xs ys : List Node) → flat (xs ++ ys) ≡ flat xs ++ flat ys
flat-append [] ys = refl
flat-append (x ∷ xs) ys = ground (arith, flat-append xs ys, append_assoc x (flat xs) (flat ys))

-- Every node of a chain holds `base` bytes.
abbrev pub AllSized : ℕ → List Node → Type 0
AllSized base [] = Unit {0}
AllSized base (node ∷ nodes) = (length node ≡ base) × AllSized base nodes

pub AllSized-append :
    (base : ℕ) (xs ys : List Node) → AllSized base xs → AllSized base ys → AllSized base (xs ++ ys)
AllSized-append base [] ys h k = k
AllSized-append base (x ∷ xs) ys h k = (h.0, AllSized-append base xs ys h.1 k)

pub AllSized-left : (base : ℕ) (xs ys : List Node) → AllSized base (xs ++ ys) → AllSized base xs
AllSized-left base [] ys h = tt
AllSized-left base (x ∷ xs) ys h = (h.0, AllSized-left base xs ys h.1)

pub AllSized-right : (base : ℕ) (xs ys : List Node) → AllSized base (xs ++ ys) → AllSized base ys
AllSized-right base [] ys h = h
AllSized-right base (x ∷ xs) ys h = AllSized-right base xs ys h.1

pub length-flat :
    (base : ℕ) (ns : List Node) → AllSized base ns → length (flat ns) ≡ base * length ns
length-flat base [] h = omega arith
length-flat base (n ∷ ns) h = grind (arith, length-append n (flat ns), length-flat base ns h.1)

-- A write behind the first of two blocks.
pub overwrite_right :
    (m r : List ℕ) (pos : ℕ) (src : List ℕ)
    → length m ≤ pos
    → overwrite (m ++ r) pos src ≡ m ++ overwrite r (pos - length m) src
overwrite_right m r pos src h = ground (arith, overwrite-append m r pos src, overwrite-nil m pos)

module _ {ℓ} {A : Type ℓ} where
  pub take-take : (m n : ℕ) (xs : List A) → m ≤ n → take m (take n xs) ≡ take m xs
  take-take zero n xs h = refl
  take-take (suc m) zero xs h = absurd (omega arith)
  take-take (suc m) (suc n) [] h = refl
  take-take (suc m) (suc n) (x ∷ xs) h = ap (◌∷◌ x) (take-take m n xs (omega arith))

  pub drop-take : (m n : ℕ) (xs : List A) → drop m (take n xs) ≡ take (n - m) (drop m xs)
  drop-take zero zero xs = refl
  drop-take zero (suc n) xs = ground arith
  drop-take (suc m) zero xs = ground arith
  drop-take (suc m) (suc n) [] = sym (take_all (suc n - suc m) [] (omega arith))
  drop-take (suc m) (suc n) (x ∷ xs) = ground (arith, drop-take m n xs)

-- `bytes` with `buf` laid over it from `pos` on; it grows where `buf` ends behind its end.
abbrev pub splice : List ℕ → ℕ → List ℕ → List ℕ
splice bytes pos buf = take pos bytes ++ (buf ++ drop (pos + length buf) bytes)

-- What a write does to the bytes in use, the first `size` of `mem`, is a splice.
module _ (mem fresh : List ℕ) (size pos : ℕ) (buf : List ℕ) (pos_le : pos ≤ size)
    (size_le : size ≤ length mem) (room : pos + length buf ≤ length (mem ++ fresh)) where
  head_eq : take pos (mem ++ fresh) ≡ take pos (take size mem)
  head_eq =
      ground (arith, take-append pos mem fresh, append-nil (take pos mem), take-take pos size mem)

  tail_eq :
      take (size - (pos + length buf)) (drop (pos + length buf) (mem ++ fresh))
      ≡ drop (pos + length buf) (take size mem)
  tail_eq = ground (
    arith,
    drop-append (pos + length buf) mem fresh,
    drop-take (pos + length buf) size mem,
    take-append (size - (pos + length buf)) (drop (pos + length buf) mem)
        (drop (pos + length buf - length mem) fresh),
    length-drop (pos + length buf) mem,
    append-nil (take (size - (pos + length buf)) (drop (pos + length buf) mem)),
  )

  pub take-overwrite-splice :
      take (max (pos + length buf) size) (overwrite (mem ++ fresh) pos buf)
      ≡ splice (take size mem) pos buf
  take-overwrite-splice =
      let k = max (pos + length buf) size in
      ground (
        arith,
        overwrite_eq (mem ++ fresh) pos buf room,
        head_eq,
        tail_eq,
        length-append mem fresh,
        length-take pos (mem ++ fresh),
        take-append k (take pos (mem ++ fresh)) (buf ++ drop (pos + length buf) (mem ++ fresh)),
        take_all k (take pos (mem ++ fresh)),
        take-append (k - pos) buf (drop (pos + length buf) (mem ++ fresh)),
        take_all (k - pos) buf,
      )
