-- ===== src/ByteArray/Feed.antt =====
-- A byte array that is read from its position on, as a list of bytes still to come.
use civan.Common.{
  ℕ, ◌+◌, ◌≤◌, ◌<◌, ◌≡◌, ap, ◌∙◌, List, [], ◌∷◌, ◌++◌, arith, length, take, drop, length-append,
  length-drop, append-nil, zero, suc,
}
use civan.Common.Outcome.{Outcome, ok}
use native.Mathlib.Nat.{suc-add}
use civan.ByteArray.Nodes.{flat, slice}
use civan.ByteArray.State.{ByteArray, nodes, read, set_position}
use civan.ByteArray.Memory.{take_all, drop_all, take-append, drop-append}
use civan.ByteArray.Invariant.{IsValid, IsAligned, contents}
use civan.ByteArray.Read.{WasRead, read-WasRead, set_position-Moved}
use civan.ByteArray.Append.{length-contents}

-- `bytes` stands between the position and the end of the contents.
pub record Feeds (bytes : List ℕ) (s : ByteArray) : Type 0 where
  pub valid : IsValid s
  pub aligned : IsAligned s
  pub left : drop s.position (contents s) ≡ bytes

-- A call that takes a value `v` from the front, and leaves `rest`.
pub record Takes {ℓ} {A : Type ℓ} (v : A) (rest : List ℕ) (s : ByteArray)
    (call : Outcome (A × ByteArray)) : Type ℓ where
  pub after : ByteArray
  pub returns : call ≡ ok (v, after)
  pub feeds : Feeds rest after
  pub endian_kept : after.endian ≡ s.endian

pub drop-drop {ℓ} : {A : Type ℓ} (m n : ℕ) (xs : List A) → drop (m + n) xs ≡ drop n (drop m xs)
drop-drop zero n xs = ground arith
drop-drop {A} (suc m) n [] = ground (arith, drop_all {A = A} (suc m + n) [], drop_all {A = A} n [])
drop-drop (suc m) n (x ∷ xs) = rw (suc-add m n) (drop-drop m n xs)

module _ (bytes rest : List ℕ) (s : ByteArray) (f : Feeds (bytes ++ rest) s)
    (some_bytes : 0 < length bytes) where
  enough : s.position + length bytes ≤ s.size
  enough = omega (
    arith,
    ap length f.left,
    length-drop s.position (contents s),
    length-contents s f.valid,
    length-append bytes rest,
  )

  was_read : WasRead (length bytes) s
  was_read = read-WasRead (length bytes) s f.valid f.aligned some_bytes enough

  taken : slice (contents s) s.position (length bytes) ≡ bytes
  taken = ground (
    arith,
    f.left,
    take-append (length bytes) bytes rest,
    take_all (length bytes) bytes,
    append-nil bytes,
  )

  dropped : drop (s.position + length bytes) (contents s) ≡ rest
  dropped = ground (
    arith,
    drop-drop s.position (length bytes) (contents s),
    f.left,
    drop-append (length bytes) bytes rest,
    drop_all (length bytes) bytes,
  )

  -- `read` takes the bytes at the front.
  pub read-Takes : Takes bytes rest s (read (length bytes) s)
  read-Takes = record {
    after = was_read.after;
    returns = was_read.returns ∙ ap (λ bs. ok (bs, was_read.after)) taken;
    feeds = record {
      valid = was_read.valid;
      aligned = was_read.aligned;
      left = rw (was_read.view, was_read.moved) dropped;
    };
    endian_kept = was_read.endian_kept;
  }

-- A read by a length that is known to be that of the bytes at the front.
pub read-Takes-length :
    (n : ℕ) (bytes rest : List ℕ) (s : ByteArray)
    → Feeds (bytes ++ rest) s
    → length bytes ≡ n
    → 0 < n
    → Takes bytes rest s (read n s)
read-Takes-length n bytes rest s f e h = rw e at (read-Takes bytes rest s f (omega arith))

-- `setPosition(0)` puts the whole contents to come.
pub rewind-Feeds :
    (s : ByteArray) (v : IsValid s)
    → (s' : ByteArray) × (set_position 0 s ≡ ok s') × Feeds (contents s) s' × (s'.endian ≡ s.endian)
rewind-Feeds s v =
    let to_start = set_position-Moved 0 s v (omega arith) in
    (
      to_start.after,
      to_start.returns,
      record {
        valid = to_start.valid;
        aligned = to_start.aligned;
        left =
            rw (to_start.moved, to_start.sized, to_start.chain)
              (ap (λ k. take k (flat (nodes s))) (omega arith));
      },
      to_start.endian_kept,
    )
