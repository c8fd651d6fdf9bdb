-- ===== src/SocketStream/Send.antt =====
-- The `write` of civan/socket_stream.cc that sends from a byte array. The socket is a parameter: what
-- `send` answers for the buffers, `none` for -1.
use civan.Common.{
  ℕ, zero, suc, ◌+◌, ◌-◌, ◌≤◌, ◌<◌, ◌≡◌, refl, ap, ◌∙◌, List, [], ◌∷◌, Option, none, some, Bool,
  true, if◌then◌else◌, not, length, drop, min, arith, length-take, length-drop,
}
use civan.Common.Outcome.{Outcome, ok, undefined, ◌>>=◌}
use civan.ByteArray.Nodes.{slice}
use civan.ByteArray.State.{ByteArray, set_position}
use civan.ByteArray.Invariant.{IsValid, IsAligned, contents}
use civan.ByteArray.Append.{length-contents}
use civan.ByteArray.Read.{set_position-Moved}
use civan.ByteArray.Buffers.{Iovec, covered, get_read_buffers, get_read_buffers-Covers}

-- After the call of `send`: a positive answer moves the position.
unfoldable pub after_send : Option ℕ → ByteArray → Outcome (Option ℕ × ByteArray)
after_send none s = ok (none, s)
after_send (some zero) s = ok (some 0, s)
after_send (some (suc n)) s = set_position (s.position + suc n) s >>= λ s'. ok (some (suc n), s')

-- `&iovs[0]` of no buffers is undefined.
unfoldable pub send_buffers :
    (List Iovec → Option ℕ) → ByteArray → List Iovec → Outcome (Option ℕ × ByteArray)
unfolding after_send
send_buffers send s [] = undefined
send_buffers send s (v ∷ iovs) = after_send (send (v ∷ iovs)) s

unfoldable pub write_from :
    Bool → (List Iovec → Option ℕ) → ℕ → ByteArray → Outcome (Option ℕ × ByteArray)
unfolding send_buffers
write_from is_connected send len s =
    if not is_connected
    then ok (none, s)
    else (get_read_buffers len s >>= λ filled. send_buffers send s filled.1)

-- What `write` leaves where the socket has sent some bytes.
pub record Sent (send : List Iovec → Option ℕ) (len : ℕ) (s : ByteArray) : Type 0 where
  pub buffers : List Iovec
  pub asked : covered buffers ≡ slice (contents s) s.position (min (s.size - s.position) len)
  pub after : ByteArray
  pub returns : write_from true send len s ≡ ok (send buffers, after)
  pub valid : IsValid after
  pub aligned : IsAligned after
  pub same_bytes : contents after ≡ contents s
  pub moved : (n : ℕ) → send buffers ≡ some n → after.position ≡ s.position + n
  pub stays : send buffers ≡ none → after.position ≡ s.position

-- What `send` leaves, by its answer.
record Answered (answer : Option ℕ) (s : ByteArray) : Type 0 where
  end : ByteArray
  comes : after_send answer s ≡ ok (answer, end)
  is_valid : IsValid end
  is_aligned : IsAligned end
  kept : contents end ≡ contents s
  moves : (n : ℕ) → answer ≡ some n → end.position ≡ s.position + n
  keeps : answer ≡ none → end.position ≡ s.position

pub some_number : {m n : ℕ} → some m ≡ some n → m ≡ n
some_number {m} h = ap (λ o. elim o as (λ x. ℕ) [ some x ↦ x | none ↦ m ]) h

after_send-Answered :
    (answer : Option ℕ) (s : ByteArray)
    → IsValid s
    → IsAligned s
    → ((n : ℕ) → answer ≡ some n → n ≤ s.size - s.position)
    → Answered answer s
unfolding after_send
after_send-Answered none s v a few = record {
  end = s;
  comes = refl;
  is_valid = v;
  is_aligned = a;
  kept = refl;
  moves = λ n e. cc;
  keeps = λ e. refl;
}
after_send-Answered (some zero) s v a few = record {
  end = s;
  comes = refl;
  is_valid = v;
  is_aligned = a;
  kept = refl;
  moves = λ n e. omega (arith, some_number e);
  keeps = λ e. cc;
}
after_send-Answered (some (suc k)) s v a few =
    let fits : suc k ≤ s.size - s.position = few (suc k) refl in
    let m =
      set_position-Moved (s.position + suc k) s v (omega (arith, fits, v.size_le, v.position_le)) in
    let same_size : m.after.size ≡ s.size = omega (arith, m.sized, fits, v.position_le) in
    record {
      end = m.after;
      comes = rw (m.returns) refl;
      is_valid = m.valid;
      is_aligned = m.aligned;
      kept = rw (same_size, m.chain) refl;
      moves = λ n e. m.moved ∙ omega (arith, some_number e);
      keeps = λ e. cc;
    }

-- The buffers are there as they cover some bytes.
send_buffers-after_send :
    (send : List Iovec → Option ℕ) (buffers : List Iovec) (s : ByteArray)
    → 0 < length (covered buffers)
    → send_buffers send s buffers ≡ after_send (send buffers) s
unfolding send_buffers
send_buffers-after_send send [] s some_bytes = absurd (omega (arith, some_bytes))
send_buffers-after_send send (v ∷ vs) s some_bytes = refl

-- On a connected stream, with a valid array whose cursor is aligned and which has bytes to send,
-- `write` hands the socket buffers that cover, in order, the bytes from the position on: as many as are
-- asked for, or as there are. It answers what the socket answers, which sends at most those bytes, and
-- moves the position by as many as were sent: the array stays valid, aligned and with the same bytes.
pub write_from-Sent :
    (send : List Iovec → Option ℕ) (len : ℕ) (s : ByteArray)
    → IsValid s
    → IsAligned s
    → 0 < min (s.size - s.position) len
    → ((iovs : List Iovec) (n : ℕ) → send iovs ≡ some n → n ≤ length (covered iovs))
    → Sent send len s
unfolding write_from
write_from-Sent send len s v a some_bytes within =
    let n = min (s.size - s.position) len in
    let b = get_read_buffers-Covers len s v a in
    let held : length (contents s) ≡ s.size = length-contents s v in
    let many : length (covered b.buffers) ≡ n =
      ap length b.run
      ∙ omega (
        arith,
        held,
        v.position_le,
        length-take n (drop s.position (contents s)),
        length-drop s.position (contents s),
      ) in
    let e =
      after_send-Answered (send b.buffers) s v a
        (λ k sent. omega (arith, within b.buffers k sent, many)) in
    record {
      buffers = b.buffers;
      asked = b.run;
      after = e.end;
      returns =
          rw (b.returns)
            (send_buffers-after_send send b.buffers s (omega (arith, many, some_bytes)) ∙ e.comes);
      valid = e.is_valid;
      aligned = e.is_aligned;
      same_bytes = e.kept;
      moved = e.moves;
      stays = e.keeps;
    }
