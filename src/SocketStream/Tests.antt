-- ===== src/SocketStream/Tests.antt =====
-- Runs of civan/socket_stream.cc on a small array.
use civan.Common.{
  ℕ, ◌≡◌, ◌≤◌, refl, List, [], ◌∷◌, Option, none, some, length, min, true, false, arith,
}
use civan.Common.Outcome.{ok, undefined}
use civan.ByteArray.State.{ByteArray, big_endian, get_read_size}
use civan.ByteArray.Invariant.{IsValid, IsAligned}
use civan.ByteArray.Buffers.{Iovec, covered, get_read_buffers}
use civan.SocketStream.Send.{write_from, Sent, write_from-Sent, some_number, send_buffers}

-- Two blocks of 4 bytes, of which 7 are in use, with the position at 2.
abbrev half_sent : ByteArray
half_sent = record {
  base_size = 4;
  position = 2;
  capacity = 8;
  size = 7;
  endian = big_endian;
  passed = [];
  ahead = (1 ∷ 2 ∷ 3 ∷ 4 ∷ []) ∷ (5 ∷ 6 ∷ 7 ∷ 0 ∷ []) ∷ [];
  fill = 0;
}

half_sent-IsValid : IsValid half_sent
half_sent-IsValid = record {
  base_pos = omega arith;
  sized = (refl, (refl, tt));
  root = λ e. cc;
  holds = refl;
  position_le = omega arith;
  size_le = omega arith;
  fits = omega arith;
}

half_sent-IsAligned : IsAligned half_sent
half_sent-IsAligned = record { from = omega arith; to = omega arith }

-- A socket that takes 3 bytes at a time.
abbrev slow_send : List Iovec → Option ℕ
slow_send iovs = some (min 3 (length (covered iovs)))

slow_send_within : (iovs : List Iovec) (n : ℕ) → slow_send iovs ≡ some n → n ≤ length (covered iovs)
slow_send_within iovs n e = omega (arith, some_number e)

write_from-Sent_example : Sent slow_send 9 half_sent
write_from-Sent_example =
    write_from-Sent slow_send 9 half_sent half_sent-IsValid half_sent-IsAligned (omega arith)
      slow_send_within

write_from_closed : write_from false slow_send 9 half_sent ≡ ok (none, half_sent)
unfolding write_from
write_from_closed = refl

-- Nothing to send: the buffers have no first one.
write_from_none : write_from true slow_send 0 half_sent ≡ undefined
unfolding write_from send_buffers get_read_buffers get_read_size
write_from_none = refl
