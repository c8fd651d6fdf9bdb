-- ===== src/Stream/Tests.antt =====
-- Runs of civan/stream.cc.
use civan.Common.{ℕ, ◌≡◌, refl, min, List, [], ◌∷◌, ◌++◌, some, take, drop, length, ◌^◌}
use civan.Stream.Fix.{Answer, moved, fix_loop, fix_size, signed_left, as_int}

-- A peer that takes 2 bytes at most at a time of the buffer 1, 2, 3, 4, 5; the state is what it has.
abbrev by_two : ℕ → ℕ → List ℕ → Answer × List ℕ
by_two offset left got =
    let piece = take (min 2 left) (drop offset (1 ∷ 2 ∷ 3 ∷ 4 ∷ 5 ∷ [])) in
    (moved (length piece), got ++ piece)

five_by_two : fix_size by_two 5 [] ≡ some (moved 5, 1 ∷ 2 ∷ 3 ∷ 4 ∷ 5 ∷ [])
unfolding fix_size fix_loop signed_left as_int
five_by_two = refl

-- 2 ^ 32 bytes asked for and moved come back as 0.
wrapped_length : as_int (2 ^ 32) ≡ moved 0
unfolding as_int
wrapped_length = refl
