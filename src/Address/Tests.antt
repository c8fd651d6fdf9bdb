-- ===== src/Address/Tests.antt =====
-- Runs of civan/address.cc on short addresses.
use civan.Common.{◌≡◌, refl, [], ◌∷◌, true, false}
use civan.Address.Order.{address_less, address_equal, memcmp, is_zero}

less_shorter : address_less (2 ∷ 0 ∷ []) (2 ∷ 0 ∷ 80 ∷ []) ≡ true
unfolding address_less memcmp
less_shorter = refl

less_later : address_less (2 ∷ 1 ∷ []) (2 ∷ 0 ∷ 80 ∷ []) ≡ false
unfolding address_less memcmp
less_later = refl

equal_longer : address_equal (2 ∷ 0 ∷ []) (2 ∷ 0 ∷ 80 ∷ []) ≡ false
unfolding address_equal memcmp is_zero
equal_longer = refl
