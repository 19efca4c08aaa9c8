-- ===== src/Packet/Tests.antt =====
-- Byte order on concrete values: server/backend/net_utils.hpp and server/backend/worker.cpp.
use clean_slate_inc.Prelude.{ℕ, ◌≡◌, refl, List, [], ◌∷◌}
use clean_slate_inc.Packet.{htobe16, memcpy_htobe32_select}

abbrev eight : List ℕ
eight = 1 ∷ 2 ∷ 3 ∷ 4 ∷ 5 ∷ 6 ∷ 7 ∷ 8 ∷ []

eight_swapped : memcpy_htobe32_select eight ≡ 4 ∷ 3 ∷ 2 ∷ 1 ∷ 8 ∷ 7 ∷ 6 ∷ 5 ∷ []
unfolding memcpy_htobe32_select
eight_swapped = refl

htobe16_test : htobe16 258 ≡ 513
unfolding htobe16
htobe16_test = refl
