-- ===== src/Worker/Groups.antt =====
-- An answer of another group than the current one: `get_position` of server/backend/worker.cpp.
use clean_slate_inc.Prelude.{ℕ, ◌≡◌, ◌≢◌, arith}
use clean_slate_inc.Packet.{Mbuf, get_group_id}
use clean_slate_inc.Window.{Window, invalid_position, get_position}

-- An answer of another group than the current one has no position.
pub other_group_invalid :
    {F : Type 0} (group : ℕ) (v : Window F) (pkt : Mbuf)
    → group ≢ get_group_id pkt
    → get_position group v pkt ≡ invalid_position
unfolding get_position
other_group_invalid group v pkt ne = ground arith
