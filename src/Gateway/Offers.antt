-- ===== src/Gateway/Offers.antt =====
-- To whom modules/websocket/websocket.gateway.ts offers a session.
use aalam_security_back.Common.{Bool, false, not, ◌&&◌, List, [], ◌∷◌, any}
use aalam_security_back.Services.{Services, Socket, is_in}
use aalam_security_back.World.{World, Emission}

-- Whether the server delivers an emission to a client: it is in one of the rooms and in none of
-- the excluded ones.
abbrev pub is_delivered : Emission → Socket → Bool
is_delivered e c = any (λ r. is_in r c) e.rooms && not (any (λ r. is_in r c) e.excluded)

abbrev pub last_delivered : List Emission → Socket → Bool
last_delivered [] c = false
last_delivered (e ∷ es) c = is_delivered e c
