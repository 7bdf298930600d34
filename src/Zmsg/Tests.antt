-- ===== src/Zmsg/Tests.antt =====
-- Examples of the properties of messages.
use rtdbus.Base.{Bytes, text, ◌≡◌, refl, some, [], ◌∷◌, arith}
use rtdbus.Zmsg.{AreBytes, Zmsg, recv, send}
use rtdbus.Zmsg.Wire.{send-recv}

-- The identity that a peer of a ROUTER socket gets: a zero and four bytes.
abbrev peer : Bytes
peer = 0 ∷ 1 ∷ 171 ∷ 16 ∷ 255 ∷ []

peer-AreBytes : AreBytes peer
peer-AreBytes = (omega arith, (omega arith, (omega arith, (omega arith, (omega arith, tt)))))

send-recv_example :
    (m : Zmsg) × (recv (peer ∷ [] ∷ text "MDPC0X" ∷ []) ≡ some m)
    × (send m ≡ some (peer ∷ [] ∷ text "MDPC0X" ∷ []))
send-recv_example = send-recv peer ([] ∷ text "MDPC0X" ∷ []) peer-AreBytes refl
