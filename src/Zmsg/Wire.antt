-- ===== src/Zmsg/Wire.antt =====
-- What a message becomes on the wire and back: `recv` and `send` of mdp/mdp_zmsg.cpp.
use rtdbus.Base.{
  ◌≡◌, refl, sym, ap, ◌∙◌, ◌⊎◌, inl, inr, Bool, true, false, ◌&&◌, some, List, [], ◌∷◌, ◌++◌, Bytes,
  length, arith, ◌==◌, Bool-cases, ==_iff,
}
use mathlib.Core.List.{append-nil, append_assoc}
use rtdbus.Zmsg.{
  Zmsg, recv, recv_loop, recv_frame, send, send_loop, send_frame, first_is, uuid_length, IsUuid,
  AreBytes, decode-encode_uuid, encode-decode_uuid, c_str-IsUuid,
}

recv_loop-false : (m : Zmsg) (ws : List Bytes) → recv_loop false m ws ≡ some (m ++ ws)
unfolding recv_loop
recv_loop-false m [] = ap some (sym (append-nil m))
recv_loop-false m (w ∷ ws) = recv_loop-false (m ++ w ∷ []) ws ∙ ap some (append_assoc m (w ∷ []) ws)

pub recv_lem :
    (w : Bytes) (ws : List Bytes) (f : Bytes)
    → recv_frame true w ≡ some f
    → recv (w ∷ ws) ≡ some (f ∷ ws)
unfolding recv
recv_lem w ws f h = rw h (recv_loop-false (f ∷ []) ws)

send_loop-false : (fs : Zmsg) → send_loop false fs ≡ some fs
unfolding send_loop
send_loop-false [] = refl
send_loop-false (f ∷ fs) = rw (send_loop-false fs)

pub send_lem :
    (f : Bytes) (fs : Zmsg) (w : Bytes) → send_frame true f ≡ some w → send (f ∷ fs) ≡ some (w ∷ fs)
unfolding send send_loop
send_lem f fs w h = rw (h, send_loop-false fs)

-- The frame that the code takes for the text of an identity, and the one it takes for an identity.
abbrev pub is_text : Bytes → Bool
is_text f = length f == uuid_length && first_is b'@' f

abbrev pub is_identity : Bytes → Bool
is_identity w = length w == 5 && first_is 0 w

and_true : (a b : Bool) → (a && b) ≡ true → (a ≡ true) × (b ≡ true)
and_true a b h = ground arith

-- A frame that arrives first, and what `send` makes of it again.
send_frame-recv_frame :
    (w : Bytes)
    → AreBytes w
    → is_text w ≡ false
    → (f : Bytes) × (recv_frame true w ≡ some f) × (send_frame true f ≡ some w)
unfolding recv_frame send_frame
send_frame-recv_frame w ok plain = elim (Bool-cases (is_identity w)) [
  | inl id ↦
      let (len, nul) = and_true _ _ id in
      let (s, enc, eleven, at, dec, clean) = decode-encode_uuid w ((==_iff _ 5).0 len) nul ok in
      (s, rw (id, enc, clean), rw ((==_iff (length s) 11).1 eleven, at, dec))
  | inr other ↦ (w, rw other, rw plain)
]

send_frame-plain :
    (f : Bytes)
    → is_text f ≡ false
    → is_identity f ≡ false
    → (send_frame true f ≡ some f) × (recv_frame true f ≡ some f)
unfolding recv_frame send_frame
send_frame-plain f t i = (rw t, rw i)

is_text-IsUuid : (f : Bytes) → IsUuid f → is_text f ≡ true
unfolding first_is
is_text-IsUuid [] h = absurd h
is_text-IsUuid (c ∷ []) h = absurd h
is_text-IsUuid (c ∷ x ∷ []) h = absurd h
is_text-IsUuid (c ∷ x ∷ y ∷ rest) h = ground arith

recv_frame-send_frame_uuid :
    (f : Bytes)
    → IsUuid f
    → (w : Bytes) × (send_frame true f ≡ some w) × (recv_frame true w ≡ some f)
unfolding recv_frame send_frame
recv_frame-send_frame_uuid f h =
    let (d, dec, len, nul, enc) = encode-decode_uuid f h in
    (d, rw (is_text-IsUuid f h, dec), rw ((==_iff (length d) 5).1 len, nul, enc, c_str-IsUuid f h))

-- send after recv gives the wire frames back, where the first frame holds bytes and is not itself
-- eleven bytes that begin with @.
pub send-recv :
    (w : Bytes) (ws : List Bytes)
    → AreBytes w
    → is_text w ≡ false
    → (m : Zmsg) × (recv (w ∷ ws) ≡ some m) × (send m ≡ some (w ∷ ws))
send-recv w ws ok plain =
    let (f, back, forth) = send_frame-recv_frame w ok plain in
    (f ∷ ws, recv_lem w ws f back, send_lem f ws w forth)

-- recv after send gives the message back, where its first frame is the text of an identity, or
-- looks neither like that text nor like an identity.
pub recv-send :
    (f : Bytes) (fs : Zmsg)
    → IsUuid f ⊎ ((is_text f ≡ false) × (is_identity f ≡ false))
    → (ws : List Bytes) × (send (f ∷ fs) ≡ some ws) × (recv ws ≡ some (f ∷ fs))
recv-send f fs (inl h) =
    let (w, forth, back) = recv_frame-send_frame_uuid f h in
    (w ∷ fs, send_lem f fs w forth, recv_lem w fs f back)
recv-send f fs (inr (t, i)) =
    let (forth, back) = send_frame-plain f t i in
    (f ∷ fs, send_lem f fs f forth, recv_lem f fs f back)
