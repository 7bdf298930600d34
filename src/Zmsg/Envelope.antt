-- ===== src/Zmsg/Envelope.antt =====
-- The envelope of a message: `wrap` and `unwrap` of mdp/mdp_zmsg.cpp, and `body_set`.
use rtdbus.Base.{◌≡◌, ◌≢◌, refl, some, [], ◌∷◌, ◌++◌, Bytes, c_str, arith, drop_last-append}
use rtdbus.Zmsg.{Zmsg, wrap, unwrap, body_set}

-- What a `char*` made of a string holds: no NUL, so that `c_str` changes nothing.
abbrev pub IsClean : Bytes → Type 0
IsClean s = c_str s ≡ s

-- `unwrap` takes off the address and the empty frame that `wrap` put on, whatever the message.
pub unwrap-wrap : (a : Bytes) (m : Zmsg) → unwrap (wrap a (some []) m) ≡ some (c_str a, m)
unfolding unwrap wrap
unwrap-wrap a m = refl

-- Behind an address with no empty frame, a frame of text stays where it is.
pub unwrap_bare : (a f : Bytes) (m : Zmsg) → c_str f ≢ [] → unwrap (a ∷ f ∷ m) ≡ some (a, f ∷ m)
unfolding unwrap
unwrap_bare a f m h = ground arith

-- Setting the body replaces the last frame, and keeps those before it.
pub body_set_last : (m : Zmsg) (f b : Bytes) → body_set b (m ++ f ∷ []) ≡ m ++ c_str b ∷ []
unfolding body_set
body_set_last m f b = rw (drop_last-append m f)
