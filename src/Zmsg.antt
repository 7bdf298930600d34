-- ===== src/Zmsg.antt =====
-- mdp/mdp_zmsg.cpp: a multipart message, as the list of its frames (m_part_data).
-- A function of the source that takes a `char*` reads it up to its first NUL (`c_str`); a call that
-- would end in an undefined read or a failed assert is `none`.
mod Uuid
pub mod Wire
pub mod Envelope
pub mod Tests
unfoldable pub use Uuid.{hex_char, encode_bytes, encode_uuid, hex_to_bin, decode_pairs, decode_uuid}
unfoldable pub use Uuid.{first_is, uuid_length}
pub use Uuid.{decode-encode_uuid, encode-decode_uuid, c_str-IsUuid, IsUuid, AreBytes}
use mathlib.Core.Option
use rtdbus.Base.{
  ℕ, suc, ◌+◌, ◌-◌, Bool, true, false, if◌then◌else◌, ◌==◌, Option, none, some, List, [], ◌∷◌, ◌++◌,
  Bytes, c_str, length, get_elem?, set, drop_last, ◌&&◌, ◌>>=◌,
}

abbrev pub Zmsg : Type 0
Zmsg = List Bytes

unfoldable pub parts : Zmsg → ℕ
parts m = length m

unfoldable pub clear : Zmsg → Zmsg
clear m = []

-- push_front (char*) and push_front (std::string&)
unfoldable pub push_front : Bytes → Zmsg → Zmsg
unfolding c_str
push_front part m = c_str part ∷ m

unfoldable pub push_front_string : Bytes → Zmsg → Zmsg
push_front_string part m = part ∷ m

unfoldable pub push_back : Bytes → Zmsg → Zmsg
unfolding c_str
push_back part m = m ++ c_str part ∷ []

unfoldable pub push_back_string : Bytes → Zmsg → Zmsg
push_back_string part m = m ++ part ∷ []

unfoldable pub get_part : ℕ → Zmsg → Option Bytes
get_part i m = get_elem? m i

unfoldable pub set_part : ℕ → Bytes → Zmsg → Zmsg
unfolding c_str
set_part i data' m = set m i (c_str data')

-- The last frame is replaced; an empty message gets one frame.
unfoldable pub body_set : Bytes → Zmsg → Zmsg
unfolding push_back
body_set body m = push_back body (drop_last m)

unfoldable pub body : Zmsg → Option Bytes
unfolding c_str
body [] = none
body (f ∷ []) = some (c_str f)
body (f ∷ g ∷ fs) = body (g ∷ fs)

unfoldable pub front : Zmsg → Option Bytes
front [] = none
front (f ∷ fs) = some f

-- On an empty message the source builds a std::string from a null pointer.
unfoldable pub pop_front : Zmsg → Option (Bytes × Zmsg)
pop_front [] = none
pop_front (f ∷ fs) = some (f, fs)

unfoldable pub address : Zmsg → Option Bytes
unfolding c_str
address [] = none
address (f ∷ fs) = some (c_str f)

unfoldable pub wrap : Bytes → Option Bytes → Zmsg → Zmsg
unfolding push_front
wrap addr none m = push_front addr m
wrap addr (some delim) m = push_front addr (push_front delim m)

-- address () && *address () == 0
unfoldable pub is_empty_address : Option Bytes → Bool
is_empty_address (some []) = true
is_empty_address _ = false

-- The address that is taken off, with the empty frame behind it.
unfoldable pub unwrap : Zmsg → Option (Bytes × Zmsg)
unfolding address is_empty_address
unwrap [] = none
unwrap (addr ∷ []) = some (addr, [])
unwrap (addr ∷ f ∷ fs) = some (addr, if is_empty_address (address (f ∷ fs)) then fs else f ∷ fs)

-- What `recv` makes of a frame: in the first iteration a 5-byte identity becomes text.
unfoldable pub recv_frame : Bool → Bytes → Option Bytes
unfolding c_str first_is
recv_frame first data' =
    let encoded = encode_uuid data' in
    if first && (length data' == 5 && first_is 0 data')
    then Option.map c_str encoded
    else some data'

-- The loop of `recv`, over the frames that arrive.
unfoldable pub recv_loop : Bool → Zmsg → List Bytes → Option Zmsg
unfolding recv_frame push_back_string
recv_loop first m [] = some m
recv_loop first m (w ∷ ws) = do f ← recv_frame first w; recv_loop false (push_back_string f m) ws

unfoldable pub recv : List Bytes → Option Zmsg
unfolding recv_loop clear
recv ws = recv_loop true (clear []) ws

-- What `send` puts on the wire for a frame: in the first part the text becomes an identity again.
unfoldable pub send_frame : Bool → Bytes → Option Bytes
unfolding first_is
send_frame first data' =
    let decoded = decode_uuid data' in
    if first && (length data' == uuid_length && first_is b'@' data') then decoded else some data'

unfoldable pub send_loop : Bool → Zmsg → Option (List Bytes)
unfolding send_frame
send_loop first [] = some []
send_loop first (f ∷ fs) = do w ← send_frame first f; ws ← send_loop false fs; some (w ∷ ws)

unfoldable pub send : Zmsg → Option (List Bytes)
unfolding send_loop
send m = send_loop true m
