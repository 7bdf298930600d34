-- ===== src/Zmsg/Uuid.antt =====
-- encode_uuid and decode_uuid of mdp/mdp_zmsg.cpp: a 5-byte identity of a peer, whose first byte is
-- 0, against its printable form, `@` and ten hexadecimal digits.
use rtdbus.Base.{
  ℕ, zero, suc, ◌+◌, ◌-◌, ◌*◌, ◌/◌, ◌%◌, ◌<◌, ◌≡◌, refl, ap, Bool, true, false, ◌&&◌, ◌||◌, Option,
  none, some, [], ◌∷◌, Bytes, text, c_str, length, take, take-all, arith, ltb, leb, ◌==◌,
  if◌then◌else◌, guard, ◌>>◌, ==_iff,
}

-- IDENTITY_MAXLEN
abbrev pub uuid_length : ℕ
uuid_length = 11

-- data [0] == c; a read past the end meets the terminating NUL.
unfoldable pub first_is : ℕ → Bytes → Bool
first_is c [] = c == 0
first_is c (x ∷ xs) = x == c

abbrev at_or_zero : Bytes → ℕ → ℕ
at_or_zero [] i = 0
at_or_zero (x ∷ xs) zero = x
at_or_zero (x ∷ xs) (suc i) = at_or_zero xs i

unfoldable pub hex_char : ℕ → ℕ
hex_char n = at_or_zero (text "0123456789ABCDEF") n

unfoldable pub encode_bytes : Bytes → Bytes
unfolding hex_char
encode_bytes [] = []
encode_bytes (b ∷ bs) = hex_char (b / 16) ∷ hex_char (b % 16) ∷ encode_bytes bs

unfoldable pub encode_uuid : Bytes → Option Bytes
unfolding encode_bytes first_is
encode_uuid data' = do guard (first_is 0 data'); some (b'@' ∷ encode_bytes (take 5 data'))

-- The table of the source, whose -1 is 255 in the byte that is stored.
unfoldable pub hex_to_bin : ℕ → ℕ
hex_to_bin c =
    if leb b'0' c && leb c b'9'
    then c - b'0'
    else if leb b'A' c && leb c b'F'
    then c - b'A' + 10
    else if leb b'a' c && leb c b'f'
    then c - b'a' + 10
    else 255

unfoldable pub decode_pairs : Bytes → Bytes
unfolding hex_to_bin
decode_pairs [] = []
decode_pairs (h ∷ []) = []
decode_pairs (h ∷ l ∷ rest) =
    (hex_to_bin (h % 128) * 16 + hex_to_bin (l % 128)) % 256 ∷ decode_pairs rest

unfoldable pub decode_uuid : Bytes → Option Bytes
unfolding decode_pairs first_is
decode_uuid [] = none
decode_uuid (c ∷ cs) = do
  guard (length (c ∷ cs) == uuid_length)
  guard (first_is b'@' (c ∷ cs))
  some (decode_pairs cs)

abbrev pub AreBytes : Bytes → Type 0
AreBytes [] = Unit
AreBytes (b ∷ bs) = (b < 256) × AreBytes bs

-- The digits are few: a test is run on each of them.
test_each : (ℕ → Bool) → ℕ → Bool
test_each ok zero = true
test_each ok (suc top) = test_each ok top && ok top

test_each_lem :
    (ok : ℕ → Bool) (top digit : ℕ) → digit < top → test_each ok top ≡ true → ok digit ≡ true
unfolding test_each
test_each_lem ok zero digit below passed = absurd (omega arith)
test_each_lem ok (suc top) digit below passed = ground (arith, test_each_lem ok top digit)

nibble_table : test_each (λ n. hex_to_bin (hex_char n % 128) == n) 16 ≡ true
unfolding test_each hex_to_bin hex_char
nibble_table = refl

hex_to_bin-hex_char : (n : ℕ) → n < 16 → hex_to_bin (hex_char n % 128) ≡ n
hex_to_bin-hex_char n h = (==_iff _ n).0 (test_each_lem _ 16 n h nibble_table)

decode_pairs-encode_bytes : (bs : Bytes) → AreBytes bs → decode_pairs (encode_bytes bs) ≡ bs
unfolding decode_pairs encode_bytes
decode_pairs-encode_bytes [] h = refl
decode_pairs-encode_bytes (b ∷ bs) h =
    rw
      (
        hex_to_bin-hex_char (b / 16) (omega arith),
        hex_to_bin-hex_char (b % 16) (omega arith),
        decode_pairs-encode_bytes bs h.1,
      )
      (ap (λ (t : ℕ). t ∷ bs) (omega arith))

pub length-encode_bytes : (bs : Bytes) → length (encode_bytes bs) ≡ 2 * length bs
unfolding encode_bytes
length-encode_bytes [] = refl
length-encode_bytes (b ∷ bs) = omega (arith, length-encode_bytes bs)

-- An upper-case hexadecimal digit, the only kind that encode_uuid writes.
abbrev is_hex : ℕ → Bool
is_hex c = (leb b'0' c && leb c b'9') || (leb b'A' c && leb c b'F')

abbrev IsHexPairs : Bytes → Type 0
IsHexPairs [] = Unit
IsHexPairs (h ∷ []) = ⊥
IsHexPairs (h ∷ l ∷ rest) = (is_hex h ≡ true) × (is_hex l ≡ true) × IsHexPairs rest

-- A text that encode_uuid may have written: @00, and eight more digits.
abbrev pub IsUuid : Bytes → Type 0
IsUuid (c ∷ h ∷ l ∷ rest) =
    (c ≡ b'@') × (h ≡ b'0') × (l ≡ b'0') × (length rest ≡ 8) × IsHexPairs rest
IsUuid _ = ⊥

nonzero_table : test_each (λ n. ltb 0 (hex_char n)) 16 ≡ true
unfolding test_each hex_char
nonzero_table = refl

hex_char-pos : (n : ℕ) → n < 16 → (hex_char n == 0) ≡ false
hex_char-pos n h = ground (arith, test_each_lem _ 16 n h nonzero_table)

-- No NUL stands in a text that encode_uuid writes.
c_str-encode_bytes : (bs : Bytes) → AreBytes bs → c_str (encode_bytes bs) ≡ encode_bytes bs
unfolding c_str encode_bytes
c_str-encode_bytes [] h = refl
c_str-encode_bytes (b ∷ bs) h = rw (
  hex_char-pos (b / 16) (omega arith),
  hex_char-pos (b % 16) (omega arith),
  c_str-encode_bytes bs h.1,
)

c_str-IsHexPairs : (cs : Bytes) → IsHexPairs cs → c_str cs ≡ cs
unfolding c_str
c_str-IsHexPairs [] h = refl
c_str-IsHexPairs (x ∷ []) h = absurd h
c_str-IsHexPairs (x ∷ y ∷ rest) h = ground (arith, c_str-IsHexPairs rest h.2)

pub c_str-IsUuid : (s : Bytes) → IsUuid s → c_str s ≡ s
unfolding c_str
c_str-IsUuid [] h = absurd h
c_str-IsUuid (c ∷ []) h = absurd h
c_str-IsUuid (c ∷ x ∷ []) h = absurd h
c_str-IsUuid (c ∷ x ∷ y ∷ rest) h = ground (arith, c_str-IsHexPairs rest h.4)

-- encode_uuid makes of a 5-byte identity that begins with a zero a text of eleven characters with
-- @ in front and no NUL, which decode_uuid turns back into the identity.
pub decode-encode_uuid :
    (d : Bytes)
    → length d ≡ 5
    → first_is 0 d ≡ true
    → AreBytes d
    → (s : Bytes) × (encode_uuid d ≡ some s)
      × (length s ≡ uuid_length)
      × (first_is b'@' s ≡ true)
      × (decode_uuid s ≡ some d)
      × (c_str s ≡ s)
unfolding encode_uuid decode_uuid c_str
decode-encode_uuid d five zero' ok =
    let s : Bytes = b'@' ∷ encode_bytes d in
    let len : length s ≡ 11 = omega (arith, length-encode_bytes d) in
    let enc : encode_uuid d ≡ some s = rw (zero', take-all 5 d (omega arith)) in
    let dec : decode_uuid s ≡ some d =
      rw ((==_iff (length s) 11).1 len, decode_pairs-encode_bytes d ok) in
    (s, enc, len, refl, dec, ap (◌∷◌ b'@') (c_str-encode_bytes d ok))

digit_table :
    test_each
      (λ c.
        if is_hex c
        then hex_char (hex_to_bin (c % 128)) == c && ltb (hex_to_bin (c % 128)) 16
        else true)
      128
    ≡ true
unfolding test_each hex_to_bin hex_char
digit_table = refl

hex_char-hex_to_bin :
    (c : ℕ) → is_hex c ≡ true → (hex_char (hex_to_bin (c % 128)) ≡ c) × (hex_to_bin (c % 128) < 16)
hex_char-hex_to_bin c h =
    let small : c < 128 = ground arith in ground (arith, test_each_lem _ 128 c small digit_table)

encode_bytes-decode_pairs : (cs : Bytes) → IsHexPairs cs → encode_bytes (decode_pairs cs) ≡ cs
unfolding encode_bytes decode_pairs
encode_bytes-decode_pairs [] h = refl
encode_bytes-decode_pairs (x ∷ []) h = absurd h
encode_bytes-decode_pairs (x ∷ y ∷ rest) h =
    let (bx, lx) = hex_char-hex_to_bin x h.0 in
    let (by, ly) = hex_char-hex_to_bin y h.1 in
    let hi : (hex_to_bin (x % 128) * 16 + hex_to_bin (y % 128)) % 256 / 16 ≡ hex_to_bin (x % 128) =
      omega arith in
    let lo : (hex_to_bin (x % 128) * 16 + hex_to_bin (y % 128)) % 256 % 16 ≡ hex_to_bin (y % 128) =
      omega arith in
    rw (hi, lo, bx, by, encode_bytes-decode_pairs rest h.2)

pub length-decode_pairs : (cs : Bytes) → IsHexPairs cs → 2 * length (decode_pairs cs) ≡ length cs
unfolding decode_pairs
length-decode_pairs [] h = refl
length-decode_pairs (x ∷ []) h = absurd h
length-decode_pairs (x ∷ y ∷ rest) h = omega (arith, length-decode_pairs rest h.2)

-- The text @00 and eight digits more, whose identity begins with a zero byte.
encode-decode_digits :
    (rest : Bytes)
    → length rest ≡ 8
    → IsHexPairs rest
    → let d : Bytes = 0 ∷ decode_pairs rest in
      let s : Bytes = b'@' ∷ b'0' ∷ b'0' ∷ rest in
      (decode_uuid s ≡ some d) × (length d ≡ 5) × (encode_uuid d ≡ some s)
unfolding encode_uuid decode_uuid
encode-decode_digits rest len ok =
    let four : length (decode_pairs rest) ≡ 4 = omega (arith, length-decode_pairs rest ok) in
    (
      rw len refl,
      omega arith,
      rw (take-all 4 (decode_pairs rest) (omega arith), encode_bytes-decode_pairs rest ok),
    )

-- decode_uuid makes of the text of an identity five bytes that begin with a zero, which
-- encode_uuid turns back into the text.
pub encode-decode_uuid :
    (s : Bytes)
    → IsUuid s
    → (d : Bytes) × (decode_uuid s ≡ some d)
      × (length d ≡ 5)
      × (first_is 0 d ≡ true)
      × (encode_uuid d ≡ some s)
unfolding first_is
encode-decode_uuid [] h = absurd h
encode-decode_uuid (c ∷ []) h = absurd h
encode-decode_uuid (c ∷ x ∷ []) h = absurd h
encode-decode_uuid (c ∷ x ∷ y ∷ rest) h =
    let (dec, len, enc) = encode-decode_digits rest h.3 h.4 in
    (0 ∷ decode_pairs rest, rw (h.0, h.1, h.2) dec, len, refl, rw (h.0, h.1, h.2) enc)
