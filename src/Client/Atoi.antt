-- ===== src/Client/Atoi.antt =====
-- atoi, as mdp/mdp_client_async_api.cpp uses it: white space, a sign, digits; a value that an int
-- does not hold is undefined.
use rtdbus.Base.{
  ℕ, zero, suc, ◌+◌, ◌-◌, ◌*◌, Bytes, Bool, true, false, Option, none, some, [], ◌∷◌, ◌==◌, ◌&&◌,
  ◌||◌, if◌then◌else◌, leb,
}

-- `negsuc n` is -(n + 1).
pub data ℤ : Type 0 where
  pos : ℕ → ℤ
  negsuc : ℕ → ℤ

-- 0 - n
unfoldable pub negate : ℕ → ℤ
negate zero = pos 0
negate (suc n) = negsuc n

-- code == n
unfoldable pub is_pos : ℕ → ℤ → Bool
is_pos n (pos k) = k == n
is_pos n (negsuc k) = false

is_space : ℕ → Bool
is_space c = c == 32 || (leb 9 c && leb c 13)

is_digit : ℕ → Bool
is_digit c = leb b'0' c && leb c b'9'

-- The value of the digits in front, behind those that are read.
digits : ℕ → Bytes → ℕ
digits acc [] = acc
digits acc (c ∷ cs) = elim (is_digit c) [ true ↦ digits (acc * 10 + (c - b'0')) cs | false ↦ acc ]

signed : Bytes → Option ℤ
unfolding digits negate is_digit
signed [] = some (pos 0)
signed (c ∷ cs) =
    let below = digits 0 cs in
    let whole = digits 0 (c ∷ cs) in
    if c == b'-'
    then if leb below 2147483648 then some (negate below) else none
    else if c == b'+'
    then if leb below 2147483647 then some (pos below) else none
    else if leb whole 2147483647
    then some (pos whole)
    else none

unfoldable pub atoi : Bytes → Option ℤ
unfolding signed is_space
atoi [] = some (pos 0)
atoi (c ∷ cs) = if is_space c then atoi cs else signed (c ∷ cs)
