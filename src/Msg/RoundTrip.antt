-- ===== src/Msg/RoundTrip.antt =====
-- A value through a message: Value::flush and Value::Value (void*) of msg/msg_sinf.cpp.
use rtdbus.Base.{◌%◌, ◌≡◌, refl, Bytes, arith}
use rtdbus.Attribute.{DbType, Quality, Member, member, AttrVal}
use rtdbus.Msg.Value.{
  Update, make_value, set_value, get_value, of_update, int8_to_int16, pb_type, datetime_of, time_of,
}

-- What of a value arrives: an int16 is cut to its low byte, which is taken for signed, and of a time
-- both parts are cut to 32 bits.
unfoldable pub carried : Member → AttrVal → AttrVal
carried Member.val_int16 v = record v { fixed = int8_to_int16 (v.fixed % 256) }
carried Member.val_time v = record v { fixed = time_of (datetime_of v) }
carried _ v = v

-- The same for a value that was not made by Value, but stands in memory.
pub get_value-set_raw :
    (t : DbType) (v : AttrVal) (u : Update)
    → get_value t (set_value t v u) ≡ carried (member t) (make_value t v)
unfolding get_value set_value make_value carried
get_value-set_raw t v u = ground arith

pub pb_type-member : (t : DbType) (u : Update) → get_value (pb_type t) u ≡ get_value t u
unfolding get_value pb_type
pb_type-member DbType.last u = refl
pb_type-member t u = ground arith

pub set_value-tag : (t : DbType) (v : AttrVal) (u : Update) → (set_value t v u).tag ≡ u.tag
unfolding set_value
set_value-tag t v u = ground arith

pub set_value-type : (t : DbType) (v : AttrVal) (u : Update) → (set_value t v u).type ≡ u.type
unfolding set_value
set_value-type t v u = ground arith

pub of_update-fields :
    (q : Quality) (u : Update) (name : Bytes) (t : DbType) (v : AttrVal)
    → u.tag ≡ name
    → u.type ≡ t
    → get_value t u ≡ v
    → of_update q u ≡ record { name = name; type = t; quality = q; value = v }
unfolding of_update
of_update-fields q u name t v tag type value =
    let here : get_value u.type u ≡ v = rw type value in cc (tag, type, here)
