-- ===== src/Msg/Value.antt =====
-- Value of msg/msg_sinf.cpp, and ValueUpdate of msg/proto/sinf.proto. Integers are their bits; a field
-- of protobuf that was not set has its default.
use rtdbus.Base.{
  ℕ, ◌+◌, ◌*◌, ◌/◌, ◌%◌, ◌^◌, Bytes, Bool, false, not, ◌==◌, ltb, if◌then◌else◌, c_str, [],
}
use rtdbus.Attribute.{
  DbType, Quality, Member, member, var_size, AttrVal, AttributeInfo, no_value, bits, bool_bits,
  padded,
}

pub record Update : Type 0 where
  pub tag : Bytes
  pub type : DbType
  pub quality : Quality
  pub i64_value : ℕ
  pub i32_value : ℕ
  pub f_value : ℕ
  pub g_value : ℕ
  pub s_value : Bytes
  pub b_value : Bool

abbrev pub new_update : Update
new_update = record {
  tag = [];
  type = DbType.undef;
  quality = Quality.ok;
  i64_value = 0;
  i32_value = 0;
  f_value = 0;
  g_value = 0;
  s_value = [];
  b_value = false;
}

-- RTDBM::DbType_IsValid, and DB_TYPE_UNDEF where it is false
unfoldable pub pb_type : DbType → DbType
pb_type DbType.last = DbType.undef
pb_type t = t

-- The bits of an integer of n bits, as one of 32 or 16 bits.
abbrev pub int8_to_int32 : ℕ → ℕ
int8_to_int32 x = if ltb x 128 then x else x + 4294967040

abbrev pub int16_to_int32 : ℕ → ℕ
int16_to_int32 x = if ltb x 32768 then x else x + 4294901760

abbrev pub int8_to_int16 : ℕ → ℕ
int8_to_int16 x = if ltb x 128 then x else x + 65280

-- datetime.part [0] = tv_sec; datetime.part [1] = tv_usec; datetime.common
abbrev pub datetime_of : AttrVal → ℕ
datetime_of v = v.fixed % 2 ^ 32 + v.fixed / 2 ^ 64 % 2 ^ 32 * 2 ^ 32

-- tv_sec = datetime.part [0]; tv_usec = datetime.part [1]
abbrev pub time_of : ℕ → ℕ
time_of common = common % 2 ^ 32 + common / 2 ^ 32 % 2 ^ 32 * 2 ^ 64

-- The switch of Value::Value (name, type, val): the memory that `val` points to is read by the type,
-- into a value that was zero.
unfoldable pub make_value : DbType → AttrVal → AttrVal
unfolding padded c_str var_size
make_value t v = elim (member t) [
  | Member.val_bool ↦ record no_value { fixed = bool_bits (not (bits 8 v == 0)) }
  | Member.val_int8 ↦ record no_value { fixed = bits 8 v }
  | Member.val_uint8 ↦ record no_value { fixed = bits 8 v }
  | Member.val_int16 ↦ record no_value { fixed = bits 16 v }
  | Member.val_uint16 ↦ record no_value { fixed = bits 16 v }
  | Member.val_int32 ↦ record no_value { fixed = bits 32 v }
  | Member.val_uint32 ↦ record no_value { fixed = bits 32 v }
  | Member.val_int64 ↦ record no_value { fixed = bits 64 v }
  | Member.val_uint64 ↦ record no_value { fixed = bits 64 v }
  | Member.val_float ↦ record no_value { fixed = bits 32 v }
  | Member.val_double ↦ record no_value { fixed = bits 64 v }
  | Member.val_string ↦ record no_value { val_string = v.val_string }
  | Member.varchar ↦ record no_value { varchar = padded (var_size t) (c_str v.varchar) }
  | Member.val_time ↦ record no_value { fixed = bits 128 v }
  | Member.no_member ↦ no_value
]

-- Value::Value (name, type, val)
unfoldable pub make : Bytes → Quality → DbType → AttrVal → AttributeInfo
unfolding make_value
make name q t v = record { name = name; type = t; quality = q; value = make_value t v }

-- The switch of Value::flush, and of the functions that add an item.
unfoldable pub set_value : DbType → AttrVal → Update → Update
set_value t v u = elim (member t) [
  | Member.val_bool ↦ record u { b_value = not (bits 8 v == 0) }
  | Member.val_int8 ↦ record u { i32_value = int8_to_int32 (bits 8 v) }
  | Member.val_uint8 ↦ record u { i32_value = bits 8 v }
  | Member.val_int16 ↦ record u { i32_value = int16_to_int32 (bits 16 v) }
  | Member.val_uint16 ↦ record u { i32_value = bits 16 v }
  | Member.val_int32 ↦ record u { i32_value = bits 32 v }
  | Member.val_uint32 ↦ record u { i32_value = bits 32 v }
  | Member.val_int64 ↦ record u { i64_value = bits 64 v }
  | Member.val_uint64 ↦ record u { i64_value = bits 64 v }
  | Member.val_float ↦ record u { f_value = bits 32 v }
  | Member.val_double ↦ record u { g_value = bits 64 v }
  | Member.val_string ↦ record u { s_value = v.val_string }
  | Member.varchar ↦ record u { s_value = v.varchar }
  | Member.val_time ↦ record u { i64_value = datetime_of v }
  | Member.no_member ↦ u
]

-- Value::flush
unfoldable pub flush : AttributeInfo → Update → Update
unfolding set_value pb_type
flush v u =
    set_value v.type v.value (record u { tag = v.name; type = pb_type v.type; quality = v.quality })

-- The switch of Value::Value (void*): the value, which was zero.
unfoldable pub get_value : DbType → Update → AttrVal
unfolding padded c_str var_size
get_value t u = elim (member t) [
  | Member.val_bool ↦ record no_value { fixed = bool_bits u.b_value }
  | Member.val_int8 ↦ record no_value { fixed = u.i32_value % 2 ^ 8 }
  | Member.val_uint8 ↦ record no_value { fixed = u.i32_value % 2 ^ 8 }
  | Member.val_int16 ↦ record no_value { fixed = int8_to_int16 (u.i32_value % 2 ^ 8) }
  | Member.val_uint16 ↦ record no_value { fixed = u.i32_value % 2 ^ 16 }
  | Member.val_int32 ↦ record no_value { fixed = u.i32_value }
  | Member.val_uint32 ↦ record no_value { fixed = u.i32_value }
  | Member.val_int64 ↦ record no_value { fixed = u.i64_value }
  | Member.val_uint64 ↦ record no_value { fixed = u.i64_value }
  | Member.val_float ↦ record no_value { fixed = u.f_value }
  | Member.val_double ↦ record no_value { fixed = u.g_value }
  | Member.val_string ↦ record no_value { val_string = u.s_value }
  | Member.varchar ↦ record no_value { varchar = padded (var_size t) (c_str u.s_value) }
  | Member.val_time ↦ record no_value { fixed = time_of u.i64_value }
  | Member.no_member ↦ no_value
]

-- Value::Value (void*); the quality is left as the memory has it.
unfoldable pub of_update : Quality → Update → AttributeInfo
unfolding get_value
of_update q u = record { name = u.tag; type = u.type; quality = q; value = get_value u.type u }
