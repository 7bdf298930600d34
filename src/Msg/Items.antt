-- ===== src/Msg/Items.antt =====
-- The items of the messages ReadMulti, WriteMulti and SubscriptionEvent of msg/msg_sinf.cpp: add, get,
-- item and set_type.
use rtdbus.Base.{
  ℕ, Bytes, Bool, true, false, not, c_str, [], Option, none, some, List, ◌∷◌, ◌++◌, get_elem?, set,
}
use rtdbus.Attribute.{
  DbType, Quality, Member, member, var_size, AttrVal, AttributeInfo, put_bits, bool_bits, padded,
}
use rtdbus.Msg.Value.{Update, new_update, set_value, of_update, pb_type, time_of}

-- The item that each `add` begins with.
abbrev begun : Bytes → DbType → Update
begun tag t = record new_update { tag = tag; type = pb_type t; quality = Quality.error }

-- ReadMulti::add; the value may be missing.
unfoldable pub read_add : Bytes → DbType → Option AttrVal → List Update → List Update
unfolding set_value pb_type
read_add tag t none items = items ++ begun tag t ∷ []
read_add tag t (some v) items = items ++ set_value t v (begun tag t) ∷ []

-- The switch of WriteMulti::add and SubscriptionEvent::add, which have no case for a time.
unfoldable pub set_without_time : DbType → AttrVal → Update → Update
unfolding set_value
set_without_time DbType.abstime v u = u
set_without_time t v u = set_value t v u

-- WriteMulti::add
unfoldable pub write_add : Bytes → DbType → AttrVal → List Update → List Update
unfolding set_without_time pb_type
write_add tag t v items = items ++ set_without_time t v (begun tag t) ∷ []

-- SubscriptionEvent::add
unfoldable pub event_add : Bytes → DbType → AttrVal → List Update → List Update
unfolding set_without_time pb_type
event_add tag t v items = items ++ set_without_time t v (begun tag t) ∷ []

-- The switch of ReadMulti::get and SubscriptionEvent::get: the value is written over the old one.
unfoldable pub overwrite : DbType → Update → AttrVal → AttrVal
unfolding padded c_str var_size
overwrite t u v = elim (member t) [
  | Member.val_bool ↦ put_bits 8 (bool_bits u.b_value) v
  | Member.val_int8 ↦ put_bits 8 u.i32_value v
  | Member.val_uint8 ↦ put_bits 8 u.i32_value v
  | Member.val_int16 ↦ put_bits 16 u.i32_value v
  | Member.val_uint16 ↦ put_bits 16 u.i32_value v
  | Member.val_int32 ↦ put_bits 32 u.i32_value v
  | Member.val_uint32 ↦ put_bits 32 u.i32_value v
  | Member.val_int64 ↦ put_bits 64 u.i64_value v
  | Member.val_uint64 ↦ put_bits 64 u.i64_value v
  | Member.val_float ↦ put_bits 32 u.f_value v
  | Member.val_double ↦ put_bits 64 u.g_value v
  | Member.val_string ↦ record v { val_string = u.s_value }
  | Member.varchar ↦ record v { varchar = padded (var_size t) (c_str u.s_value) }
  | Member.val_time ↦ put_bits 128 (time_of u.i64_value) v
  | Member.no_member ↦ v
]

abbrev pub is_last : DbType → Bool
is_last DbType.last = true
is_last _ = false

-- ReadMulti::get (…, AttrVal_t&): whether the type is known, and the value; `none` out of range.
unfoldable pub read_get : ℕ → List Update → AttrVal → Option (Bool × AttrVal)
unfolding overwrite
read_get i items v = elim (get_elem? items i) [
  | none ↦ none
  | some u ↦ some (not (is_last u.type), overwrite u.type u v)
]

-- SubscriptionEvent::get, whose answer is never set.
unfoldable pub event_get : ℕ → List Update → AttrVal → Option (Bool × AttrVal)
unfolding overwrite
event_get i items v = elim (get_elem? items i) [
  | none ↦ none
  | some u ↦ some (false, overwrite u.type u v)
]

-- item: a Value of the item, which holds its place for `flush`.
unfoldable pub item : Quality → ℕ → List Update → Option AttributeInfo
unfolding of_update
item q i items = elim (get_elem? items i) [ none ↦ none | some u ↦ some (of_update q u) ]

-- ReadMulti::set_type
unfoldable pub set_type : ℕ → DbType → List Update → List Update
unfolding pb_type
set_type i t items = elim (get_elem? items i) [
  | none ↦ items
  | some u ↦ set items i (record u { type = pb_type t })
]
