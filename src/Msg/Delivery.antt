-- ===== src/Msg/Delivery.antt =====
-- What arrives of the items of the messages of msg/msg_sinf.cpp.
use rtdbus.Base.{
  ◌≡◌, refl, ◌∙◌, Bytes, false, some, List, [], ◌∷◌, ◌++◌, length, get_elem?-append_last, ap, inl,
  inr, ◌⊎◌,
}
use rtdbus.Attribute.{DbType, Quality, member, AttrVal, no_value}
use rtdbus.Msg.Value.{Update, new_update, make_value, set_value, get_value, of_update, pb_type}
use rtdbus.Msg.RoundTrip.{
  carried, get_value-set_raw, pb_type-member, set_value-tag, set_value-type, of_update-fields,
}
use rtdbus.Msg.Items.{read_add, write_add, event_add, event_get, item, overwrite, set_without_time}

item-append :
    (q : Quality) (items : List Update) (u : Update)
    → item q (length items) (items ++ u ∷ []) ≡ some (of_update q u)
unfolding item
item-append q items u = rw (item, get_elem?-append_last items u) refl

-- The item that ReadMulti::add puts in.
pub of_update-set_value :
    (q : Quality) (tag : Bytes) (t : DbType) (v : AttrVal)
    → of_update q
        (set_value t v (record new_update { tag = tag; type = pb_type t; quality = Quality.error }))
      ≡ record {
        name = tag;
        type = pb_type t;
        quality = q;
        value = carried (member t) (make_value t v);
      }
of_update-set_value q tag t v =
    let u : Update = record new_update { tag = tag; type = pb_type t; quality = Quality.error } in
    of_update-fields q (set_value t v u) tag (pb_type t) (carried (member t) (make_value t v))
      (set_value-tag t v u) (set_value-type t v u)
      (pb_type-member t (set_value t v u) ∙ get_value-set_raw t v u)

-- What ReadMulti::add puts in and ReadMulti::item takes out: the tag is the same, the type too (but
-- the mark behind the last one is UNDEF), and the value is the same, but that an INT16 is cut to its
-- low byte, which is taken for signed, and that a time is cut to 32 bits of seconds and of
-- microseconds.
pub item-read_add :
    (q : Quality) (tag : Bytes) (t : DbType) (v : AttrVal) (items : List Update)
    → item q (length items) (read_add tag t (some v) items)
      ≡ some (record {
        name = tag;
        type = pb_type t;
        quality = q;
        value = carried (member t) (make_value t v);
      })
unfolding read_add
item-read_add q tag t v items =
    let u : Update = record new_update { tag = tag; type = pb_type t; quality = Quality.error } in
    item-append q items (set_value t v u) ∙ ap some (of_update-set_value q tag t v)

-- The value that arrives by a message whose `add` has no case for a time.
unfoldable pub without_time : DbType → AttrVal → AttrVal
without_time DbType.abstime v = no_value
without_time t v = carried (member t) (make_value t v)

time_cases :
    (t : DbType) (v : AttrVal) (u : Update)
    → (t ≡ DbType.abstime)
      ⊎ ((set_without_time t v u ≡ set_value t v u)
          × (without_time t v ≡ carried (member t) (make_value t v)))
unfolding without_time set_without_time
time_cases DbType.abstime v u = inl refl
time_cases t v u = inr (refl, refl)

of_time :
    (q : Quality) (tag : Bytes) (v : AttrVal)
    → of_update q (
        set_without_time DbType.abstime v
          (record new_update { tag = tag; type = pb_type DbType.abstime; quality = Quality.error }))
      ≡ record {
        name = tag;
        type = pb_type DbType.abstime;
        quality = q;
        value = without_time DbType.abstime v;
      }
unfolding of_update get_value set_without_time without_time pb_type
of_time q tag v = refl

-- The item that such an `add` puts in.
pub of_update-set_without_time :
    (q : Quality) (tag : Bytes) (t : DbType) (v : AttrVal)
    → of_update q (
        set_without_time t v
          (record new_update { tag = tag; type = pb_type t; quality = Quality.error }))
      ≡ record { name = tag; type = pb_type t; quality = q; value = without_time t v }
of_update-set_without_time q tag t v =
    let u : Update = record new_update { tag = tag; type = pb_type t; quality = Quality.error } in
    elim (time_cases t v u) [
      | inl time ↦ rw time (of_time q tag v)
      | inr (same, arrives) ↦
          rw (same, arrives)
            (of_update-fields q (set_value t v u) tag (pb_type t)
              (carried (member t) (make_value t v)) (set_value-tag t v u) (set_value-type t v u)
              (pb_type-member t (set_value t v u) ∙ get_value-set_raw t v u))
    ]

-- What WriteMulti::add puts in and WriteMulti::item takes out has the tag, the type (but the mark
-- behind the last one is UNDEF) and the value, but that an INT16 is cut to its low byte, which is
-- taken for signed, and that a time arrives as zero.
pub item-write_add :
    (q : Quality) (tag : Bytes) (t : DbType) (v : AttrVal) (items : List Update)
    → item q (length items) (write_add tag t v items)
      ≡ some (record { name = tag; type = pb_type t; quality = q; value = without_time t v })
unfolding write_add
item-write_add q tag t v items =
    let u : Update = record new_update { tag = tag; type = pb_type t; quality = Quality.error } in
    item-append q items (set_without_time t v u) ∙ ap some (of_update-set_without_time q tag t v)

-- What SubscriptionEvent::add puts in and SubscriptionEvent::item takes out is the same as for a
-- WriteMulti, and so a time is published as zero; SubscriptionEvent::get of it answers false.
pub item-event_add :
    (q : Quality) (tag : Bytes) (t : DbType) (v w : AttrVal) (items : List Update)
    → (item q (length items) (event_add tag t v items)
        ≡ some (record { name = tag; type = pb_type t; quality = q; value = without_time t v }))
      × ((x : AttrVal) × (event_get (length items) (event_add tag t v items) w ≡ some (false, x)))
unfolding event_add event_get
item-event_add q tag t v w items =
    let u : Update = record new_update { tag = tag; type = pb_type t; quality = Quality.error } in
    let there = get_elem?-append_last items (set_without_time t v u) in
    (
      item-append q items (set_without_time t v u) ∙ ap some (of_update-set_without_time q tag t v),
      (
        overwrite (set_without_time t v u).type (set_without_time t v u) w,
        rw (event_get, there) refl,
      ),
    )
