-- ===== src/Digger/Dialogue.antt =====
-- A client and the worker: the items of a request to write and of one to read, through the messages of
-- msg/msg_sinf.cpp, the loops of worker/wdigger.cpp and the database of xdb/impl/xdb_impl_db_rtap.cpp.
use rtdbus.Base.{ℕ, ◌^◌, ◌≡◌, refl, ◌∙◌, ap, Bytes, true, none, some, [], ◌∷◌, arith, ◌<◌}
use rtdbus.Attribute.{DbType, Quality, AttributeInfo, AttrVal, no_value, bits, put_bits}
use rtdbus.Msg.Value.{Update, new_update, of_update, get_value, set_value, flush, pb_type}
use rtdbus.Msg.Items.{item, read_add, write_add, set_without_time}
use rtdbus.Xdb.Table.{Table, IsTable}
use rtdbus.Rtap.Point.{Rc}
use rtdbus.Rtap.Attributes.{Entry, Part, part_of_val, read_val, write_val}
use rtdbus.Rtap.Access.{Maps, Db, ErrorCode, split_tag, read, write}
use rtdbus.Rtap.Access.Laws.{UniqueTags, read-write}
use rtdbus.Digger.{Connection, read_attribute, write_attribute, read_items, write_items, add_status}
use rtdbus.Digger.Reads.{reread, read_items-map}

analog-write_val :
    (e : Entry) (a : AttributeInfo) (x : ℕ)
    → part_of_val e.objclass ≡ Part.analog
    → bits 64 a.value ≡ x
    → write_val e a ≡ some (Rc.ok, record e { ai = record e.ai { val = x } })
unfolding write_val
analog-write_val e a x class same = ground arith

analog-read_val :
    (e : Entry) (a : AttributeInfo) (x : ℕ)
    → part_of_val e.objclass ≡ Part.analog
    → e.ai.val ≡ x
    → read_val e a ≡ (Rc.ok, record a { type = DbType.double; value = put_bits 64 x a.value })
unfolding read_val
analog-read_val e a x class same = ground arith

-- What a client sees of the double that the worker has read.
of_update-flush_double :
    (r q : Quality) (name : Bytes) (x : ℕ) (u : Update)
    → x < 2 ^ 64
    → of_update r (
        flush
          (record {
            name = name;
            type = DbType.double;
            quality = q;
            value = put_bits 64 x no_value;
          })
          u)
      ≡ record {
        name = name;
        type = DbType.double;
        quality = r;
        value = record no_value { fixed = x };
      }
unfolding of_update flush set_value get_value pb_type
of_update-flush_double r q name x u bound =
    let same : bits 64 (put_bits 64 x no_value) ≡ x = omega arith in
    ap
      (λ y. record {
        name = name;
        type = DbType.double;
        quality = r;
        value = record no_value { fixed = y };
      })
      same

module _ (points : Table Entry) (maps : Maps) where
  write_attribute-valid :
      (c : Connection points maps) (a : AttributeInfo) (db' : Db points maps)
      → c.valid ≡ true
      → write points maps c.db a ≡ some (ErrorCode.no_error, db')
      → write_attribute points maps c a ≡ some (ErrorCode.no_error, record c { db = db' })
  unfolding write_attribute
  write_attribute-valid c a db' valid wrote = rw (valid, wrote) refl

  read_attribute-valid :
      (c : Connection points maps) (a b : AttributeInfo)
      → c.valid ≡ true
      → read points maps c.db a ≡ (ErrorCode.no_error, b)
      → read_attribute points maps c a ≡ (ErrorCode.no_error, b)
  unfolding read_attribute
  read_attribute-valid c a b valid reads = rw (valid, reads) refl

  -- A Value that is made of an item without a type.
  of_update-undef :
      (q : Quality) (name : Bytes)
      → of_update q (record new_update { tag = name; type = DbType.undef; quality = Quality.error })
        ≡ record { name = name; type = DbType.undef; quality = q; value = no_value }
  unfolding of_update get_value
  of_update-undef q name = refl

  write_items-one :
      (c c' : Connection points maps) (p : Quality) (name : Bytes) (v : AttrVal)
      → write_attribute points maps c (record {
        name = name;
        type = DbType.double;
        quality = p;
        value = record no_value { fixed = bits 64 v };
      })
        ≡ some (ErrorCode.no_error, c')
      → write_items points maps c p 0 1 (write_add name DbType.double v []) 0 ≡ some (c', 0)
  unfolding write_items item write_add set_without_time set_value pb_type of_update get_value
      add_status
  write_items-one c c' p name v wrote = rw wrote refl

  read_items-one :
      (c : Connection points maps) (q r : Quality) (u : Update) (a : AttributeInfo)
      → read_attribute points maps c (of_update q u) ≡ (ErrorCode.no_error, a)
      → item r 0 (read_items points maps c q 0 1 (u ∷ [])) ≡ some (of_update r (flush a u))
  unfolding item reread
  read_items-one c q r u a reads = rw (read_items-map points maps c q (u ∷ []), reads) refl

  module _ {blank : Entry} (laws : IsTable blank points) where
    -- A client that writes VAL of an analog point as a DOUBLE, and reads it without a type, over a
    -- connection that is valid, to a database that starts and commits transactions, where tags are
    -- distinct and the maps of functions give readVAL and writeVAL: the status of the write is
    -- zero, and the item that is read back holds the name, the type DOUBLE and the 64 bits that
    -- were written.
    pub read_items-write_items :
        (c : Connection points maps) (p q r : Quality) (name t n : Bytes) (i : ℕ) (e : Entry)
        (v : AttrVal)
        → c.valid ≡ true
        → c.db.starts ≡ true
        → c.db.commits ≡ true
        → UniqueTags points maps c.db.store
        → split_tag name ≡ some (t, n)
        → points.get c.db.store i ≡ some e
        → e.tag ≡ t
        → part_of_val e.objclass ≡ Part.analog
        → maps.writing n ≡ some write_val
        → maps.reading n ≡ some read_val
        → (c' : Connection points maps) × (write_items points maps c p 0 1
              (write_add name DbType.double v [])
              0
            ≡ some (c', 0))
          × (item r 0 (read_items points maps c' q 0 1 (read_add name DbType.undef none []))
              ≡ some (record {
                name = name;
                type = DbType.double;
                quality = r;
                value = record no_value { fixed = bits 64 v };
              }))
    unfolding read_add
    read_items-write_items c p q r name t n i e v valid starts commits unique names there tag class
          by_w by_r =
        let a : AttributeInfo = record {
          name = name;
          type = DbType.double;
          quality = p;
          value = record no_value { fixed = bits 64 v };
        } in
        let b : AttributeInfo = record {
          name = name;
          type = DbType.undef;
          quality = q;
          value = no_value;
        } in
        let x = bits 64 v in
        let e' : Entry = record e { ai = record e.ai { val = x } } in
        let b' : AttributeInfo = record b {
          type = DbType.double;
          quality = Quality.not_found;
          value = put_bits 64 x no_value;
        } in
        let (db', wrote, reads, others) =
          read-write points maps laws c.db a b t n i e e' write_val read_val b' starts commits
            unique names names there tag tag by_w by_r (analog-write_val e a x class (omega arith))
            (analog-read_val (record e' { is_modified = true })
              (record b { quality = Quality.not_found }) x class refl) in
        let c' : Connection points maps = record c { db = db' } in
        let u : Update = record new_update {
          tag = name;
          type = DbType.undef;
          quality = Quality.error;
        } in
        (
          c',
          write_items-one c c' p name v (write_attribute-valid c a db' valid wrote),
          read_items-one c' q r u (record b' { quality = Quality.ok })
                (rw (of_update-undef q name)
                  (read_attribute-valid c' b (record b' { quality = Quality.ok }) valid reads))
              ∙ ap some (of_update-flush_double r Quality.ok name x u (omega arith)),
        )
