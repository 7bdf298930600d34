-- ===== src/Rtap/Access.antt =====
-- DatabaseRtapImpl::read and write of an attribute by its name, of xdb/impl/xdb_impl_db_rtap.cpp. The
-- maps from the names to the functions (impl_attr_reading_map.gen, impl_attr_writing_map.gen) are
-- parameters.
pub mod Laws
pub mod Values
pub mod Spec
pub mod Refines
pub mod Runs
pub mod Tests
use rtdbus.Base.{
  ℕ, Bytes, bytes_eq, Bool, true, false, not, ◌==◌, ◌&&◌, Option, none, some, if◌then◌else◌, List,
  [], ◌∷◌, ◌>>=◌,
}
use rtdbus.Attribute.{DbType, Quality, AttributeInfo}
use rtdbus.Xdb.Table.{Table}
use rtdbus.Rtap.Point.{Rc, is_ok, Validity, ValidChange}
use rtdbus.Rtap.Update.{ObjClass}
use rtdbus.Rtap.Attributes.{Entry, Reading, Writing, PointStatus}

-- Error, the codes that these functions and the connection set, and their numbers
pub data ErrorCode : Type 0 where
  no_error runtime_error illegal_parameter_value point_not_found attr_not_found : ErrorCode
  illegal_tag_name connection_invalid : ErrorCode

unfoldable pub error_number : ErrorCode → ℕ
error_number ErrorCode.no_error = 0
error_number ErrorCode.runtime_error = 16
error_number ErrorCode.illegal_parameter_value = 26
error_number ErrorCode.point_not_found = 27
error_number ErrorCode.attr_not_found = 28
error_number ErrorCode.illegal_tag_name = 29
error_number ErrorCode.connection_invalid = 31

-- name.find ("."), and the two parts
unfoldable pub split_tag : Bytes → Option (Bytes × Bytes)
split_tag [] = none
split_tag (x ∷ s) =
    let rest = split_tag s in
    if x == 46 then some ([], s) else elim rest [ none ↦ none | some (p, a) ↦ some (x ∷ p, a) ]

abbrev pub has_tag : Bytes → Entry → Bool
has_tag t e = bytes_eq e.tag t

pub record Maps : Type 0 where
  pub reading : Bytes → Option Reading
  pub writing : Bytes → Option Writing

module _ (points : Table Entry) (maps : Maps) where
  pub record Db : Type 0 where
    pub store : points.Store
    pub starts : Bool
    pub commits : Bool

  abbrev pub found : Db → Bytes → Option (ℕ × Entry)
  found db t = points.find db.store (has_tag t) >>= λ i. points.get db.store i >>= λ e. some (i, e)

  -- The end of the transaction of `read`: an attribute without a function comes here too.
  abbrev end_read : Db → AttributeInfo → ErrorCode × AttributeInfo
  end_read db a =
      if db.commits
      then (ErrorCode.no_error, record a { quality = Quality.ok })
      else (ErrorCode.runtime_error, a)

  abbrev read_by : Db → Entry → Reading → AttributeInfo → ErrorCode × AttributeInfo
  read_by db e f a = elim (is_ok (f e a).0) [
    | true ↦ end_read db (f e a).1
    | false ↦ (ErrorCode.illegal_parameter_value, (f e a).1)
  ]

  abbrev end_read_unknown : Db → AttributeInfo → ErrorCode × AttributeInfo
  end_read_unknown db a =
      if db.commits
      then (ErrorCode.no_error, record a { quality = Quality.ok })
      else (ErrorCode.attr_not_found, a)

  abbrev pub read_from : Db → Bytes × Bytes → AttributeInfo → ErrorCode × AttributeInfo
  read_from db (point, attr) a =
      if db.starts
      then elim (found db point) [
        | none ↦ (ErrorCode.point_not_found, a)
        | some (i, e) ↦ elim (maps.reading attr) [
          | none ↦ end_read_unknown db a
          | some f ↦ read_by db e f a
        ]
      ]
      else (ErrorCode.runtime_error, a)

  -- DatabaseRtapImpl::read (AttributeInfo_t*)
  unfoldable pub read : Db → AttributeInfo → ErrorCode × AttributeInfo
  unfolding split_tag
  read db a = elim (split_tag a.name) [
    | none ↦ (ErrorCode.illegal_tag_name, record a { quality = Quality.not_found })
    | some names ↦ read_from db names (record a { quality = Quality.not_found })
  ]

  -- The end of the transaction of `write`; the put that may fail is that of the flag.
  abbrev pub end_write : Db → ErrorCode → Option points.Store → ErrorCode × Db
  end_write db error none = (error, db)
  end_write db error (some s) =
      if db.commits then (ErrorCode.no_error, record db { store = s }) else (error, db)

  abbrev pub write_by : Db → ℕ → Rc × Entry → ErrorCode × Db
  write_by db i (rc, e) = elim (is_ok rc) [
    | true ↦
        end_write db ErrorCode.runtime_error
          (points.put db.store i (record e { is_modified = true }))
    | false ↦ (ErrorCode.illegal_parameter_value, db)
  ]

  abbrev pub write_to : Db → Bytes × Bytes → AttributeInfo → Option (ErrorCode × Db)
  write_to db (point, attr) a =
      if db.starts
      then elim (found db point) [
        | none ↦ some (ErrorCode.point_not_found, db)
        | some (i, e) ↦ elim (maps.writing attr) [
          | none ↦ some (end_write db ErrorCode.attr_not_found (some db.store))
          | some f ↦ f e a >>= λ r. some (write_by db i r)
        ]
      ]
      else some (ErrorCode.runtime_error, db)

  -- DatabaseRtapImpl::write (AttributeInfo_t*); `none` where an assertion fails.
  unfoldable pub write : Db → AttributeInfo → Option (ErrorCode × Db)
  unfolding split_tag
  write db a = elim (split_tag a.name) [
    | none ↦ some (ErrorCode.attr_not_found, db)
    | some names ↦ write_to db names a
  ]
