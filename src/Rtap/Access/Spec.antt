-- ===== src/Rtap/Access/Spec.antt =====
-- The real-time database as its clients see it: points by their tags, read and written by the names of
-- attributes. What DatabaseRtapImpl::read and write of xdb/impl/xdb_impl_db_rtap.cpp promise.
use rtdbus.Base.{
  ◌≡◌, Bytes, bytes_eq, Bool, true, false, Option, none, some, List, [], ◌∷◌, if◌then◌else◌, ◌>>=◌,
}
use rtdbus.Attribute.{Quality, AttributeInfo}
use rtdbus.Xdb.Table.{Table}
use rtdbus.Rtap.Point.{Rc, is_ok}
use rtdbus.Rtap.Attributes.{Entry, Writing}
use rtdbus.Rtap.Access.{Maps, Db, ErrorCode, split_tag, found, read, write}
use rtdbus.Rtap.Access.Laws.{UniqueTags}

pub record View : Type 0 where
  pub point : Bytes → Option Entry
  pub starts : Bool
  pub commits : Bool

pub data Command : Type 0 where
  ask tell : AttributeInfo → Command

pub data Answer : Type 0 where
  asked : ErrorCode → AttributeInfo → Answer
  told : ErrorCode → Answer

module _ (maps : Maps) where
  -- The answer to a read of an attribute of a point that is there, for each result of its function.
  unfoldable pub read_entry : View → Entry → Bytes → AttributeInfo → ErrorCode × AttributeInfo
  read_entry s e n a = elim (maps.reading n) [
    | none ↦
        if s.commits
        then (ErrorCode.no_error, record a { quality = Quality.ok })
        else (ErrorCode.attr_not_found, a)
    | some f ↦ elim (is_ok (f e a).0) [
      | false ↦ (ErrorCode.illegal_parameter_value, (f e a).1)
      | true ↦
          if s.commits
          then (ErrorCode.no_error, record (f e a).1 { quality = Quality.ok })
          else (ErrorCode.runtime_error, (f e a).1)
    ]
  ]

  unfoldable pub read_point : View → Bytes × Bytes → AttributeInfo → ErrorCode × AttributeInfo
  read_point s (t, n) a =
      if s.starts
      then elim (s.point t) [ none ↦ (ErrorCode.point_not_found, a) | some e ↦ read_entry s e n a ]
      else (ErrorCode.runtime_error, a)

  unfoldable pub view_read : View → AttributeInfo → ErrorCode × AttributeInfo
  view_read s a = elim (split_tag a.name) [
    | none ↦ (ErrorCode.illegal_tag_name, record a { quality = Quality.not_found })
    | some names ↦ read_point s names (record a { quality = Quality.not_found })
  ]

  -- The view in which the tag has the point, flagged as modified.
  unfoldable pub set_entry : View → Bytes → Entry → View
  set_entry s t e = record s {
    point = λ u. if bytes_eq u t then some (record e { is_modified = true }) else s.point u;
  }

  unfoldable pub store_entry : View → Bytes → Rc × Entry → ErrorCode × View
  store_entry s t (rc, e) = elim (is_ok rc) [
    | false ↦ (ErrorCode.illegal_parameter_value, s)
    | true ↦
        if s.commits then (ErrorCode.no_error, set_entry s t e) else (ErrorCode.runtime_error, s)
  ]

  unfoldable pub write_entry :
      View → Bytes → Entry → Bytes → AttributeInfo → Option (ErrorCode × View)
  write_entry s t e n a = elim (maps.writing n) [
    | none ↦ some (if s.commits then (ErrorCode.no_error, s) else (ErrorCode.attr_not_found, s))
    | some f ↦ f e a >>= λ r. some (store_entry s t r)
  ]

  unfoldable pub write_point : View → Bytes × Bytes → AttributeInfo → Option (ErrorCode × View)
  write_point s (t, n) a =
      if s.starts
      then elim (s.point t) [
        | none ↦ some (ErrorCode.point_not_found, s)
        | some e ↦ write_entry s t e n a
      ]
      else some (ErrorCode.runtime_error, s)

  unfoldable pub view_write : View → AttributeInfo → Option (ErrorCode × View)
  view_write s a = elim (split_tag a.name) [
    | none ↦ some (ErrorCode.attr_not_found, s)
    | some names ↦ write_point s names a
  ]

  unfoldable pub view_step : View → Command → Option (Answer × View)
  view_step s (Command.ask a) = let r = view_read s a in some (Answer.asked r.0 r.1, s)
  view_step s (Command.tell a) = view_write s a >>= λ r. some (Answer.told r.0, r.1)

  -- The answers to the commands, one after the other; `none` where an assertion fails.
  unfoldable pub view_run : View → List Command → Option (List Answer × View)
  view_run s [] = some ([], s)
  view_run s (c ∷ cs) =
      view_step s c >>= λ (x, s'). view_run s' cs >>= λ (xs, s''). some (x ∷ xs, s'')

  module _ (points : Table Entry) where
    unfoldable pub step : Db points maps → Command → Option (Answer × Db points maps)
    step db (Command.ask a) = let r = read points maps db a in some (Answer.asked r.0 r.1, db)
    step db (Command.tell a) = write points maps db a >>= λ r. some (Answer.told r.0, r.1)

    -- The same of the database.
    unfoldable pub run : Db points maps → List Command → Option (List Answer × Db points maps)
    run db [] = some ([], db)
    run db (c ∷ cs) = step db c >>= λ (x, db'). run db' cs >>= λ (xs, db''). some (x ∷ xs, db'')

    unfoldable pub entry_of : Db points maps → Bytes → Option Entry
    entry_of db t = found points maps db t >>= λ r. some r.1

    -- The tags are distinct, and each tag has the point that the view gives it.
    unfoldable pub Represents : Db points maps → View → Type 0
    Represents db s =
        UniqueTags points maps db.store
        × (db.starts ≡ s.starts)
        × (db.commits ≡ s.commits)
        × ((t : Bytes) → entry_of db t ≡ s.point t)

    -- Both fail, or both give the same answers, and the database represents the view.
    unfoldable pub Agrees : {A : Type 0} → Option (A × Db points maps) → Option (A × View) → Type 0
    Agrees none none = Unit {0}
    Agrees (some (x, db)) (some (y, s)) = (x ≡ y) × Represents db s
    Agrees none (some r) = ⊥
    Agrees (some r) none = ⊥

-- A writing function leaves the tag as it is.
unfoldable pub KeepTags : Maps → Type 0
KeepTags maps =
    (n : Bytes) (f : Writing) (e e' : Entry) (a : AttributeInfo) (rc : Rc)
    → maps.writing n ≡ some f
    → f e a ≡ some (rc, e')
    → e'.tag ≡ e.tag
