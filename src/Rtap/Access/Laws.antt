-- ===== src/Rtap/Access/Laws.antt =====
-- What DatabaseRtapImpl::read and write of xdb/impl/xdb_impl_db_rtap.cpp do to the database.
use rtdbus.Base.{
  ℕ, Bytes, bytes_eq_iff, ◌≡◌, ◌≢◌, refl, sym, ◌∙◌, inl, inr, true, none, some, ◌==◌, if◌then◌else◌,
  arith, Bool-cases, Option-cases, ==-self,
}
use rtdbus.Attribute.{Quality, AttributeInfo}
use rtdbus.Xdb.Table.{Table, IsTable}
use rtdbus.Rtap.Point.{Rc}
use rtdbus.Rtap.Attributes.{Entry, Reading, Writing}
use rtdbus.Rtap.Access.{Maps, Db, ErrorCode, split_tag, has_tag, found, read, write}

module _ (points : Table Entry) (maps : Maps) where
  -- No two stored points have one tag.
  unfoldable pub UniqueTags : points.Store → Type 0
  UniqueTags s =
      (i j : ℕ) (e e' : Entry)
      → points.get s i ≡ some e
      → points.get s j ≡ some e'
      → e.tag ≡ e'.tag
      → i ≡ j

  -- A write of an attribute that is known, of a point that is found.
  write_known :
      (db : Db points maps) (t n : Bytes) (i : ℕ) (e e' : Entry) (w : Writing) (a : AttributeInfo)
      (s : points.Store)
      → db.starts ≡ true
      → db.commits ≡ true
      → split_tag a.name ≡ some (t, n)
      → found points maps db t ≡ some (i, e)
      → maps.writing n ≡ some w
      → w e a ≡ some (Rc.ok, e')
      → points.put db.store i (record e' { is_modified = true }) ≡ some s
      → write points maps db a ≡ some (ErrorCode.no_error, record db { store = s })
  unfolding write
  write_known db t n i e e' w a s starts commits names known by_w wrote put = ground arith

  read_known :
      (db : Db points maps) (t n : Bytes) (i : ℕ) (e : Entry) (r : Reading) (b a' : AttributeInfo)
      → db.starts ≡ true
      → db.commits ≡ true
      → split_tag b.name ≡ some (t, n)
      → found points maps db t ≡ some (i, e)
      → maps.reading n ≡ some r
      → r e (record b { quality = Quality.not_found }) ≡ (Rc.ok, a')
      → read points maps db b ≡ (ErrorCode.no_error, record a' { quality = Quality.ok })
  unfolding read
  read_known db t n i e r b a' starts commits names known by_r reads = ground arith

  module _ {blank : Entry} (laws : IsTable blank points) where
    -- A point is found by its tag.
    pub found_by_tag :
        (db : Db points maps) (i : ℕ) (e : Entry) (t : Bytes)
        → UniqueTags db.store
        → points.get db.store i ≡ some e
        → e.tag ≡ t
        → found points maps db t ≡ some (i, e)
    unfolding UniqueTags
    found_by_tag db i e t unique there tag =
        elim (Option-cases (points.find db.store (has_tag t))) [
          | inl nothing ↦
              let differs = laws.find_none db.store (has_tag t) i e nothing there in
              let same = (bytes_eq_iff e.tag t).1 tag in absurd (cc (differs, same))
          | inr (j, hit) ↦
              let (e', there', same) = laws.find_some db.store (has_tag t) j hit in
              let tag' : e'.tag ≡ t = (bytes_eq_iff e'.tag t).0 same in
              let place : i ≡ j = unique i j e e' there there' (tag ∙ sym tag') in
              let hit' : points.find db.store (has_tag t) ≡ some i = rw place hit in
              rw (hit', there) refl
        ]

    -- The write of a row under its own tag keeps the tags distinct.
    pub put-UniqueTags :
        (s s' : points.Store) (i : ℕ) (e e' : Entry)
        → UniqueTags s
        → points.get s i ≡ some e
        → e'.tag ≡ e.tag
        → points.put s i e' ≡ some s'
        → UniqueTags s'
    unfolding UniqueTags
    put-UniqueTags s s' i e e' unique there tag put j k x y at_j at_k same =
        let old : (l : ℕ) (z : Entry)
            → points.get s' l ≡ some z
            → (z' : Entry) × (points.get s l ≡ some z') × (z'.tag ≡ z.tag) =
          λ l z at_l.
            let row = laws.put_get s s' i e' l put in
            elim (Bool-cases (i == l)) [
              | inl here ↦
                  let place : i ≡ l = ground arith in
                  let is : some e' ≡ some z = sym (rw here at row) ∙ at_l in
                  let z_is : e' ≡ z = cc in (e, rw place at there, rw z_is at (sym tag))
              | inr apart ↦ (z, sym (rw apart at row) ∙ at_l, refl)
            ] in
        let (x', was_j, tag_j) = old j x at_j in
        let (y', was_k, tag_k) = old k y at_k in
        unique j k x' y' was_j was_k (tag_j ∙ same ∙ sym tag_k)

    -- After a write of a stored point that is answered by success, where tags are distinct and
    -- transactions start and are committed, a read of the same attribute gives what its reading
    -- function makes of the point that the writing function has made, flagged as modified; every
    -- other point is as before.
    pub read-write :
        (db : Db points maps) (a b : AttributeInfo) (t n : Bytes) (i : ℕ) (e e' : Entry)
        (w : Writing) (r : Reading) (a' : AttributeInfo)
        → db.starts ≡ true
        → db.commits ≡ true
        → UniqueTags db.store
        → split_tag a.name ≡ some (t, n)
        → split_tag b.name ≡ some (t, n)
        → points.get db.store i ≡ some e
        → e.tag ≡ t
        → e'.tag ≡ t
        → maps.writing n ≡ some w
        → maps.reading n ≡ some r
        → w e a ≡ some (Rc.ok, e')
        → r (record e' { is_modified = true }) (record b { quality = Quality.not_found })
          ≡ (Rc.ok, a')
        → (db' : Db points maps) × (write points maps db a ≡ some (ErrorCode.no_error, db'))
          × (read points maps db' b ≡ (ErrorCode.no_error, record a' { quality = Quality.ok }))
          × ((j : ℕ)
              → points.get db'.store j ≡ (
                  if i == j
                  then some (record e' { is_modified = true })
                  else points.get db.store j))
    read-write db a b t n i e e' w r a' starts commits unique names names' there tag tag' by_w by_r
          wrote reads =
        let flagged : Entry = record e' { is_modified = true } in
        let (s, put) = laws.put_some db.store i e flagged there in
        let db' : Db points maps = record db { store = s } in
        let here : points.get s i ≡ some flagged =
          rw (==-self i) at (laws.put_get db.store s i flagged i put) in
        let keeps = put-UniqueTags db.store s i e flagged unique there (tag' ∙ sym tag) put in
        let first = found_by_tag db i e t unique there tag in
        let second = found_by_tag db' i flagged t keeps here tag' in
        (
          db',
          write_known db t n i e e' w a s starts commits names first by_w wrote put,
          read_known db' t n i flagged r b a' starts commits names' second by_r reads,
          λ j. laws.put_get db.store s i flagged j put,
        )

  -- A read or a write of an attribute that has no function, of a point that is found, where the
  -- transaction starts and is committed, is answered by success, and a read with the quality OK;
  -- the value and the database are as before.
  pub unknown_attribute :
      (db : Db points maps) (a : AttributeInfo) (t n : Bytes) (i : ℕ) (e : Entry)
      → db.starts ≡ true
      → db.commits ≡ true
      → split_tag a.name ≡ some (t, n)
      → found points maps db t ≡ some (i, e)
      → maps.reading n ≡ none
      → maps.writing n ≡ none
      → (read points maps db a ≡ (ErrorCode.no_error, record a { quality = Quality.ok }))
        × (write points maps db a ≡ some (ErrorCode.no_error, db))
  unfolding read write
  unknown_attribute db a t n i e starts commits names known no_r no_w = (ground arith, ground arith)

  -- A write that is answered by an error leaves the database as it was.
  pub write_error :
      (db db' : Db points maps) (a : AttributeInfo) (error : ErrorCode)
      → write points maps db a ≡ some (error, db')
      → error ≢ ErrorCode.no_error
      → db' ≡ db
  unfolding write
  write_error db db' a error done bad = ground arith
