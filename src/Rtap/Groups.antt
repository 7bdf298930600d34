-- ===== src/Rtap/Groups.antt =====
-- The subscription groups of xdb/impl/xdb_impl_db_rtap.cpp: createGroup, deleteGroup,
-- querySbsArmedGroup and querySbsPoints (all but rtQUERY_SBS_READ_POINTS_ARMED), over the classes
-- SBS_GROUPS_STAT, SBS_GROUPS_ITEM and XDBPoint of xdb/impl/dat/rtap_db.mco. What a cursor meets is
-- settled when it is opened.
pub mod Known
pub mod Armed
pub mod Disarm
pub mod Creation
pub mod Points
pub mod Deletion
pub mod Selected
pub mod Tests
use rtdbus.Base.{
  ℕ, Bytes, bytes_eq, c_str, take, replicate, Bool, true, false, ◌&&◌, Option, none, some, List, [],
  ◌∷◌, ◌++◌, ◌==◌, if◌then◌else◌, ◌>>=◌,
}
use rtdbus.Xdb.Table.{Table, IsTable, put_fields}

-- SBS_GROUPS_STAT: whether the state is ENABLE
pub record Group : Type 0 where
  pub name : Bytes
  pub enabled : Bool

-- SBS_GROUPS_ITEM
pub record Item : Type 0 where
  pub group_id : ℕ
  pub tag_id : ℕ

-- XDBPoint, what the groups read of it
pub record Tagged : Type 0 where
  pub tag : Bytes
  pub is_modified : Bool

abbrev pub new_group : Group
new_group = record { name = []; enabled = true }

abbrev pub new_item : Item
new_item = record { group_id = 0; tag_id = 0 }

abbrev pub new_point : Tagged
new_point = record { tag = []; is_modified = false }

pub record Classes : Type 1 where
  pub group : Table Group
  pub item : Table Item
  pub point : Table Tagged

pub record AreClasses (c : Classes) : Type 0 where
  pub group_laws : IsTable new_group c.group
  pub item_laws : IsTable new_item c.item
  pub point_laws : IsTable new_point c.point

-- The buffers sbs_name and point_name: LABEL_MAXLEN and TAG_NAME_MAXLEN, and what the memory holds
-- from their last byte on, which is not initialized, when the name of the group or the tag of the
-- point of an id is read.
pub record Buffers : Type 0 where
  pub label_maxlen : ℕ
  pub tag_name_maxlen : ℕ
  pub label_stray : ℕ → Bytes
  pub tag_stray : ℕ → Bytes

-- The string in such a buffer of size + 1 bytes: memset clears the first `size` of them, and the
-- field's get writes no NUL behind the name.
unfoldable pub read_name : ℕ → Bytes → Bytes → Bytes
unfolding c_str
read_name size stray name = c_str (take size (name ++ replicate size 0) ++ stray)

-- map_id_name_t: an insertion under a key that is there changes nothing.
abbrev pub lookup : List (ℕ × Bytes) → ℕ → Option Bytes
lookup [] i = none
lookup ((k, v) ∷ rest) i = let found = lookup rest i in if i == k then some v else found

abbrev pub insert : List (ℕ × Bytes) → ℕ → Bytes → List (ℕ × Bytes)
insert known i v = elim (lookup known i) [ none ↦ (i, v) ∷ known | some _ ↦ known ]

-- What createGroup and querySbsPoints leave behind: MCO_S_OK or not, whether the last error is
-- cleared, and whether the transaction is closed.
pub record Answer : Type 0 where
  pub ok : Bool
  pub cleared : Bool
  pub closed : Bool

abbrev pub done : Answer
done = record { ok = true; cleared = true; closed = true }

abbrev pub failed : Answer
failed = record { ok = false; cleared = false; closed = true }

-- A group that is already there: the code of the last call is MCO_S_OK, and there is no rollback.
abbrev pub repeated : Answer
repeated = record { ok = true; cleared = false; closed = false }

module _ (c : Classes) where
  -- The contents, and whether the runtime will start and commit the next transactions.
  pub record Db : Type 0 where
    pub groups : c.group.Store
    pub items : c.item.Store
    pub points : c.point.Store
    pub starts : Bool
    pub commits : Bool

  abbrev pub with_tag : Bytes → Tagged → Bool
  with_tag t p = bytes_eq p.tag t

  abbrev pub called : Bytes → Group → Bool
  called n g = bytes_eq g.name n

  abbrev pub modified : Tagged → Bool
  modified p = p.is_modified

  abbrev pub of_point : ℕ → Item → Bool
  of_point p i = i.tag_id == p

  -- createGroup, one tag: the item, and whether the loop goes on.
  unfoldable pub create_item : Db → ℕ → Bytes → Bool × Db
  create_item db g tag = elim (c.item.create db.items) [
    | none ↦ (false, db)
    | some (i, s) ↦ elim (put_fields c.item s i ((λ r. record r { group_id = g }) ∷ [])) [
      | none ↦ (false, record db { items = s })
      | some s' ↦ elim (c.point.find db.points (with_tag tag)) [
        | none ↦ (false, record db { items = s' })
        | some p ↦ elim (put_fields c.item s' i ((λ r. record r { tag_id = p }) ∷ [])) [
          | none ↦ (false, record db { items = s' })
          | some s'' ↦ (true, record db { items = s'' })
        ]
      ]
    ]
  ]

  abbrev pub go_on : Bool × Db → (Db → Db) → Db
  go_on (false, db) f = db
  go_on (true, db) f = f db

  -- createGroup, the loop over the tags, which `break` leaves.
  unfoldable pub create_items : Db → ℕ → List Bytes → Db
  unfolding create_item
  create_items db g [] = db
  create_items db g (tag ∷ tags) = go_on (create_item db g tag) (λ db'. create_items db' g tags)

  -- createGroup
  unfoldable pub create_group : Db → Bytes → List Bytes → Answer × Db
  unfolding create_items
  create_group db n tags =
      if db.starts
      then elim (c.group.find db.groups (called n)) [
        | some g ↦ (repeated, db)
        | none ↦ elim (c.group.create db.groups) [
          | none ↦ (failed, db)
          | some (g, s) ↦
              elim (put_fields c.group s g
                ((λ r. record r { name = n }) ∷ (λ r. record r { enabled = true }) ∷ [])) [
                  | none ↦ (failed, db)
                  | some s' ↦
                      if db.commits
                      then (done, create_items (record db { groups = s' }) g tags)
                      else (failed, db)
                ]
        ]
      ]
      else (failed, db)

  abbrev pub in_group : ℕ → Item → Bool
  in_group g i = i.group_id == g

  -- deleteGroup, the loop over the items of the group; a code of a `break` is lost, for the cursor is
  -- closed next.
  unfoldable pub delete_items : Db → List ℕ → Db
  delete_items db [] = db
  delete_items db (i ∷ is) = elim (c.item.get db.items i) [
    | none ↦ db
    | some _ ↦ elim (c.item.remove db.items i) [
      | none ↦ db
      | some s ↦ delete_items (record db { items = s }) is
    ]
  ]

  -- deleteGroup
  unfoldable pub delete_group : Db → Bytes → Answer × Db
  unfolding delete_items
  delete_group db n =
      if db.starts
      then elim (c.group.find db.groups (called n)) [
        | none ↦ (failed, db)
        | some g ↦ elim (c.group.remove db.groups g) [
          | none ↦ (failed, db)
          | some s ↦
              if db.commits
              then (
                done,
                record (delete_items db (c.item.scan db.items (in_group g))) { groups = s },
              )
              else (failed, db)
        ]
      ]
      else (failed, db)

  -- querySbsArmedGroup, one item of a modified point; `none` where `break` leaves the loop.
  unfoldable pub arm_item : Buffers → Db → List (ℕ × Bytes) → ℕ → Option (List (ℕ × Bytes))
  arm_item buffers db known i = c.item.get db.items i >>= λ item.
      elim (lookup known item.group_id) [
        | some _ ↦ some known
        | none ↦ c.group.get db.groups item.group_id >>= λ g.
            if g.enabled
            then some (
                insert known item.group_id
                  (read_name buffers.label_maxlen (buffers.label_stray item.group_id) g.name))
            else some known
      ]

  -- The loop over the items; the code of a `break` is lost, for the cursor is closed next.
  unfoldable pub arm_items : Buffers → Db → List (ℕ × Bytes) → List ℕ → List (ℕ × Bytes)
  unfolding arm_item
  arm_items buffers db known [] = known
  arm_items buffers db known (i ∷ is) = elim (arm_item buffers db known i) [
    | none ↦ known
    | some known' ↦ arm_items buffers db known' is
  ]

  -- The loop over the modified points.
  unfoldable pub arm_points : Buffers → Db → List (ℕ × Bytes) → List ℕ → List (ℕ × Bytes)
  unfolding arm_items
  arm_points buffers db known [] = known
  arm_points buffers db known (p ∷ ps) =
      arm_points buffers db (arm_items buffers db known (c.item.scan db.items (of_point p))) ps

  -- querySbsArmedGroup: MCO_S_OK or not, and the map
  unfoldable pub query_sbs_armed_group : Buffers → Db → Bool × List (ℕ × Bytes)
  unfolding arm_points
  query_sbs_armed_group buffers db =
      if db.starts
      then (db.commits, arm_points buffers db [] (c.point.scan db.points modified))
      else (false, [])

  -- querySbsPoints for rtQUERY_SBS_POINTS_ARMED, one modified point, whose items are met in turn; a
  -- code of a `break` is lost, for the cursor is closed next.
  unfoldable pub armed_point : Buffers → Db → ℕ → ℕ → List (ℕ × Bytes) → List ℕ → List (ℕ × Bytes)
  armed_point buffers db g p known [] = known
  armed_point buffers db g p known (i ∷ is) = elim (c.item.get db.items i) [
    | none ↦ known
    | some item ↦
        if item.group_id == g
        then elim (c.point.get db.points p) [
          | none ↦ armed_point buffers db g p known is
          | some r ↦
              armed_point buffers db g p
                (insert known p (read_name buffers.tag_name_maxlen (buffers.tag_stray p) r.tag)) is
        ]
        else armed_point buffers db g p known is
  ]

  -- The loop over the modified points.
  unfoldable pub armed_points : Buffers → Db → ℕ → List (ℕ × Bytes) → List ℕ → List (ℕ × Bytes)
  unfolding armed_point
  armed_points buffers db g known [] = known
  armed_points buffers db g known (p ∷ ps) =
      armed_points buffers db g
        (armed_point buffers db g p known (c.item.scan db.items (of_point p))) ps

  -- querySbsPoints for rtQUERY_SBS_POINTS_ARMED: MCO_S_OK or not, and the map
  unfoldable pub query_sbs_points_armed : Buffers → Db → Bytes → Bool × List (ℕ × Bytes)
  unfolding armed_points
  query_sbs_points_armed buffers db n =
      if db.starts
      then elim (c.group.find db.groups (called n)) [
        | none ↦ (false, [])
        | some g ↦ (db.commits, armed_points buffers db g [] (c.point.scan db.points modified))
      ]
      else (false, [])

  -- querySbsPoints for rtQUERY_SBS_POINTS_DISARM, one modified point, whose items are met in turn.
  unfoldable pub disarm_point : Db → ℕ → ℕ → List ℕ → Db
  disarm_point db g p [] = db
  disarm_point db g p (i ∷ is) = elim (c.item.get db.items i) [
    | none ↦ db
    | some item ↦
        if item.group_id == g
        then elim (put_fields c.point db.points p ((λ r. record r { is_modified = false }) ∷ [])) [
          | none ↦ disarm_point db g p is
          | some s ↦ disarm_point (record db { points = s }) g p is
        ]
        else disarm_point db g p is
  ]

  -- The loop over the modified points.
  unfoldable pub disarm_points : Db → ℕ → List ℕ → Db
  unfolding disarm_point
  disarm_points db g [] = db
  disarm_points db g (p ∷ ps) =
      disarm_points (disarm_point db g p (c.item.scan db.items (of_point p))) g ps

  -- querySbsPoints for rtQUERY_SBS_POINTS_DISARM
  unfoldable pub query_sbs_points_disarm : Db → Bytes → Bool × Db
  unfolding disarm_points
  query_sbs_points_disarm db n =
      if db.starts && db.commits
      then elim (c.group.find db.groups (called n)) [
        | none ↦ (false, db)
        | some g ↦ (true, disarm_points db g (c.point.scan db.points modified))
      ]
      else (false, db)
