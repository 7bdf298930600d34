-- ===== src/Rtap/Groups/Tests.antt =====
-- Examples of the properties of the subscription groups.
use rtdbus.Base.{
  none, ◌==◌, if◌then◌else◌, ℕ, zero, suc, text, ◌≡◌, ◌≢◌, ◌↔◌, refl, sym, bytes_eq, true, false,
  some, [], ◌∷◌,
}
use rtdbus.Xdb.Memory.{table, table-IsTable, table-IsRemovable}
use rtdbus.Rtap.Groups.{
  Item, query_sbs_points_armed, Classes, AreClasses, Buffers, Db, new_group, new_item, new_point,
  lookup, read_name, delete_group, query_sbs_armed_group, query_sbs_points_disarm, create_group,
  done,
}
use rtdbus.Rtap.Groups.Armed.{AreLinked, HasModified, IsReported, query_sbs_armed_group_lem}
use rtdbus.Rtap.Groups.Points.{IsArmed, query_sbs_points_armed_lem}
use rtdbus.Rtap.Groups.Deletion.{delete_group_lem}
use rtdbus.Rtap.Groups.Disarm.{Disarms, query_sbs_points_disarm_lem}
use rtdbus.Rtap.Groups.{Tagged}
use rtdbus.Base.{Bool-cases, bytes_eq_iff, inl, inr}
use rtdbus.Rtap.Groups.Selected.{
  query_sbs_disarm_selected_points, is_in, clear_if, UniquePoints, AreKnown,
  query_sbs_disarm_selected_points_lem,
}
use rtdbus.Rtap.Groups.Creation.{create_group_unknown}

abbrev tables : Classes
tables = record { group = table new_group; item = table new_item; point = table new_point }

tables-AreClasses : AreClasses tables
tables-AreClasses = record {
  group_laws = table-IsTable new_group;
  item_laws = table-IsTable new_item;
  point_laws = table-IsTable new_point;
}

abbrev buffers : Buffers
buffers = record {
  label_maxlen = 4;
  tag_name_maxlen = 32;
  label_stray = λ i. text "?";
  tag_stray = λ i. text "?";
}

-- Two groups over three points, of which the second is modified; the second group is suspended.
abbrev db : Db tables
db = record {
  groups =
      some (record { name = text "MAIN"; enabled = true })
      ∷ some (record { name = text "AUX"; enabled = false })
      ∷ [];
  items =
      some (record { group_id = 1; tag_id = 1 })
      ∷ some (record { group_id = 1; tag_id = 2 })
      ∷ some (record { group_id = 2; tag_id = 2 })
      ∷ [];
  points =
      some (record { tag = text "/A"; is_modified = false })
      ∷ some (record { tag = text "/B"; is_modified = true })
      ∷ some (record { tag = text "/C"; is_modified = false })
      ∷ [];
  starts = true;
  commits = true;
}

db-AreLinked : AreLinked tables db
unfolding AreLinked
db-AreLinked zero item h = absurd (cc h)
db-AreLinked (suc zero) item h =
    let e : record { group_id = 1; tag_id = 1 } ≡ item = cc in
    rw (sym e) (record { name = text "MAIN"; enabled = true }, refl)
db-AreLinked (suc (suc zero)) item h =
    let e : record { group_id = 1; tag_id = 2 } ≡ item = cc in
    rw (sym e) (record { name = text "MAIN"; enabled = true }, refl)
db-AreLinked (suc (suc (suc zero))) item h =
    let e : record { group_id = 2; tag_id = 2 } ≡ item = cc in
    rw (sym e) (record { name = text "AUX"; enabled = false }, refl)
db-AreLinked (suc (suc (suc (suc i)))) item h = absurd (cc h)

-- The name of the group fills its buffer.
query_sbs_armed_group_lem_example :
    (lookup (query_sbs_armed_group tables buffers db).1 1 ≡ some (text "MAIN?"))
    ↔ IsReported tables buffers db 1 (text "MAIN?")
query_sbs_armed_group_lem_example =
    query_sbs_armed_group_lem tables tables-AreClasses buffers db db-AreLinked refl 1 (text "MAIN?")

armed_run : query_sbs_armed_group tables buffers db ≡ (true, (1, text "MAIN?") ∷ [])
unfolding query_sbs_armed_group read_name
armed_run = refl

query_sbs_points_disarm_lem_example :
    ((query_sbs_points_disarm tables db (text "MAIN")).0 ≡ true)
    × Disarms tables 1 db (query_sbs_points_disarm tables db (text "MAIN")).1
    × (¬ HasModified tables (query_sbs_points_disarm tables db (text "MAIN")).1 1)
unfolding bytes_eq
query_sbs_points_disarm_lem_example =
    query_sbs_points_disarm_lem tables tables-AreClasses db (text "MAIN") 1 refl refl refl

create_group_unknown_example :
    ((create_group tables db (text "NEW") (text "/X" ∷ text "/C" ∷ [])).0 ≡ done)
    × (tables.item.get (create_group tables db (text "NEW") (text "/X" ∷ text "/C" ∷ [])).1.items 4
        ≡ some (record { group_id = 3; tag_id = 0 }))
    × ((j : ℕ)
        → 4 ≢ j
        → tables.item.get
            (create_group tables db (text "NEW") (text "/X" ∷ text "/C" ∷ [])).1.items
            j
          ≡ tables.item.get db.items j)
unfolding bytes_eq
create_group_unknown_example =
    create_group_unknown tables tables-AreClasses db (text "NEW") (text "/X") (text "/C" ∷ []) 3 4
      (some (record { name = text "MAIN"; enabled = true })
        ∷ some (record { name = text "AUX"; enabled = false })
        ∷ some new_group
        ∷ [])
      (some (record { group_id = 1; tag_id = 1 })
        ∷ some (record { group_id = 1; tag_id = 2 })
        ∷ some (record { group_id = 2; tag_id = 2 })
        ∷ some new_item
        ∷ [])
      refl refl refl refl refl refl

query_sbs_points_armed_lem_example :
    (lookup (query_sbs_points_armed tables buffers db (text "MAIN")).1 2 ≡ some (text "/B"))
    ↔ IsArmed tables buffers db 1 2 (text "/B")
unfolding bytes_eq
query_sbs_points_armed_lem_example =
    query_sbs_points_armed_lem tables tables-AreClasses buffers db (text "MAIN") 1 refl refl 2
      (text "/B")

delete_group_lem_example :
    ((delete_group tables db (text "AUX")).0 ≡ done)
    × ((k : ℕ)
        → tables.group.get (delete_group tables db (text "AUX")).1.groups k
          ≡ (if 2 == k then none else tables.group.get db.groups k))
    × ((i : ℕ) (item : Item)
        → (tables.item.get (delete_group tables db (text "AUX")).1.items i ≡ some item)
          ↔ ((tables.item.get db.items i ≡ some item) × (item.group_id ≢ 2)))
    × ((delete_group tables db (text "AUX")).1.points ≡ db.points)
unfolding bytes_eq
delete_group_lem_example =
    delete_group_lem tables tables-AreClasses (table-IsRemovable new_item) db (text "AUX") 2
      (some (record { name = text "MAIN"; enabled = true }) ∷ none ∷ []) refl refl refl refl

abbrev changed : Tagged
changed = record { tag = text "/B"; is_modified = true }

abbrev one_point : Db tables
one_point = record db { points = some changed ∷ [] }

one_point-UniquePoints : UniquePoints tables (some changed ∷ [])
unfolding UniquePoints
one_point-UniquePoints zero j x y at_i at_j same = absurd (cc at_i)
one_point-UniquePoints (suc zero) zero x y at_i at_j same = absurd (cc at_j)
one_point-UniquePoints (suc zero) (suc zero) x y at_i at_j same = refl
one_point-UniquePoints (suc zero) (suc (suc j)) x y at_i at_j same = absurd (cc at_j)
one_point-UniquePoints (suc (suc i)) j x y at_i at_j same = absurd (cc at_i)

one_point-AreKnown : AreKnown tables (some changed ∷ []) (text "/B" ∷ [])
unfolding AreKnown is_in
one_point-AreKnown t known = elim (Bool-cases (bytes_eq t (text "/B"))) [
  | inl same ↦ (1, changed, refl, sym ((bytes_eq_iff t (text "/B")).0 same))
  | inr other ↦ absurd (cc (rw other at known))
]

query_sbs_disarm_selected_points_lem_example :
    (db' : Db tables) × (query_sbs_disarm_selected_points tables one_point (text "/B" ∷ [])
      ≡ (true, db'))
    × ((j : ℕ)
        → tables.point.get db'.points j
          ≡ clear_if tables (text "/B" ∷ []) (tables.point.get one_point.points j))
    × (db'.groups ≡ one_point.groups)
    × (db'.items ≡ one_point.items)
query_sbs_disarm_selected_points_lem_example =
    query_sbs_disarm_selected_points_lem tables tables-AreClasses one_point (text "/B" ∷ []) refl
      refl one_point-UniquePoints one_point-AreKnown
