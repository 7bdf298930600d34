-- ===== src/Rtap/Groups/Points.antt =====
-- querySbsPoints of xdb/impl/xdb_impl_db_rtap.cpp for rtQUERY_SBS_POINTS_ARMED.
use mathlib.Core.List.{Memᴰ}
use rtdbus.Base.{
  ℕ, Bytes, ◌≡◌, ◌↔◌, refl, sym, ◌∙◌, inl, inr, true, some, List, [], ◌∷◌, ◌==◌, arith, Bool-cases,
}
use rtdbus.Rtap.Groups.{
  Item, Tagged, Classes, AreClasses, Buffers, Db, armed_point, armed_points, query_sbs_points_armed,
  modified, of_point, called, insert, lookup,
}
use rtdbus.Rtap.Groups.Known.{reported, read_name_lem, lookup-insert, insert-keeps, insert-covers}
use rtdbus.Rtap.Groups.Disarm.{IsIn}

-- The tag under which a point is reported.
abbrev pub tag_of : Buffers → ℕ → Tagged → Bytes
tag_of buffers j p = reported buffers.tag_name_maxlen (buffers.tag_stray j) p.tag

module _ (c : Classes) (buffers : Buffers) (db : Db c) (g : ℕ) where
  -- The point is stored, modified and in the group, and has the tag.
  pub IsArmed : ℕ → Bytes → Type 0
  IsArmed j v =
      (p : Tagged) × (c.point.get db.points j ≡ some p)
      × (p.is_modified ≡ true)
      × (tag_of buffers j p ≡ v)
      × IsIn c db g j

  Sound : List (ℕ × Bytes) → Type 0
  Sound known = (j : ℕ) (v : Bytes) → lookup known j ≡ some v → IsArmed j v

  insert-Sound :
      (known : List (ℕ × Bytes)) (j : ℕ) (p : Tagged)
      → c.point.get db.points j ≡ some p
      → p.is_modified ≡ true
      → IsIn c db g j
      → Sound known
      → Sound (insert known j (tag_of buffers j p))
  unfolding Sound IsArmed IsIn
  insert-Sound known j p there set own sound k v h =
      elim (lookup-insert known j k (tag_of buffers j p)) [
        | inl same ↦ sound k v (sym same ∙ h)
        | inr (e, new, found) ↦
            let name : tag_of buffers j p ≡ v = cc (found, h) in
            (p, rw e there, set, rw e name, rw e own)
      ]

  -- These are items of the point, which is modified.
  Lists : ℕ → List ℕ → Type 0
  Lists j is =
      (i : ℕ) → Memᴰ i is → (item : Item) × (c.item.get db.items i ≡ some item) × (item.tag_id ≡ j)

  armed_point-Sound :
      (known : List (ℕ × Bytes)) (j : ℕ) (p : Tagged) (is : List ℕ)
      → c.point.get db.points j ≡ some p
      → p.is_modified ≡ true
      → Lists j is
      → Sound known
      → Sound (armed_point c buffers db g j known is)
  unfolding armed_point Lists IsIn
  armed_point-Sound known j p [] there set listed sound = sound
  armed_point-Sound known j p (i ∷ is) there set listed sound =
      let (item, h, e) = listed i (Memᴰ.head refl) in
      let later : Lists j is = λ k m. listed k (Memᴰ.tail m) in
      let named = read_name_lem buffers.tag_name_maxlen (buffers.tag_stray j) p.tag in
      elim (Bool-cases (item.group_id == g)) [
        | inl same ↦
            let own : IsIn c db g j = (i, item, h, ground arith, e) in
            rw (armed_point, h, same, there, named)
              (armed_point-Sound (insert known j (tag_of buffers j p)) j p is there set later
                (insert-Sound known j p there set own sound))
        | inr apart ↦
            rw (armed_point, h, apart) (armed_point-Sound known j p is there set later sound)
      ]

  armed_point-keeps :
      (known : List (ℕ × Bytes)) (j k : ℕ) (v : Bytes) (p : Tagged) (is : List ℕ)
      → c.point.get db.points j ≡ some p
      → Lists j is
      → lookup known k ≡ some v
      → lookup (armed_point c buffers db g j known is) k ≡ some v
  unfolding armed_point Lists
  armed_point-keeps known j k v p [] there listed found = found
  armed_point-keeps known j k v p (i ∷ is) there listed found =
      let (item, h, e) = listed i (Memᴰ.head refl) in
      let later : Lists j is = λ k m. listed k (Memᴰ.tail m) in
      let named = read_name_lem buffers.tag_name_maxlen (buffers.tag_stray j) p.tag in
      elim (Bool-cases (item.group_id == g)) [
        | inl same ↦
            rw (armed_point, h, same, there, named)
              (armed_point-keeps (insert known j (tag_of buffers j p)) j k v p is there later
                (insert-keeps known j k (tag_of buffers j p) v found))
        | inr apart ↦
            rw (armed_point, h, apart) (armed_point-keeps known j k v p is there later found)
      ]

  armed_point-covers :
      (known : List (ℕ × Bytes)) (j i : ℕ) (item : Item) (p : Tagged) (is : List ℕ)
      → c.point.get db.points j ≡ some p
      → Lists j is
      → Memᴰ i is
      → c.item.get db.items i ≡ some item
      → item.group_id ≡ g
      → (v : Bytes) × (lookup (armed_point c buffers db g j known is) j ≡ some v)
  unfolding armed_point Lists
  armed_point-covers known j i item p [] there listed mem h own = elim mem [ ]
  armed_point-covers known j i item p (k ∷ is) there listed mem h own =
      let (item', h', e) = listed k (Memᴰ.head refl) in
      let later : Lists j is = λ k m. listed k (Memᴰ.tail m) in
      let named = read_name_lem buffers.tag_name_maxlen (buffers.tag_stray j) p.tag in
      elim (Bool-cases (item'.group_id == g)) [
        | inl same ↦
            let (v, found) = insert-covers known j (tag_of buffers j p) in
            (
              v,
              rw (armed_point, h', same, there, named)
                  (armed_point-keeps (insert known j (tag_of buffers j p)) j j v p is there later
                    found),
            )
        | inr apart ↦ elim mem [
          | Memᴰ.head here ↦ let e' : item ≡ item' = cc in absurd (ground arith)
          | Memᴰ.tail m ↦
              let (v, found) = armed_point-covers known j i item p is there later m h own in
              (v, rw (armed_point, h', apart) found)
        ]
      ]

  -- These are modified points.
  AreModified : List ℕ → Type 0
  AreModified ps =
      (j : ℕ)
      → Memᴰ j ps
      → (p : Tagged) × (c.point.get db.points j ≡ some p) × (p.is_modified ≡ true)

  module _ (laws : AreClasses c) where
    scanned : (j : ℕ) → Lists j (c.item.scan db.items (of_point c j))
    unfolding Lists
    scanned j i mem =
        let (item, h, same) = laws.item_laws.scan_sound db.items (of_point c j) i mem in
        (item, h, ground (arith, same))

    armed_points-Sound :
        (known : List (ℕ × Bytes)) (ps : List ℕ)
        → AreModified ps
        → Sound known
        → Sound (armed_points c buffers db g known ps)
    unfolding armed_points AreModified
    armed_points-Sound known [] on sound = sound
    armed_points-Sound known (j ∷ ps) on sound =
        let is = c.item.scan db.items (of_point c j) in
        let (p, there, set) = on j (Memᴰ.head refl) in
        armed_points-Sound (armed_point c buffers db g j known is) ps (λ k m. on k (Memᴰ.tail m))
          (armed_point-Sound known j p is there set (scanned j) sound)

    armed_points-keeps :
        (known : List (ℕ × Bytes)) (ps : List ℕ) (k : ℕ) (v : Bytes)
        → AreModified ps
        → lookup known k ≡ some v
        → lookup (armed_points c buffers db g known ps) k ≡ some v
    unfolding armed_points AreModified
    armed_points-keeps known [] k v on found = found
    armed_points-keeps known (j ∷ ps) k v on found =
        let is = c.item.scan db.items (of_point c j) in
        let (p, there, set) = on j (Memᴰ.head refl) in
        armed_points-keeps (armed_point c buffers db g j known is) ps k v
          (λ i m. on i (Memᴰ.tail m)) (armed_point-keeps known j k v p is there (scanned j) found)

    armed_points-covers :
        (known : List (ℕ × Bytes)) (ps : List ℕ) (j : ℕ)
        → AreModified ps
        → Memᴰ j ps
        → IsIn c db g j
        → (v : Bytes) × (lookup (armed_points c buffers db g known ps) j ≡ some v)
    unfolding armed_points AreModified IsIn
    armed_points-covers known [] j on mem own = elim mem [ ]
    armed_points-covers known (q ∷ ps) j on mem own =
        let is = c.item.scan db.items (of_point c q) in
        let later : AreModified ps = λ k m. on k (Memᴰ.tail m) in
        elim mem [
          | Memᴰ.head here ↦
              let (p, there, set) = on q (Memᴰ.head refl) in
              let (i, item, h, of_group, of_j) = own in
              let owned : of_point c q item ≡ true = ground arith in
              let mem' = laws.item_laws.scan_complete db.items (of_point c q) i item h owned in
              let (v, found) =
                armed_point-covers known q i item p is there (scanned q) mem' h of_group in
              (
                v,
                rw here
                    (armed_points-keeps (armed_point c buffers db g q known is) ps q v later found),
              )
          | Memᴰ.tail m ↦
              armed_points-covers (armed_point c buffers db g q known is) ps j later m own
        ]

    -- The map of all modified points holds those of the group.
    armed_points_lem :
        (j : ℕ) (v : Bytes)
        → (lookup (armed_points c buffers db g [] (c.point.scan db.points (modified c))) j ≡ some v)
          ↔ IsArmed j v
    unfolding Sound IsArmed AreModified
    armed_points_lem j v =
        let ps = c.point.scan db.points (modified c) in
        let on : AreModified ps = laws.point_laws.scan_sound db.points (modified c) in
        let sound = armed_points-Sound [] ps on (λ k w h. absurd (cc h)) in
        let back : IsArmed j v → lookup (armed_points c buffers db g [] ps) j ≡ some v =
          λ (p, there, set, name, own).
            let mem = laws.point_laws.scan_complete db.points (modified c) j p there set in
            let (w, found) = armed_points-covers [] ps j on mem own in
            let (p', there', set', name', own') = sound j w found in
            let same : p ≡ p' = cc in let named : w ≡ v = cc in rw (sym named) found in
        (sound j v, back)

module _ (c : Classes) (laws : AreClasses c) (buffers : Buffers) where
  -- querySbsPoints with rtQUERY_SBS_POINTS_ARMED, for a group that exists and where the
  -- transaction starts: the map has a tag under an id just if that is the id of a stored and
  -- modified point of the group, and the tag is that of the point up to its first NUL where it is
  -- shorter than TAG_NAME_MAXLEN, and else its first TAG_NAME_MAXLEN bytes and what the memory
  -- holds behind them, which is not initialized, up to the first NUL of both.
  pub query_sbs_points_armed_lem :
      (db : Db c) (n : Bytes) (g : ℕ)
      → db.starts ≡ true
      → c.group.find db.groups (called c n) ≡ some g
      → (j : ℕ) (v : Bytes)
      → (lookup (query_sbs_points_armed c buffers db n).1 j ≡ some v) ↔ IsArmed c buffers db g j v
  unfolding query_sbs_points_armed
  query_sbs_points_armed_lem db n g starts known j v =
      let map : (query_sbs_points_armed c buffers db n).1
          ≡ armed_points c buffers db g [] (c.point.scan db.points (modified c)) =
        ground arith in
      rw map (armed_points_lem c buffers db g laws j v)
