-- ===== src/Rtap/Groups/Armed.antt =====
-- querySbsArmedGroup of xdb/impl/xdb_impl_db_rtap.cpp.
use mathlib.Core.List.{Memᴰ}
use rtdbus.Base.{
  ℕ, Bytes, ◌≡◌, ◌↔◌, refl, sym, inl, inr, true, some, List, [], ◌∷◌, arith, Bool-cases,
  Option-cases,
}
use rtdbus.Rtap.Groups.Known.{label, read_name_lem, arm, lookup-insert, arm-keeps, arm-covers}
use rtdbus.Rtap.Groups.{
  Group, Item, Tagged, Classes, AreClasses, Buffers, Db, lookup, arm_item, arm_items, arm_points,
  query_sbs_armed_group, modified, of_point,
}

module _ (c : Classes) where
  -- Each item belongs to a group that is stored.
  unfoldable pub AreLinked : Db c → Type 0
  AreLinked db =
      (i : ℕ) (item : Item)
      → c.item.get db.items i ≡ some item
      → (g : Group) × (c.group.get db.groups item.group_id ≡ some g)

  -- A modified point is in the group.
  unfoldable pub HasModified : Db c → ℕ → Type 0
  HasModified db g =
      (i : ℕ) × (item : Item) × (p : Tagged) × (c.item.get db.items i ≡ some item)
      × (item.group_id ≡ g)
      × (c.point.get db.points item.tag_id ≡ some p)
      × (p.is_modified ≡ true)

  unfoldable pub IsReported : Buffers → Db c → ℕ → Bytes → Type 0
  IsReported buffers db g v =
      (r : Group) × (c.group.get db.groups g ≡ some r)
      × (r.enabled ≡ true)
      × (label buffers g r ≡ v)
      × HasModified db g

  module _ (buffers : Buffers) (db : Db c) where
    Sound : List (ℕ × Bytes) → Type 0
    Sound known = (g : ℕ) (v : Bytes) → lookup known g ≡ some v → IsReported buffers db g v

    arm-Sound :
        (known : List (ℕ × Bytes)) (g : ℕ) (r : Group)
        → c.group.get db.groups g ≡ some r
        → HasModified db g
        → Sound known
        → Sound (arm buffers known g r)
    unfolding Sound IsReported
    arm-Sound known g r there has sound k v h = elim (Bool-cases r.enabled) [
      | inl on ↦ elim (lookup-insert known g k (label buffers g r)) [
        | inl same ↦ let h' : lookup known k ≡ some v = rw (on, same) at h in sound k v h'
        | inr (e, new, found) ↦
            let h' : some (label buffers g r) ≡ some v = rw (on, found) at h in
            let name : label buffers g r ≡ v = cc in (r, rw e there, on, rw e name, rw e has)
      ]
      | inr off ↦ sound k v (rw off at h)
    ]

    arm_item-linked :
        (known : List (ℕ × Bytes)) (i : ℕ) (item : Item) (r : Group)
        → c.item.get db.items i ≡ some item
        → c.group.get db.groups item.group_id ≡ some r
        → arm_item c buffers db known i ≡ some (arm buffers known item.group_id r)
    unfolding arm_item
    arm_item-linked known i item r h there =
        let named = read_name_lem buffers.label_maxlen (buffers.label_stray item.group_id) r.name in
        elim (Option-cases (lookup known item.group_id)) [
          | inl new ↦ elim (Bool-cases r.enabled) [
            | inl on ↦ ground (arith, named)
            | inr off ↦ ground (arith, named)
          ]
          | inr (w, found) ↦ elim (Bool-cases r.enabled) [
            | inl on ↦ ground (arith, named)
            | inr off ↦ ground (arith, named)
          ]
        ]

    -- These are items of a modified point.
    Lists : List ℕ → Type 0
    Lists is =
        (i : ℕ)
        → Memᴰ i is
        → (item : Item) × (p : Tagged) × (c.item.get db.items i ≡ some item)
          × (c.point.get db.points item.tag_id ≡ some p)
          × (p.is_modified ≡ true)

    module _ (linked : AreLinked db) where
      arm_items-Sound :
          (known : List (ℕ × Bytes)) (is : List ℕ)
          → Lists is
          → Sound known
          → Sound (arm_items c buffers db known is)
      unfolding arm_items Lists HasModified AreLinked
      arm_items-Sound known [] of_modified sound = sound
      arm_items-Sound known (i ∷ is) of_modified sound =
          let (item, p, h, hp, on) = of_modified i (Memᴰ.head refl) in
          let (r, there) = linked i item h in
          let has : HasModified db item.group_id = (i, item, p, h, refl, hp, on) in
          let step = arm_item-linked known i item r h there in
          let next = arm-Sound known item.group_id r there has sound in
          rw (arm_items, step)
            (arm_items-Sound (arm buffers known item.group_id r) is
              (λ j m. of_modified j (Memᴰ.tail m)) next)

      arm_items-keeps :
          (known : List (ℕ × Bytes)) (is : List ℕ) (k : ℕ) (v : Bytes)
          → Lists is
          → lookup known k ≡ some v
          → lookup (arm_items c buffers db known is) k ≡ some v
      unfolding arm_items Lists AreLinked
      arm_items-keeps known [] k v of_modified found = found
      arm_items-keeps known (i ∷ is) k v of_modified found =
          let (item, p, h, hp, on) = of_modified i (Memᴰ.head refl) in
          let (r, there) = linked i item h in
          let step = arm_item-linked known i item r h there in
          let next = arm-keeps buffers known item.group_id k r v found in
          rw (arm_items, step)
            (arm_items-keeps (arm buffers known item.group_id r) is k v
              (λ j m. of_modified j (Memᴰ.tail m)) next)

      -- Every enabled group of these items is in the map.
      arm_items-covers :
          (known : List (ℕ × Bytes)) (is : List ℕ) (i : ℕ) (item : Item) (r : Group)
          → Lists is
          → Memᴰ i is
          → c.item.get db.items i ≡ some item
          → c.group.get db.groups item.group_id ≡ some r
          → r.enabled ≡ true
          → (v : Bytes) × (lookup (arm_items c buffers db known is) item.group_id ≡ some v)
      unfolding arm_items Lists AreLinked
      arm_items-covers known [] i item r of_modified mem h there on = elim mem [ ]
      arm_items-covers known (i ∷ is) j item r of_modified (Memᴰ.head e) h there on =
          let h' : c.item.get db.items i ≡ some item = rw e at h in
          let step = arm_item-linked known i item r h' there in
          let (v, found) = arm-covers buffers known item.group_id r on in
          (
            v,
            rw (arm_items, step)
                (arm_items-keeps (arm buffers known item.group_id r) is item.group_id v
                  (λ j m. of_modified j (Memᴰ.tail m)) found),
          )
      arm_items-covers known (i ∷ is) j item r of_modified (Memᴰ.tail m) h there on =
          let (item', p, h', hp, on') = of_modified i (Memᴰ.head refl) in
          let (r', there') = linked i item' h' in
          let step = arm_item-linked known i item' r' h' there' in
          let (v, found) =
            arm_items-covers (arm buffers known item'.group_id r') is j item r
              (λ j m. of_modified j (Memᴰ.tail m)) m h there on in
          (v, rw (arm_items, step) found)

      module _ (laws : AreClasses c) where
        listed :
            (j : ℕ) (p : Tagged)
            → c.point.get db.points j ≡ some p
            → p.is_modified ≡ true
            → Lists (c.item.scan db.items (of_point c j))
        unfolding Lists
        listed j p there on i mem =
            let (item, h, same) = laws.item_laws.scan_sound db.items (of_point c j) i mem in
            let e : item.tag_id ≡ j = ground (arith, same) in (item, p, h, rw e there, on)

        arm_points-Sound :
            (known : List (ℕ × Bytes)) (ps : List ℕ)
            → ((j : ℕ)
                → Memᴰ j ps
                → (p : Tagged) × (c.point.get db.points j ≡ some p) × (p.is_modified ≡ true))
            → Sound known
            → Sound (arm_points c buffers db known ps)
        unfolding arm_points
        arm_points-Sound known [] on sound = sound
        arm_points-Sound known (j ∷ ps) on sound =
            let (p, there, set) = on j (Memᴰ.head refl) in
            arm_points-Sound (arm_items c buffers db known (c.item.scan db.items (of_point c j))) ps
              (λ k m. on k (Memᴰ.tail m))
              (arm_items-Sound known (c.item.scan db.items (of_point c j)) (listed j p there set)
                sound)

        arm_points-keeps :
            (known : List (ℕ × Bytes)) (ps : List ℕ) (k : ℕ) (v : Bytes)
            → ((j : ℕ)
                → Memᴰ j ps
                → (p : Tagged) × (c.point.get db.points j ≡ some p) × (p.is_modified ≡ true))
            → lookup known k ≡ some v
            → lookup (arm_points c buffers db known ps) k ≡ some v
        unfolding arm_points
        arm_points-keeps known [] k v on found = found
        arm_points-keeps known (j ∷ ps) k v on found =
            let (p, there, set) = on j (Memᴰ.head refl) in
            arm_points-keeps (arm_items c buffers db known (c.item.scan db.items (of_point c j))) ps
              k v (λ i m. on i (Memᴰ.tail m))
              (arm_items-keeps known (c.item.scan db.items (of_point c j)) k v
                (listed j p there set) found)

        arm_points-covers :
            (known : List (ℕ × Bytes)) (ps : List ℕ) (i : ℕ) (item : Item) (r : Group)
            → ((j : ℕ)
                → Memᴰ j ps
                → (p : Tagged) × (c.point.get db.points j ≡ some p) × (p.is_modified ≡ true))
            → Memᴰ item.tag_id ps
            → c.item.get db.items i ≡ some item
            → c.group.get db.groups item.group_id ≡ some r
            → r.enabled ≡ true
            → (v : Bytes) × (lookup (arm_points c buffers db known ps) item.group_id ≡ some v)
        unfolding arm_points
        arm_points-covers known [] i item r on mem h there enabled = elim mem [ ]
        arm_points-covers known (q ∷ ps) i item r on (Memᴰ.head e) h there enabled =
            let (p, stored, set) = on q (Memᴰ.head refl) in
            let owned : of_point c q item ≡ true = ground arith in
            let mem = laws.item_laws.scan_complete db.items (of_point c q) i item h owned in
            let (v, found) =
              arm_items-covers known (c.item.scan db.items (of_point c q)) i item r
                (listed q p stored set) mem h there enabled in
            (
              v,
              arm_points-keeps (arm_items c buffers db known (c.item.scan db.items (of_point c q)))
                  ps item.group_id v (λ k m. on k (Memᴰ.tail m)) found,
            )
        arm_points-covers known (q ∷ ps) i item r on (Memᴰ.tail m) h there enabled =
            arm_points-covers (arm_items c buffers db known (c.item.scan db.items (of_point c q)))
              ps i item r (λ k x. on k (Memᴰ.tail x)) m h there enabled

  module _ (laws : AreClasses c) where
    -- Where each item belongs to a stored group and the transaction starts, the map of
    -- querySbsArmedGroup has a name under an id just if that is the id of a stored, enabled
    -- group in which a modified point is, and the name is that of the group up to its first NUL
    -- where it is shorter than LABEL_MAXLEN, and else its first LABEL_MAXLEN bytes and what the
    -- memory holds behind them, which is not initialized, up to the first NUL of both.
    pub query_sbs_armed_group_lem :
        (buffers : Buffers) (db : Db c)
        → AreLinked db
        → db.starts ≡ true
        → (g : ℕ) (v : Bytes)
        → (lookup (query_sbs_armed_group c buffers db).1 g ≡ some v) ↔ IsReported buffers db g v
    unfolding query_sbs_armed_group Sound IsReported HasModified
    query_sbs_armed_group_lem buffers db linked starts g v =
        let on = laws.point_laws.scan_sound db.points (modified c) in
        let ps = c.point.scan db.points (modified c) in
        let sound = arm_points-Sound buffers db linked laws [] ps on (λ k w h. absurd (cc h)) in
        let into : lookup (query_sbs_armed_group c buffers db).1 g ≡ some v
            → IsReported buffers db g v =
          λ h. sound g v (rw starts at h) in
        let back : IsReported buffers db g v
            → lookup (query_sbs_armed_group c buffers db).1 g ≡ some v =
          λ (r, there, enabled, name, has).
            let (i, item, p, h, e, hp, set) = has in
            let mem = laws.point_laws.scan_complete db.points (modified c) item.tag_id p hp set in
            let there' : c.group.get db.groups item.group_id ≡ some r = rw e there in
            let (w, found) =
              arm_points-covers buffers db linked laws [] ps i item r on mem h there' enabled in
            let found' : lookup (arm_points c buffers db [] ps) g ≡ some w = rw e at found in
            let (r', there'', enabled', name', rest) = sound g w found' in
            let same : r ≡ r' = cc in let named : w ≡ v = cc in rw (starts, sym named) found' in
        (into, back)
