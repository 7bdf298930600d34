-- ===== src/Rtap/Groups/Disarm.antt =====
-- querySbsPoints of xdb/impl/xdb_impl_db_rtap.cpp for rtQUERY_SBS_POINTS_DISARM.
use mathlib.Core.List.{Memᴰ}
use rtdbus.Base.{
  ℕ, Bytes, ◌≡◌, refl, sym, ◌∙◌, inl, inr, ◌⊎◌, true, false, some, List, [], ◌∷◌, ◌==◌, arith,
  Bool-cases,
}
use rtdbus.Xdb.Table.{put_fields, put_fields_lem, put_fields-some}
use rtdbus.Rtap.Groups.{
  Item, Tagged, Classes, AreClasses, Db, disarm_point, disarm_points, query_sbs_points_disarm,
  modified, of_point, called,
}
use rtdbus.Rtap.Groups.Armed.{HasModified}

abbrev cleared : Tagged → Tagged
cleared p = record p { is_modified = false }

module _ (c : Classes) where
  unfoldable pub IsIn : Db c → ℕ → ℕ → Type 0
  IsIn db g j =
      (i : ℕ) × (item : Item) × (c.item.get db.items i ≡ some item)
      × (item.group_id ≡ g)
      × (item.tag_id ≡ j)

  -- The second contents are the first, but that points of the group are cleared.
  pub Disarms : ℕ → Db c → Db c → Type 0
  Disarms g db db' =
      (db'.items ≡ db.items)
      × (db'.groups ≡ db.groups)
      × ((j : ℕ)
          → (c.point.get db'.points j ≡ c.point.get db.points j)
            ⊎ (IsIn db g j
                × (p : Tagged) × (c.point.get db.points j ≡ some p)
                × (c.point.get db'.points j ≡ some (cleared p))))

  Disarms-refl : (g : ℕ) (db : Db c) → Disarms g db db
  unfolding Disarms
  Disarms-refl g db = (refl, refl, λ j. inl refl)

  Disarms-trans :
      (g : ℕ) (db db' db'' : Db c) → Disarms g db db' → Disarms g db' db'' → Disarms g db db''
  unfolding Disarms IsIn
  Disarms-trans g db db' db'' (items, groups, first) (items', groups', second) = (
    items' ∙ items,
    groups' ∙ groups,
    λ j. elim (second j) [
      | inl same ↦ elim (first j) [
        | inl same' ↦ inl (same ∙ same')
        | inr (own, p, there, set) ↦ inr (own, p, there, same ∙ set)
      ]
      | inr (own, p, there, set) ↦ elim (first j) [
        | inl same' ↦ inr (rw items at own, p, sym same' ∙ there, set)
        | inr (own', q, there', set') ↦
            let e : p ≡ cleared q = cc in inr (own', q, there', rw e at set)
      ]
    ],
  )

  IsCleared : Db c → ℕ → Type 0
  IsCleared db j = (p : Tagged) → c.point.get db.points j ≡ some p → p.is_modified ≡ false

  Disarms-IsCleared :
      (g j : ℕ) (db db' : Db c) → Disarms g db db' → IsCleared db j → IsCleared db' j
  unfolding Disarms IsCleared
  Disarms-IsCleared g j db db' (items, groups, step) none_set p there = elim (step j) [
    | inl same ↦ none_set p (sym same ∙ there)
    | inr (own, q, was, now) ↦ let e : p ≡ cleared q = cc in rw e refl
  ]

  Disarms-stored :
      (g j : ℕ) (db db' : Db c) (p : Tagged)
      → Disarms g db db'
      → c.point.get db.points j ≡ some p
      → (q : Tagged) × (c.point.get db'.points j ≡ some q)
  unfolding Disarms
  Disarms-stored g j db db' p (items, groups, step) there = elim (step j) [
    | inl same ↦ (p, same ∙ there)
    | inr (own, q, was, now) ↦ (cleared q, now)
  ]

  first_cleared :
      (db : Db c) (p : ℕ) (r : Tagged) → c.point.get db.points p ≡ some (cleared r) → IsCleared db p
  unfolding IsCleared
  first_cleared db p r row q there = let e : q ≡ cleared r = cc in rw e refl

  module _ (laws : AreClasses c) where
    -- One write of the flag.
    clear_flag :
        (g p : ℕ) (db : Db c) (r : Tagged)
        → c.point.get db.points p ≡ some r
        → IsIn db g p
        → (s : c.point.Store) × (put_fields c.point db.points p
              ((λ q. record q { is_modified = false }) ∷ [])
            ≡ some s)
          × (c.point.get s p ≡ some (cleared r))
          × Disarms g db (record db { points = s })
    unfolding Disarms
    clear_flag g p db r there own =
        let fs = (λ q. record q { is_modified = false }) ∷ [] in
        let (s, put, own_row) = put_fields-some c.point laws.point_laws db.points p fs r there in
        let all = put_fields_lem c.point laws.point_laws db.points s p fs r there put in
        (
          s,
          put,
          own_row,
          (
            refl,
            refl,
            λ j. elim (Bool-cases (p == j)) [
              | inl same ↦
                  let e : p ≡ j = ground arith in
                  inr (rw e at own, r, rw e at there, rw e at own_row)
              | inr apart ↦ inl (rw apart at (all j))
            ],
          ),
        )

    -- These are items of the point.
    Lists : Db c → ℕ → List ℕ → Type 0
    Lists db p is =
        (i : ℕ)
        → Memᴰ i is
        → (item : Item) × (c.item.get db.items i ≡ some item) × (item.tag_id ≡ p)

    disarm_point-Disarms :
        (g p : ℕ) (is : List ℕ) (db : Db c) (r : Tagged)
        → c.point.get db.points p ≡ some r
        → Lists db p is
        → Disarms g db (disarm_point c db g p is)
    unfolding disarm_point Lists IsIn
    disarm_point-Disarms g p [] db r there of_point = Disarms-refl g db
    disarm_point-Disarms g p (i ∷ is) db r there of_point =
        let (item, h, e) = of_point i (Memᴰ.head refl) in
        elim (Bool-cases (item.group_id == g)) [
          | inl same ↦
              let own : IsIn db g p = (i, item, h, ground arith, e) in
              let (s, put, row, step) = clear_flag g p db r there own in
              let rest =
                disarm_point-Disarms g p is (record db { points = s }) (cleared r) row
                  (λ j m. of_point j (Memᴰ.tail m)) in
              let both =
                Disarms-trans g db (record db { points = s })
                  (disarm_point c (record db { points = s }) g p is) step rest in
              rw (disarm_point, h, same, put) both
          | inr apart ↦
              rw (disarm_point, h, apart)
                (disarm_point-Disarms g p is db r there (λ j m. of_point j (Memᴰ.tail m)))
        ]

    disarm_point-IsCleared :
        (g p i : ℕ) (item : Item) (is : List ℕ) (db : Db c) (r : Tagged)
        → c.point.get db.points p ≡ some r
        → Lists db p is
        → Memᴰ i is
        → c.item.get db.items i ≡ some item
        → item.group_id ≡ g
        → IsCleared (disarm_point c db g p is) p
    unfolding disarm_point Lists IsIn
    disarm_point-IsCleared g p i item [] db r there of_point mem h own = elim mem [ ]
    disarm_point-IsCleared g p i item (k ∷ is) db r there of_point mem h own =
        let (item', h', e) = of_point k (Memᴰ.head refl) in
        let later : Lists db p is = λ j m. of_point j (Memᴰ.tail m) in
        elim (Bool-cases (item'.group_id == g)) [
          | inl same ↦
              let own' : IsIn db g p = (k, item', h', ground arith, e) in
              let (s, put, row, step) = clear_flag g p db r there own' in
              let db' : Db c = record db { points = s } in
              let rest = disarm_point-Disarms g p is db' (cleared r) row later in
              let set : IsCleared db' p = first_cleared db' p r row in
              rw (disarm_point, h', same, put)
                (Disarms-IsCleared g p db' (disarm_point c db' g p is) rest set)
          | inr apart ↦ elim mem [
            | Memᴰ.head here ↦ let e' : item ≡ item' = cc in absurd (ground arith)
            | Memᴰ.tail m ↦
                rw (disarm_point, h', apart)
                  (disarm_point-IsCleared g p i item is db r there later m h own)
          ]
        ]

    scanned : (db : Db c) (p : ℕ) → Lists db p (c.item.scan db.items (of_point c p))
    unfolding Lists
    scanned db p i mem =
        let (item, h, same) = laws.item_laws.scan_sound db.items (of_point c p) i mem in
        (item, h, ground (arith, same))

    Stored : Db c → List ℕ → Type 0
    Stored db ps = (j : ℕ) → Memᴰ j ps → (p : Tagged) × (c.point.get db.points j ≡ some p)

    Disarms-Stored :
        (g : ℕ) (ps : List ℕ) (db db' : Db c) → Disarms g db db' → Stored db ps → Stored db' ps
    unfolding Stored
    Disarms-Stored g ps db db' step stored j mem =
        let (p, there) = stored j mem in Disarms-stored g j db db' p step there

    disarm_points-Disarms :
        (g : ℕ) (ps : List ℕ) (db : Db c) → Stored db ps → Disarms g db (disarm_points c db g ps)
    unfolding disarm_points Stored
    disarm_points-Disarms g [] db stored = Disarms-refl g db
    disarm_points-Disarms g (p ∷ ps) db stored =
        let (r, there) = stored p (Memᴰ.head refl) in
        let is = c.item.scan db.items (of_point c p) in
        let step = disarm_point-Disarms g p is db r there (scanned db p) in
        let later : Stored db ps = λ j m. stored j (Memᴰ.tail m) in
        let db' = disarm_point c db g p is in
        Disarms-trans g db db' (disarm_points c db' g ps) step
          (disarm_points-Disarms g ps db' (Disarms-Stored g ps db db' step later))

    disarm_points-IsCleared :
        (g j : ℕ) (ps : List ℕ) (db : Db c)
        → Stored db ps
        → Memᴰ j ps
        → IsIn db g j
        → IsCleared (disarm_points c db g ps) j
    unfolding disarm_points Stored IsIn Disarms
    disarm_points-IsCleared g j [] db stored mem own = elim mem [ ]
    disarm_points-IsCleared g j (p ∷ ps) db stored mem own =
        let (r, there) = stored p (Memᴰ.head refl) in
        let is = c.item.scan db.items (of_point c p) in
        let step = disarm_point-Disarms g p is db r there (scanned db p) in
        let later : Stored db ps = λ i m. stored i (Memᴰ.tail m) in
        let db' = disarm_point c db g p is in
        let later' = Disarms-Stored g ps db db' step later in
        elim mem [
          | Memᴰ.head here ↦
              let (i, item, h, of_group, of_j) = own in
              let owned : of_point c p item ≡ true = ground arith in
              let mem' = laws.item_laws.scan_complete db.items (of_point c p) i item h owned in
              let set =
                disarm_point-IsCleared g p i item is db r there (scanned db p) mem' h of_group in
              rw here (
                Disarms-IsCleared g p db' (disarm_points c db' g ps)
                  (disarm_points-Disarms g ps db' later') set)
          | Memᴰ.tail m ↦
              let (items, groups, same) = step in
              disarm_points-IsCleared g j ps db' later' m (rw items own)
        ]

    disarmed :
        (g : ℕ) (db : Db c)
        → Stored db (c.point.scan db.points (modified c))
        → ¬ HasModified c (disarm_points c db g (c.point.scan db.points (modified c))) g
    unfolding Disarms HasModified IsCleared IsIn
    disarmed g db stored (i, item, p, h, of_group, there, set) =
        let ps = c.point.scan db.points (modified c) in
        let (items, groups, same) = disarm_points-Disarms g ps db stored in
        let h' : c.item.get db.items i ≡ some item = rw items at h in
        let own : IsIn db g item.tag_id = (i, item, h', of_group, refl) in
        elim (same item.tag_id) [
          | inl kept ↦
              let was : c.point.get db.points item.tag_id ≡ some p = sym kept ∙ there in
              let mem =
                laws.point_laws.scan_complete db.points (modified c) item.tag_id p was set in
              cc (disarm_points-IsCleared g item.tag_id ps db stored mem own p there, set)
          | inr (own', q, was, now) ↦ let e : p ≡ cleared q = cc in cc (rw e at set)
        ]

    -- querySbsPoints with rtQUERY_SBS_POINTS_DISARM, for a group that exists and where the
    -- transaction starts and commits, answers MCO_S_OK; then no modified point is in the group,
    -- every other point is as before, a point of the group is as before or has lost the flag and
    -- nothing else, and the groups and their items are as before.
    pub query_sbs_points_disarm_lem :
        (db : Db c) (n : Bytes) (g : ℕ)
        → db.starts ≡ true
        → db.commits ≡ true
        → c.group.find db.groups (called c n) ≡ some g
        → ((query_sbs_points_disarm c db n).0 ≡ true)
          × Disarms g db (query_sbs_points_disarm c db n).1
          × (¬ HasModified c (query_sbs_points_disarm c db n).1 g)
    unfolding query_sbs_points_disarm Stored Disarms IsIn
    query_sbs_points_disarm_lem db n g starts commits known =
        let ps = c.point.scan db.points (modified c) in
        let stored : Stored db ps = λ j m.
          let (p, h, set) = laws.point_laws.scan_sound db.points (modified c) j m in (p, h) in
        let step = disarm_points-Disarms g ps db stored in
        rw (starts, commits, known) (refl, step, disarmed g db stored)
