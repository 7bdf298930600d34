-- ===== src/Rtap/Groups/Creation.antt =====
-- createGroup of xdb/impl/xdb_impl_db_rtap.cpp.
use rtdbus.Base.{
  ℕ, Bytes, ◌≡◌, refl, sym, ◌∙◌, ◌≢◌, ◌&&◌, inl, inr, Bool, true, false, none, some, List, [], ◌∷◌,
  ◌==◌, ◌⊎◌, arith, Bool-cases, Option-cases, ==-self,
}
use rtdbus.Xdb.Table.{written, put_fields, put_fields_lem, put_fields-some}
use rtdbus.Rtap.Groups.{
  Group, Item, Classes, AreClasses, Db, done, create_item, create_items, create_group, go_on,
  called, with_tag, new_group, new_item,
}
use rtdbus.Rtap.Groups.Armed.{AreLinked}

module _ (c : Classes) (laws : AreClasses c) where
  -- An item that is stored is an old one, or belongs to the group.
  Adds : ℕ → c.item.Store → c.item.Store → Type 0
  Adds g s s' =
      (i : ℕ) (item : Item)
      → c.item.get s' i ≡ some item
      → (c.item.get s i ≡ some item) ⊎ (item.group_id ≡ g)

  set_group :
      (s₀ s : c.item.Store) (i g : ℕ)
      → c.item.create s₀ ≡ some (i, s)
      → (s' : c.item.Store) × (put_fields c.item s i ((λ r. record r { group_id = g }) ∷ [])
          ≡ some s')
        × (c.item.get s' i ≡ some (record { group_id = g; tag_id = 0 }))
        × Adds g s₀ s'
  unfolding Adds
  set_group s₀ s i g made =
      let fs = (λ r. record r { group_id = g }) ∷ [] in
      let blank : Item = record { group_id = 0; tag_id = 0 } in
      let here = rw (==-self i) at (laws.item_laws.create_get s₀ s i i made) in
      let (s', put, own) = put_fields-some c.item laws.item_laws s i fs blank here in
      (
        s',
        put,
        own,
        λ j item h.
            let before = laws.item_laws.create_get s₀ s i j made in
            let after = put_fields_lem c.item laws.item_laws s s' i fs blank here put j in
            elim (Bool-cases (i == j)) [
              | inl same ↦
                  let e : some (record { group_id = g; tag_id = 0 }) ≡ some item =
                    sym (rw same at after) ∙ h in
                  inr (cc e)
              | inr apart ↦ inl (sym (rw apart at before) ∙ sym (rw apart at after) ∙ h)
            ],
      )

  set_tag :
      (s s' : c.item.Store) (i g p : ℕ) (r : Item)
      → c.item.get s i ≡ some r
      → r.group_id ≡ g
      → put_fields c.item s i ((λ q. record q { tag_id = p }) ∷ []) ≡ some s'
      → Adds g s s'
  unfolding Adds
  set_tag s s' i g p r there own put j item h =
      let fs = (λ q. record q { tag_id = p }) ∷ [] in
      let after = put_fields_lem c.item laws.item_laws s s' i fs r there put j in
      elim (Bool-cases (i == j)) [
        | inl same ↦
            let e : some (record r { tag_id = p }) ≡ some item = sym (rw same at after) ∙ h in
            inr (cc (e, own))
        | inr apart ↦ inl (sym (rw apart at after) ∙ h)
      ]

  Adds-trans : (g : ℕ) (s s' s'' : c.item.Store) → Adds g s s' → Adds g s' s'' → Adds g s s''
  unfolding Adds
  Adds-trans g s s' s'' first second i item h = elim (second i item h) [
    | inl was ↦ first i item was
    | inr own ↦ inr own
  ]

  Adds-refl : (g : ℕ) (s : c.item.Store) → Adds g s s
  unfolding Adds
  Adds-refl g s i item h = inl h

  -- The items only grow by items of the group, and the groups stay.
  Extends : ℕ → Db c → Db c → Type 0
  Extends g db db' = (db'.groups ≡ db.groups) × Adds g db.items db'.items

  create_item-Extends : (db : Db c) (g : ℕ) (tag : Bytes) → Extends g db (create_item c db g tag).1
  unfolding create_item Extends
  create_item-Extends db g tag = elim (Option-cases (c.item.create db.items)) [
    | inl full ↦ rw (create_item, full) (refl, Adds-refl g db.items)
    | inr ((i, s), made) ↦
        let (s', put, own, adds) = set_group db.items s i g made in
        elim (Option-cases (c.point.find db.points (with_tag c tag))) [
          | inl unknown ↦ rw (create_item, made, put, unknown) (refl, adds)
          | inr (p, found) ↦
              elim (Option-cases (put_fields c.item s' i ((λ r. record r { tag_id = p }) ∷ []))) [
                | inl stopped ↦ rw (create_item, made, put, found, stopped) (refl, adds)
                | inr (s'', put') ↦
                    rw (create_item, made, put, found, put')
                      (
                        refl,
                        Adds-trans g db.items s' s'' adds (
                            set_tag s' s'' i g p (record { group_id = g; tag_id = 0 }) own refl
                              put'),
                      )
              ]
        ]
  ]

  go_on-Extends :
      (g : ℕ) (db : Db c) (x : Bool × Db c) (f : Db c → Db c)
      → Extends g db x.1
      → Extends g x.1 (f x.1)
      → Extends g db (go_on c x f)
  unfolding Extends
  go_on-Extends g db (false, db') f first second = first
  go_on-Extends g db (true, db') f (groups, adds) (groups', adds') =
      (groups' ∙ groups, Adds-trans g db.items db'.items (f db').items adds adds')

  create_items-Extends :
      (db : Db c) (g : ℕ) (tags : List Bytes) → Extends g db (create_items c db g tags)
  unfolding create_items Extends
  create_items-Extends db g [] = (refl, Adds-refl g db.items)
  create_items-Extends db g (tag ∷ tags) =
      go_on-Extends g db (create_item c db g tag) (λ db'. create_items c db' g tags)
        (create_item-Extends db g tag) (create_items-Extends (create_item c db g tag).1 g tags)

  Extends-AreLinked :
      (db db' : Db c) (g : ℕ) (r : Group)
      → Extends g db db'
      → c.group.get db.groups g ≡ some r
      → AreLinked c db
      → AreLinked c db'
  unfolding Extends Adds AreLinked
  Extends-AreLinked db db' g r (groups, adds) there linked i item h = elim (adds i item h) [
    | inl was ↦ let (q, stored) = linked i item was in (q, rw groups stored)
    | inr own ↦ (r, rw (groups, own) there)
  ]

  -- A group is added: the groups of the items are still there.
  add_group-AreLinked :
      (db : Db c) (s s' : c.group.Store) (g : ℕ) (fs : List (Group → Group))
      → c.group.create db.groups ≡ some (g, s)
      → put_fields c.group s g fs ≡ some s'
      → AreLinked c db
      → AreLinked c (record db { groups = s' }) × ((r : Group) × (c.group.get s' g ≡ some r))
  unfolding AreLinked
  add_group-AreLinked db s s' g fs made put linked =
      let here = rw (==-self g) at (laws.group_laws.create_get db.groups s g g made) in
      let row = put_fields_lem c.group laws.group_laws s s' g fs new_group here put in
      let own = rw (==-self g) at (row g) in
      (
        λ i item h.
            let (q, stored) = linked i item h in
            let before = laws.group_laws.create_get db.groups s g item.group_id made in
            let after = row item.group_id in
            elim (Bool-cases (g == item.group_id)) [
              | inl same ↦ (written fs new_group, rw same at after)
              | inr apart ↦ (q, rw apart at after ∙ rw apart at before ∙ stored)
            ],
        (written fs new_group, own),
      )

  group_writes : Bytes → List (Group → Group)
  group_writes n = (λ r. record r { name = n }) ∷ (λ r. record r { enabled = true }) ∷ []

  -- Either nothing changes, or the group is there and the items are added.
  create_group_cases :
      (db : Db c) (n : Bytes) (tags : List Bytes)
      → ((create_group c db n tags).1 ≡ db)
        ⊎ ((g : ℕ) × (s : c.group.Store) × (s' : c.group.Store) × (c.group.create db.groups
              ≡ some (g, s))
            × (put_fields c.group s g (group_writes n) ≡ some s')
            × ((create_group c db n tags).1 ≡ create_items c (record db { groups = s' }) g tags))
  unfolding create_group group_writes
  create_group_cases db n tags = elim (Bool-cases (db.starts && db.commits)) [
    | inr idle ↦ inl (ground arith)
    | inl both ↦ elim (Option-cases (c.group.find db.groups (called c n))) [
      | inr (g, known) ↦ inl (ground arith)
      | inl new ↦ elim (Option-cases (c.group.create db.groups)) [
        | inl full ↦ inl (ground arith)
        | inr ((g, s), made) ↦ elim (Option-cases (put_fields c.group s g (group_writes n))) [
          | inl stopped ↦ inl (ground arith)
          | inr (s', put) ↦ inr (g, s, s', made, put, ground arith)
        ]
      ]
    ]
  ]

  -- createGroup keeps it true that each item belongs to a stored group, whatever it answers.
  pub create_group-AreLinked :
      (db : Db c) (n : Bytes) (tags : List Bytes)
      → AreLinked c db
      → AreLinked c (create_group c db n tags).1
  create_group-AreLinked db n tags linked = elim (create_group_cases db n tags) [
    | inl same ↦ rw same linked
    | inr (g, s, s', made, put, same) ↦
        let db' : Db c = record db { groups = s' } in
        let (linked', (r, there)) =
          add_group-AreLinked db s s' g (group_writes n) made put linked in
        rw same (
          Extends-AreLinked db' (create_items c db' g tags) g r (create_items-Extends db' g tags)
            there linked')
  ]

  -- Where createGroup is given a new name and the database has room, it answers MCO_S_OK with the
  -- error cleared also for tags of which the first is no point: then the group has an item whose
  -- tag_id is 0, and no other new one.
  pub create_group_unknown :
      (db : Db c) (n tag : Bytes) (tags : List Bytes) (g i : ℕ) (s : c.group.Store)
      (s' : c.item.Store)
      → db.starts ≡ true
      → db.commits ≡ true
      → c.group.find db.groups (called c n) ≡ none
      → c.group.create db.groups ≡ some (g, s)
      → c.item.create db.items ≡ some (i, s')
      → c.point.find db.points (with_tag c tag) ≡ none
      → ((create_group c db n (tag ∷ tags)).0 ≡ done)
        × (c.item.get (create_group c db n (tag ∷ tags)).1.items i
            ≡ some (record { group_id = g; tag_id = 0 }))
        × ((j : ℕ)
            → i ≢ j
            → c.item.get (create_group c db n (tag ∷ tags)).1.items j ≡ c.item.get db.items j)
  unfolding create_group create_items create_item
  create_group_unknown db n tag tags g i s s' starts commits new made_group made unknown =
      let (s₁, put, own) =
        put_fields-some c.group laws.group_laws s g
          ((λ r. record r { name = n }) ∷ (λ r. record r { enabled = true }) ∷ []) new_group
          (rw (==-self g) at (laws.group_laws.create_get db.groups s g g made_group)) in
      let (s₂, put', own', adds) = set_group db.items s' i g made in
      let grown : (create_group c db n (tag ∷ tags)).1.items ≡ s₂ = ground arith in
      let here = rw (==-self i) at (laws.item_laws.create_get db.items s' i i made) in
      let others : (j : ℕ) → i ≢ j → c.item.get s₂ j ≡ c.item.get db.items j = λ j apart.
        let before = laws.item_laws.create_get db.items s' i j made in
        let after =
          put_fields_lem c.item laws.item_laws s' s₂ i ((λ r. record r { group_id = g }) ∷ [])
            new_item here put' j in
        ground (arith, before, after) in
      (ground arith, rw grown own', λ j apart. rw grown (others j apart))
