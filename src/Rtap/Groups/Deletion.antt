-- ===== src/Rtap/Groups/Deletion.antt =====
-- deleteGroup of xdb/impl/xdb_impl_db_rtap.cpp.
use mathlib.Core.List.{Memᴰ}
use rtdbus.Base.{
  ℕ, Bytes, ◌≡◌, ◌↔◌, ◌≢◌, refl, sym, ◌∙◌, inl, inr, true, false, none, some, List, [], ◌∷◌, ◌==◌,
  if◌then◌else◌, arith, Bool-cases, ==-self,
}
use rtdbus.Xdb.Table.{IsRemovable, AreDistinct}
use rtdbus.Rtap.Groups.{
  Item, Classes, AreClasses, Db, done, delete_items, delete_group, in_group, called,
}

module _ (c : Classes) (laws : AreClasses c) (removable : IsRemovable c.item) where
  Stored : Db c → List ℕ → Type 0
  Stored db is = (i : ℕ) → Memᴰ i is → (item : Item) × (c.item.get db.items i ≡ some item)

  -- The items of the list are gone, and nothing else changes.
  Deletes : Db c → List ℕ → Db c → Type 0
  Deletes db is db' =
      (db'.points ≡ db.points)
      × ((j : ℕ) → Memᴰ j is → c.item.get db'.items j ≡ none)
      × ((j : ℕ) → (¬ Memᴰ j is) → c.item.get db'.items j ≡ c.item.get db.items j)

  delete_items-Deletes :
      (is : List ℕ) (db : Db c)
      → AreDistinct is
      → Stored db is
      → Deletes db is (delete_items c db is)
  unfolding delete_items Deletes Stored AreDistinct
  delete_items-Deletes [] db once stored = (refl, λ j mem. elim mem [ ], λ j apart. refl)
  delete_items-Deletes (i ∷ is) db (new, once) stored =
      let (item, there) = stored i (Memᴰ.head refl) in
      let (s, gone) = removable.remove_some db.items i item there in
      let db' : Db c = record db { items = s } in
      let row = laws.item_laws.remove_get db.items s i in
      let later : Stored db' is = λ j mem.
        let (item', there') = stored j (Memᴰ.tail mem) in
        elim (Bool-cases (i == j)) [
          | inl same ↦ let e : i ≡ j = ground arith in absurd (new (rw e mem))
          | inr apart ↦ (item', (rw apart at (row j gone)) ∙ there')
        ] in
      let (points, out, kept) = delete_items-Deletes is db' once later in
      rw (delete_items, there, gone)
        (
          points,
          λ j mem. elim mem [
            | Memᴰ.head e ↦ rw e (kept i new ∙ (rw (==-self i) at (row i gone)))
            | Memᴰ.tail m ↦ out j m
          ],
          λ j apart.
              let other : (i == j) ≡ false = elim (Bool-cases (i == j)) [
                | inl same ↦ let e : j ≡ i = ground arith in absurd (apart (Memᴰ.head e))
                | inr apart' ↦ apart'
              ] in
              kept j (λ m. apart (Memᴰ.tail m)) ∙ rw other at (row j gone),
        )

  -- Where the items of a group are gone, those that are left belong to other groups.
  others :
      (db : Db c) (g : ℕ) (db' : Db c) (i : ℕ) (item : Item)
      → ((j : ℕ) → Memᴰ j (c.item.scan db.items (in_group c g)) → c.item.get db'.items j ≡ none)
      → ((j : ℕ)
          → (¬ Memᴰ j (c.item.scan db.items (in_group c g)))
          → c.item.get db'.items j ≡ c.item.get db.items j)
      → (c.item.get db'.items i ≡ some item)
        ↔ ((c.item.get db.items i ≡ some item) × (item.group_id ≢ g))
  others db g db' i item out kept =
      let into : c.item.get db'.items i ≡ some item
          → (c.item.get db.items i ≡ some item) × (item.group_id ≢ g) =
        λ left.
          let met : ¬ Memᴰ i (c.item.scan db.items (in_group c g)) =
            λ mem. let gone = out i mem in absurd (cc (gone, left)) in
          let was = sym (kept i met) ∙ left in
          (
            was,
            λ own.
                let owned : in_group c g item ≡ true = ground arith in
                met (laws.item_laws.scan_complete db.items (in_group c g) i item was owned),
          ) in
      let back : (c.item.get db.items i ≡ some item) × (item.group_id ≢ g)
          → c.item.get db'.items i ≡ some item =
        λ (was, apart).
          let met : ¬ Memᴰ i (c.item.scan db.items (in_group c g)) = λ mem.
            let (item', h, same) = laws.item_laws.scan_sound db.items (in_group c g) i mem in
            let e : item ≡ item' = cc in
            let own : item'.group_id ≡ g = ground (arith, same) in apart (rw e own) in
          kept i met ∙ was in
      (into, back)

  -- deleteGroup of a group that exists, where transactions start and are committed and the removal
  -- of the group succeeds, answers MCO_S_OK; then the group is not stored, every other group is as
  -- before, the items that are stored are the former ones of other groups, and no point is
  -- changed.
  pub delete_group_lem :
      (db : Db c) (n : Bytes) (g : ℕ) (s : c.group.Store)
      → db.starts ≡ true
      → db.commits ≡ true
      → c.group.find db.groups (called c n) ≡ some g
      → c.group.remove db.groups g ≡ some s
      → ((delete_group c db n).0 ≡ done)
        × ((k : ℕ)
            → c.group.get (delete_group c db n).1.groups k
              ≡ (if g == k then none else c.group.get db.groups k))
        × ((i : ℕ) (item : Item)
            → (c.item.get (delete_group c db n).1.items i ≡ some item)
              ↔ ((c.item.get db.items i ≡ some item) × (item.group_id ≢ g)))
        × ((delete_group c db n).1.points ≡ db.points)
  unfolding delete_group Deletes Stored
  delete_group_lem db n g s starts commits known gone =
      let is = c.item.scan db.items (in_group c g) in
      let stored : Stored db is = λ i mem.
        let (item, h, same) = laws.item_laws.scan_sound db.items (in_group c g) i mem in
        (item, h) in
      let (points, out, kept) =
        delete_items-Deletes is db (removable.scan_once db.items (in_group c g)) stored in
      let after : Db c = delete_items c db is in
      let items : (delete_group c db n).1.items ≡ after.items = ground arith in
      let groups : (delete_group c db n).1.groups ≡ s = ground arith in
      let same_points : (delete_group c db n).1.points ≡ after.points = ground arith in
      (
        ground arith,
        λ k. rw groups (laws.group_laws.remove_get db.groups s g k gone),
        λ i item. rw items (others db g after i item out kept),
        same_points ∙ points,
      )
