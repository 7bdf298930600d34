-- ===== src/Rtap/Access/Refines.antt =====
-- DatabaseRtapImpl::read and write of xdb/impl/xdb_impl_db_rtap.cpp do what the view of Spec says.
use rtdbus.Base.{
  ℕ, ◌≡◌, refl, sym, ◌∙◌, ap, inl, inr, ◌⊎◌, Bytes, bytes_eq, bytes_eq_iff, false, Option, none,
  some, ◌>>=◌, arith, Bool-cases, Option-cases, ◌==◌, ◌≢◌, bind_some,
}
use rtdbus.Attribute.{Quality, AttributeInfo}
use rtdbus.Xdb.Table.{Table, IsTable}
use rtdbus.Rtap.Attributes.{Entry}
use rtdbus.Rtap.Access.{Maps, Db, split_tag, has_tag, found, read_from, read}
use rtdbus.Rtap.Access.Laws.{UniqueTags, found_by_tag, put-UniqueTags}
use rtdbus.Rtap.Access.Spec.{View, read_entry, read_point, view_read, entry_of, Represents}

Option-ext :
    {A : Type 0} (o p : Option A)
    → ((a : A) → o ≡ some a → p ≡ some a)
    → ((a : A) → p ≡ some a → o ≡ some a)
    → o ≡ p
Option-ext none none f g = refl
Option-ext none (some b) f g = g b refl
Option-ext (some a) p f g = sym (f a refl)

module _ (maps : Maps) (points : Table Entry) where
  pub entry_cases :
      (db : Db points maps) (t : Bytes)
      → ((found points maps db t ≡ none) × (entry_of maps points db t ≡ none))
        ⊎ ((i : ℕ) × (e : Entry) × (found points maps db t ≡ some (i, e))
            × (entry_of maps points db t ≡ some e))
  unfolding entry_of
  entry_cases db t = elim (Option-cases (found points maps db t)) [
    | inl nothing ↦ inl (nothing, rw nothing refl)
    | inr ((i, e), hit) ↦ inr (i, e, hit, rw hit refl)
  ]

  read_from-none :
      (db : Db points maps) (s : View) (t n : Bytes) (a : AttributeInfo)
      → db.starts ≡ s.starts
      → found points maps db t ≡ none
      → s.point t ≡ none
      → read_from points maps db (t, n) a ≡ read_point maps s (t, n) a
  unfolding read_point
  read_from-none db s t n a starts nothing gone = ground arith

  read_from-some :
      (db : Db points maps) (s : View) (t n : Bytes) (a : AttributeInfo) (i : ℕ) (e : Entry)
      → db.starts ≡ s.starts
      → db.commits ≡ s.commits
      → found points maps db t ≡ some (i, e)
      → s.point t ≡ some e
      → read_from points maps db (t, n) a ≡ read_point maps s (t, n) a
  unfolding read_point read_entry
  read_from-some db s t n a i e starts commits hit there = ground arith

  pub read-refines :
      (db : Db points maps) (s : View) (a : AttributeInfo)
      → Represents maps points db s
      → read points maps db a ≡ view_read maps s a
  unfolding read view_read Represents
  read-refines db s a (unique, starts, commits, same) = elim (Option-cases (split_tag a.name)) [
    | inl bad ↦ rw (read, view_read, bad) refl
    | inr ((t, n), names) ↦
        let b : AttributeInfo = record a { quality = Quality.not_found } in
        rw (read, view_read, names)
          (elim (entry_cases db t) [
            | inl (nothing, gone) ↦ read_from-none db s t n b starts nothing (sym (same t) ∙ gone)
            | inr (i, e, hit, there) ↦
                read_from-some db s t n b i e starts commits hit (sym (same t) ∙ there)
          ])
  ]

  module _ {blank : Entry} (laws : IsTable blank points) where
    pub entry_of-stored :
        (db : Db points maps) (i : ℕ) (e : Entry) (t : Bytes)
        → UniqueTags points maps db.store
        → points.get db.store i ≡ some e
        → e.tag ≡ t
        → entry_of maps points db t ≡ some e
    unfolding entry_of
    entry_of-stored db i e t unique there tag =
        rw (found_by_tag points maps laws db i e t unique there tag) refl

    -- A point that is found is stored there, under its tag.
    pub found_stored :
        (db : Db points maps) (t : Bytes) (i : ℕ) (e : Entry)
        → found points maps db t ≡ some (i, e)
        → (points.get db.store i ≡ some e) × (e.tag ≡ t)
    found_stored db t i e hit =
        let (k, place, rest) =
          bind_some (points.find db.store (has_tag t))
            (λ k. points.get db.store k >>= λ x. some (k, x)) (i, e) hit in
        let (x, there, pair) = bind_some (points.get db.store k) (λ x. some (k, x)) (i, e) rest in
        let (y, there', tagged) = laws.find_some db.store (has_tag t) k place in
        let k_is : k ≡ i = cc pair in
        let x_is : x ≡ e = cc pair in
        let y_is : y ≡ e = cc (there, there', x_is) in
        let here : points.get db.store k ≡ some e = rw x_is at there in
        (rw k_is at here, rw y_is at ((bytes_eq_iff y.tag t).0 tagged))

    -- The place of a point that a tag has.
    stored_entry :
        (db : Db points maps) (t : Bytes) (e : Entry)
        → entry_of maps points db t ≡ some e
        → (i : ℕ) × (points.get db.store i ≡ some e) × (e.tag ≡ t)
    unfolding entry_of
    stored_entry db t e has =
        let ((i, x), hit, same) = bind_some (found points maps db t) (λ r. some r.1) e has in
        let x_is : x ≡ e = cc same in
        let (there, tag) = found_stored db t i x hit in (i, rw x_is at there, rw x_is at tag)

    -- A point that is written under its own tag: a tag that is another has what it had.
    pub entry_of-put :
        (db : Db points maps) (s' : points.Store) (i : ℕ) (e e' : Entry) (u : Bytes)
        → UniqueTags points maps db.store
        → points.get db.store i ≡ some e
        → e'.tag ≡ e.tag
        → points.put db.store i e' ≡ some s'
        → bytes_eq u e.tag ≡ false
        → entry_of maps points (record db { store = s' }) u ≡ entry_of maps points db u
    entry_of-put db s' i e e' u unique there tag put other =
        let db' : Db points maps = record db { store = s' } in
        let unique' = put-UniqueTags points maps laws db.store s' i e e' unique there tag put in
        let apart : (x : Entry) → x.tag ≡ e.tag → x.tag ≢ u =
          λ x is_e is_u. absurd (cc (other, (bytes_eq_iff u e.tag).1 (sym is_u ∙ is_e))) in
        Option-ext (entry_of maps points db' u) (entry_of maps points db u)
          (λ x has.
            let (j, at_j, tag_j) = stored_entry db' u x has in
            let row = laws.put_get db.store s' i e' j put in
            elim (Bool-cases (i == j)) [
              | inl here ↦
                  let x_is : x ≡ e' = cc (rw here at row, at_j) in
                  absurd (apart x (ap (λ y. y.tag) x_is ∙ tag) tag_j)
              | inr away ↦ entry_of-stored db j x u unique (sym (rw away at row) ∙ at_j) tag_j
            ])
          (λ x has.
            let (j, at_j, tag_j) = stored_entry db u x has in
            let row = laws.put_get db.store s' i e' j put in
            elim (Bool-cases (i == j)) [
              | inl here ↦
                  let place : i ≡ j = ground arith in
                  let x_is : x ≡ e = cc (rw place at there, at_j) in
                  absurd (apart x (ap (λ y. y.tag) x_is) tag_j)
              | inr away ↦ entry_of-stored db' j x u unique' (rw away at row ∙ at_j) tag_j
            ])
