-- ===== src/Rtap/Groups/Selected.antt =====
-- querySbsDisarmSelectedPoints of xdb/impl/xdb_impl_db_rtap.cpp: the flag of modification is cleared
-- for the points of a list of tags, in the order in which the set gives them.
use rtdbus.Base.{
  ℕ, Bytes, bytes_eq, bytes_eq_iff, bytes_eq_self, ◌≡◌, refl, sym, ◌∙◌, ap, inl, inr, Bool, true,
  false, ◌||◌, ◌&&◌, Option, none, some, List, [], ◌∷◌, ◌==◌, arith, Bool-cases, Option-cases,
  if◌then◌else◌,
}
use rtdbus.Xdb.Table.{put_fields, put_fields_lem, put_fields-some}
use rtdbus.Rtap.Groups.{Tagged, Classes, AreClasses, Db, with_tag}

abbrev cleared : Tagged → Tagged
cleared p = record p { is_modified = false }

module _ (c : Classes) where
  -- The loop over the tags; `break` leaves it at the first tag that no point has.
  unfoldable pub disarm_tags : Db c → List Bytes → Db c
  unfolding put_fields
  disarm_tags db [] = db
  disarm_tags db (t ∷ ts) = elim (c.point.find db.points (with_tag c t)) [
    | none ↦ db
    | some i ↦
        elim (put_fields c.point db.points i ((λ p. record p { is_modified = false }) ∷ [])) [
          | none ↦ db
          | some s ↦ disarm_tags (record db { points = s }) ts
        ]
  ]

  disarm_tags_others :
      (ts : List Bytes) (db : Db c)
      → ((disarm_tags db ts).groups ≡ db.groups) × ((disarm_tags db ts).items ≡ db.items)
  unfolding disarm_tags
  disarm_tags_others [] db = (refl, refl)
  disarm_tags_others (t ∷ ts) db = elim (Option-cases (c.point.find db.points (with_tag c t))) [
    | inl nothing ↦ rw (disarm_tags, nothing) (refl, refl)
    | inr (i, hit) ↦
        elim (Option-cases
          (put_fields c.point db.points i ((λ p. record p { is_modified = false }) ∷ []))) [
            | inl bad ↦ rw (disarm_tags, hit, bad) (refl, refl)
            | inr (s, put) ↦
                rw (disarm_tags, hit, put) (disarm_tags_others ts (record db { points = s }))
          ]
  ]

  -- querySbsDisarmSelectedPoints: whether the answer is MCO_S_OK, which is that of the commit.
  unfoldable pub query_sbs_disarm_selected_points : Db c → List Bytes → Bool × Db c
  unfolding disarm_tags
  query_sbs_disarm_selected_points db ts =
      if db.starts && db.commits then (true, disarm_tags db ts) else (false, db)

  unfoldable pub is_in : Bytes → List Bytes → Bool
  is_in t [] = false
  is_in t (u ∷ us) = bytes_eq t u || is_in t us

  pub clear_if : List Bytes → Option Tagged → Option Tagged
  clear_if ts none = none
  clear_if ts (some p) = some (if is_in p.tag ts then cleared p else p)

  clear_if-nil : (o : Option Tagged) → o ≡ clear_if [] o
  unfolding clear_if is_in
  clear_if-nil none = refl
  clear_if-nil (some p) = refl

  -- No two points have one tag.
  unfoldable pub UniquePoints : c.point.Store → Type 0
  UniquePoints s =
      (i j : ℕ) (p q : Tagged)
      → c.point.get s i ≡ some p
      → c.point.get s j ≡ some q
      → p.tag ≡ q.tag
      → i ≡ j

  -- Each of the tags is that of a point.
  unfoldable pub AreKnown : c.point.Store → List Bytes → Type 0
  AreKnown s ts =
      (t : Bytes)
      → is_in t ts ≡ true
      → (i : ℕ) × (p : Tagged) × (c.point.get s i ≡ some p) × (p.tag ≡ t)

  module _ (laws : AreClasses c) where
    -- The write of one flag: what stands at a place afterwards.
    put_flag :
        (s : c.point.Store) (i : ℕ) (p : Tagged)
        → c.point.get s i ≡ some p
        → (s' : c.point.Store) × (put_fields c.point s i
              ((λ p. record p { is_modified = false }) ∷ [])
            ≡ some s')
          × ((j : ℕ) → c.point.get s' j ≡ (if i == j then some (cleared p) else c.point.get s j))
    put_flag s i p there =
        let fs = (λ q. record q { is_modified = false }) ∷ [] in
        let (s', put, row) = put_fields-some c.point laws.point_laws s i fs p there in
        (s', put, put_fields_lem c.point laws.point_laws s s' i fs p there put)

    -- A row after the flag of the row i was cleared: its tag is as before.
    row_before :
        (s s' : c.point.Store) (i j : ℕ) (p q : Tagged)
        → c.point.get s i ≡ some p
        → c.point.get s' j ≡ (if i == j then some (cleared p) else c.point.get s j)
        → c.point.get s' j ≡ some q
        → (r : Tagged) × (c.point.get s j ≡ some r) × (r.tag ≡ q.tag)
    row_before s s' i j p q there row at_j = elim (Bool-cases (i == j)) [
      | inl here ↦
          let place : i ≡ j = ground arith in
          let q_is : cleared p ≡ q = cc (rw here at row, at_j) in
          (p, rw place at there, ap (λ x. x.tag) q_is)
      | inr apart ↦ (q, sym (rw apart at row) ∙ at_j, refl)
    ]

    row_after :
        (s s' : c.point.Store) (i j : ℕ) (p q : Tagged)
        → c.point.get s i ≡ some p
        → c.point.get s' j ≡ (if i == j then some (cleared p) else c.point.get s j)
        → c.point.get s j ≡ some q
        → (r : Tagged) × (c.point.get s' j ≡ some r) × (r.tag ≡ q.tag)
    row_after s s' i j p q there row at_j = elim (Bool-cases (i == j)) [
      | inl here ↦
          let place : i ≡ j = ground arith in
          let q_is : p ≡ q = cc (rw place at there, at_j) in
          (cleared p, rw here at row, ap (λ x. x.tag) q_is)
      | inr apart ↦ (q, rw apart at row ∙ at_j, refl)
    ]

    -- One step: the row is cleared if its tag is the one, and the others are as before.
    clear_first :
        (s s' : c.point.Store) (i j : ℕ) (p : Tagged) (t : Bytes) (ts : List Bytes)
        → UniquePoints s
        → c.point.get s i ≡ some p
        → p.tag ≡ t
        → c.point.get s' j ≡ (if i == j then some (cleared p) else c.point.get s j)
        → clear_if ts (c.point.get s' j) ≡ clear_if (t ∷ ts) (c.point.get s j)
    unfolding UniquePoints clear_if is_in
    clear_first s s' i j p t ts unique there tag row = elim (Bool-cases (i == j)) [
      | inl here ↦
          let place : i ≡ j = ground arith in
          let at_j : c.point.get s j ≡ some p = rw place at there in
          let same : bytes_eq p.tag t ≡ true = (bytes_eq_iff p.tag t).1 tag in
          let now : c.point.get s' j ≡ some (cleared p) = rw here at row in
          elim (Bool-cases (is_in p.tag ts)) [
            | inl more ↦ rw (now, at_j, same, more) refl
            | inr last ↦ rw (now, at_j, same, last) refl
          ]
      | inr apart ↦ elim (Option-cases (c.point.get s j)) [
        | inl gone ↦
            let now : c.point.get s' j ≡ none = rw apart at row ∙ gone in rw (now, gone) refl
        | inr (q, at_j) ↦ elim (Bool-cases (bytes_eq q.tag t)) [
          | inl same ↦
              let tags : p.tag ≡ q.tag = tag ∙ sym ((bytes_eq_iff q.tag t).0 same) in
              let place : i ≡ j = unique i j p q there at_j tags in absurd (ground arith)
          | inr other ↦
              let now : c.point.get s' j ≡ some q = rw apart at row ∙ at_j in
              rw (now, at_j, other) refl
        ]
      ]
    ]

    disarm_tags_lem :
        (ts : List Bytes) (db : Db c)
        → UniquePoints db.points
        → AreKnown db.points ts
        → (j : ℕ) → c.point.get (disarm_tags db ts).points j ≡ clear_if ts (c.point.get db.points j)
    unfolding disarm_tags AreKnown UniquePoints clear_if is_in
    disarm_tags_lem [] db unique known j = clear_if-nil (c.point.get db.points j)
    disarm_tags_lem (t ∷ ts) db unique known j =
        elim (Option-cases (c.point.find db.points (with_tag c t))) [
          | inl nothing ↦
              let first : is_in t (t ∷ ts) ≡ true = rw (bytes_eq_self t) refl in
              let (i, p, there, tag) = known t first in
              let differs = laws.point_laws.find_none db.points (with_tag c t) i p nothing there in
              absurd (cc (differs, (bytes_eq_iff p.tag t).1 tag))
          | inr (i, hit) ↦
              let (p, there, same) = laws.point_laws.find_some db.points (with_tag c t) i hit in
              let tag : p.tag ≡ t = (bytes_eq_iff p.tag t).0 same in
              let (s', put, rows) = put_flag db.points i p there in
              let db' : Db c = record db { points = s' } in
              let unique' : UniquePoints s' = λ k l x y at_k at_l tags.
                let (x', was_k, tag_k) = row_before db.points s' i k p x there (rows k) at_k in
                let (y', was_l, tag_l) = row_before db.points s' i l p y there (rows l) at_l in
                unique k l x' y' was_k was_l (tag_k ∙ tags ∙ sym tag_l) in
              let known' : AreKnown s' ts = λ u more.
                let more' : is_in u (t ∷ ts) ≡ true = ground (arith, more) in
                let (k, x, at_k, tag_u) = known u more' in
                let (y, now, tag_y) = row_after db.points s' i k p x there (rows k) at_k in
                (k, y, now, tag_y ∙ tag_u) in
              let rest = disarm_tags_lem ts db' unique' known' j in
              let first = clear_first db.points s' i j p t ts unique there tag (rows j) in
              rw (disarm_tags, hit, put) (rest ∙ first)
        ]

    -- querySbsDisarmSelectedPoints, where the transaction starts and is committed, no two points
    -- have one tag and each of the tags is that of a point, answers MCO_S_OK, and clears the flag
    -- of the points with these tags; every other point is as before, and so are the groups and
    -- their items.
    pub query_sbs_disarm_selected_points_lem :
        (db : Db c) (ts : List Bytes)
        → db.starts ≡ true
        → db.commits ≡ true
        → UniquePoints db.points
        → AreKnown db.points ts
        → (db' : Db c) × (query_sbs_disarm_selected_points db ts ≡ (true, db'))
          × ((j : ℕ) → c.point.get db'.points j ≡ clear_if ts (c.point.get db.points j))
          × (db'.groups ≡ db.groups)
          × (db'.items ≡ db.items)
    unfolding query_sbs_disarm_selected_points
    query_sbs_disarm_selected_points_lem db ts starts commits unique known =
        let (groups, items) = disarm_tags_others ts db in
        (
          disarm_tags db ts,
          rw (starts, commits) refl,
          disarm_tags_lem ts db unique known,
          groups,
          items,
        )
