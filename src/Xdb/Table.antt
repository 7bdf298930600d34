-- ===== src/Xdb/Table.antt =====
-- What the code uses of one class of an eXtremeDB database (the library is not part of the
-- repository): objects by autoid, lookup in a unique index, the scan of an index with a cursor,
-- creation, the writing of a field, and removal. A call that returns an error code is `none`.
use mathlib.Core.List.{Memᴰ}
use rtdbus.Base.{
  ℕ, ◌<◌, ◌≡◌, refl, inl, inr, Bool, true, false, Option, none, some, List, [], ◌∷◌, ◌==◌,
  if◌then◌else◌, ◌>>=◌, arith, Option-cases, Bool-cases, ==_iff, ==-self, bind_some, ◌++◌,
}

pub record Table (R : Type 0) : Type 1 where
  pub Store : Type 0
  pub get : Store → ℕ → Option R
  -- C::index::find over a unique index, by what it asks of the row
  pub find : Store → (R → Bool) → Option ℕ
  -- the rows that a cursor meets from C::index::search, or C::list_cursor, on
  pub scan : Store → (R → Bool) → List ℕ
  pub create : Store → Option (ℕ × Store)
  pub put : Store → ℕ → R → Option Store
  pub remove : Store → ℕ → Option Store

-- The documented behaviour of these calls; `blank` holds the fields of a new object.
pub record IsTable {R : Type 0} (blank : R) (t : Table R) : Type 0 where
  pub find_some :
      (s : t.Store) (p : R → Bool) (i : ℕ)
      → t.find s p ≡ some i
      → (r : R) × (t.get s i ≡ some r) × (p r ≡ true)
  pub find_none :
      (s : t.Store) (p : R → Bool) (i : ℕ) (r : R)
      → t.find s p ≡ none
      → t.get s i ≡ some r
      → p r ≡ false
  pub scan_sound :
      (s : t.Store) (p : R → Bool) (i : ℕ)
      → Memᴰ i (t.scan s p)
      → (r : R) × (t.get s i ≡ some r) × (p r ≡ true)
  pub scan_complete :
      (s : t.Store) (p : R → Bool) (i : ℕ) (r : R)
      → t.get s i ≡ some r
      → p r ≡ true
      → Memᴰ i (t.scan s p)
  pub create_fresh : (s s' : t.Store) (i : ℕ) → t.create s ≡ some (i, s') → t.get s i ≡ none
  pub create_pos : (s s' : t.Store) (i : ℕ) → t.create s ≡ some (i, s') → 0 < i
  pub create_get :
      (s s' : t.Store) (i j : ℕ)
      → t.create s ≡ some (i, s')
      → t.get s' j ≡ (if i == j then some blank else t.get s j)
  pub put_get :
      (s s' : t.Store) (i : ℕ) (r : R) (j : ℕ)
      → t.put s i r ≡ some s'
      → t.get s' j ≡ (if i == j then some r else t.get s j)
  pub put_some :
      (s : t.Store) (i : ℕ) (r r' : R)
      → t.get s i ≡ some r
      → (s' : t.Store) × (t.put s i r' ≡ some s')
  pub remove_get :
      (s s' : t.Store) (i j : ℕ)
      → t.remove s i ≡ some s'
      → t.get s' j ≡ (if i == j then none else t.get s j)

-- No number stands twice in the list.
unfoldable pub AreDistinct : List ℕ → Type 0
AreDistinct [] = Unit {0}
AreDistinct (i ∷ is) = (¬ Memᴰ i is) × AreDistinct is

-- The documented behaviour of a class whose objects are removed: a stored object can be removed, and
-- a cursor meets a row once.
pub record IsRemovable {R : Type 0} (t : Table R) : Type 0 where
  pub remove_some :
      (s : t.Store) (i : ℕ) (r : R) → t.get s i ≡ some r → (s' : t.Store) × (t.remove s i ≡ some s')
  pub scan_once : (s : t.Store) (p : R → Bool) → AreDistinct (t.scan s p)

abbrev pub written : {R : Type 0} → List (R → R) → R → R
written [] r = r
written (f ∷ fs) r = written fs (f r)

module _ {R : Type 0} (t : Table R) where
  -- One field after the other is written into the object, until a write fails.
  unfoldable pub put_fields : t.Store → ℕ → List (R → R) → Option t.Store
  put_fields s i [] = some s
  put_fields s i (f ∷ fs) = do r ← t.get s i; s' ← t.put s i (f r); put_fields s' i fs

module _ {R : Type 0} (t : Table R) {blank : R} (laws : IsTable blank t) where
  -- After the writes the object holds them all, and every other object is as before.
  pub put_fields_lem :
      (s s' : t.Store) (i : ℕ) (fs : List (R → R)) (r : R)
      → t.get s i ≡ some r
      → put_fields t s i fs ≡ some s'
      → (j : ℕ) → t.get s' j ≡ (if i == j then some (written fs r) else t.get s j)
  unfolding put_fields
  put_fields_lem s s' i [] r h e j = ground arith
  put_fields_lem s s' i (f ∷ fs) r h e j = elim (Option-cases (t.put s i (f r))) [
    | inl bad ↦ cc (rw (h, bad) at e)
    | inr (s₁, p) ↦
        let here = laws.put_get s s₁ i (f r) i p in
        let there = laws.put_get s s₁ i (f r) j p in
        let rest = put_fields_lem s₁ s' i fs (f r) (rw (==-self i) at here) (rw (h, p) at e) j in
        ground (arith, rest, there)
  ]

  -- The same for an object that is created, then written by one list of writes and another.
  pub create-put_fields :
      (s₀ s s' s'' : t.Store) (i : ℕ) (fs gs : List (R → R))
      → t.create s₀ ≡ some (i, s)
      → put_fields t s i fs ≡ some s'
      → put_fields t s' i gs ≡ some s''
      → (j : ℕ)
      → t.get s'' j ≡ (if i == j then some (written gs (written fs blank)) else t.get s₀ j)
  create-put_fields s₀ s s' s'' i fs gs made p q j =
      let here : t.get s i ≡ some blank = rw (==-self i) at (laws.create_get s₀ s i i made) in
      let there = laws.create_get s₀ s i j made in
      let own : t.get s' i ≡ some (written fs blank) =
        rw (==-self i) at (put_fields_lem s s' i fs blank here p i) in
      let second = put_fields_lem s s' i fs blank here p j in
      let third = put_fields_lem s' s'' i gs (written fs blank) own q j in
      ground (arith, there, second, third)

  -- The writing of fields into a stored object succeeds.
  pub put_fields-some :
      (s : t.Store) (i : ℕ) (fs : List (R → R)) (r : R)
      → t.get s i ≡ some r
      → (s' : t.Store) × (put_fields t s i fs ≡ some s') × (t.get s' i ≡ some (written fs r))
  unfolding put_fields
  put_fields-some s i [] r h = (s, refl, h)
  put_fields-some s i (f ∷ fs) r h =
      let (s₁, p) = laws.put_some s i r (f r) h in
      let here : t.get s₁ i ≡ some (f r) = rw (==-self i) at (laws.put_get s s₁ i (f r) i p) in
      let (s₂, q, there) = put_fields-some s₁ i fs (f r) here in
      (s₂, rw (put_fields, h, p) q, there)

  -- The writing of fields makes no object.
  pub put_fields-none :
      (s s' : t.Store) (i j : ℕ) (fs : List (R → R))
      → put_fields t s i fs ≡ some s'
      → t.get s j ≡ none
      → t.get s' j ≡ none
  unfolding put_fields
  put_fields-none s s' i j [] p gone = let e : s' ≡ s = cc in rw e gone
  put_fields-none s s' i j (f ∷ fs) p gone =
      let (r, h, p₁) = bind_some (t.get s i) _ s' p in
      let (s₁, h₁, p₂) = bind_some (t.put s i (f r)) _ s' p₁ in
      elim (Bool-cases (i == j)) [
        | inl same ↦ absurd (cc (h, gone, (==_iff i j).0 same))
        | inr apart ↦
            let row : t.get s₁ j ≡ t.get s j = rw apart at (laws.put_get s s₁ i (f r) j h₁) in
            put_fields-none s₁ s' i j fs p₂ (rw row gone)
      ]

-- Two lists of writes are one.
pub put_fields-++ :
    {R : Type 0} (t : Table R) (s s' s'' : t.Store) (i : ℕ) (fs gs : List (R → R))
    → put_fields t s i fs ≡ some s'
    → put_fields t s' i gs ≡ some s''
    → put_fields t s i (fs ++ gs) ≡ some s''
unfolding put_fields
put_fields-++ t s s' s'' i [] gs p q = let e : s ≡ s' = cc in rw e q
put_fields-++ t s s' s'' i (f ∷ fs) gs p q =
    let (r, h, p₁) = bind_some (t.get s i) _ s' p in
    let (s₁, h₁, p₂) = bind_some (t.put s i (f r)) _ s' p₁ in
    rw (put_fields, h, h₁) (put_fields-++ t s₁ s' s'' i fs gs p₂ q)
