-- ===== src/Xdb/Memory.antt =====
-- A class of the database as a list of rows: a table that has the laws, for tests and examples. The
-- row at position i has the number i + 1; a removed row leaves a gap.
use mathlib.Core.List.{Memᴰ}
use mathlib.Core.List.Memᴰ.{not-nil}
use rtdbus.Base.{
  ℕ, zero, suc, ◌+◌, ◌<◌, ◌≡◌, refl, inl, inr, Bool, true, false, Option, none, some, List, [], ◌∷◌,
  ◌++◌, ◌==◌, if◌then◌else◌, length, arith, Bool-cases, Option-cases, ◌⊎◌,
}
use rtdbus.Xdb.Rows.{new_service, new_worker, new_letter}
use rtdbus.Xdb.Table.{Table, IsTable, IsRemovable, AreDistinct}
use rtdbus.Xdb.Mco.{Mco, IsMco}

mem_cases : {A : Type 0} {a x : A} {xs : List A} → Memᴰ a (x ∷ xs) → (a ≡ x) ⊎ Memᴰ a xs
mem_cases (Memᴰ.head e) = inl e
mem_cases (Memᴰ.tail t) = inr t

move : (k j : ℕ) → k + suc j ≡ suc k + j
move k j = omega arith

module _ {R : Type 0} where
  abbrev row : List (Option R) → ℕ → Option R
  row [] i = none
  row (o ∷ os) zero = o
  row (o ∷ os) (suc i) = row os i

  abbrev get : List (Option R) → ℕ → Option R
  get os zero = none
  get os (suc i) = row os i

  abbrev find_from : ℕ → List (Option R) → (R → Bool) → Option ℕ
  find_from k [] p = none
  find_from k (none ∷ os) p = find_from (suc k) os p
  find_from k (some r ∷ os) p = let rest = find_from (suc k) os p in if p r then some k else rest

  abbrev scan_from : ℕ → List (Option R) → (R → Bool) → List ℕ
  scan_from k [] p = []
  scan_from k (none ∷ os) p = scan_from (suc k) os p
  scan_from k (some r ∷ os) p = let rest = scan_from (suc k) os p in if p r then k ∷ rest else rest

  abbrev write : List (Option R) → ℕ → Option R → List (Option R)
  write [] i v = []
  write (o ∷ os) zero v = v ∷ os
  write (o ∷ os) (suc i) v = o ∷ write os i v

  abbrev overwrite : List (Option R) → ℕ → Option R → Option R → Option (List (Option R))
  overwrite os i none v = none
  overwrite os zero (some r) v = none
  overwrite os (suc i) (some r) v = some (write os i v)

  row-write :
      (os : List (Option R)) (i j : ℕ) (r : R) (v : Option R)
      → row os i ≡ some r
      → row (write os i v) j ≡ (if i == j then v else row os j)
  row-write [] i j r v h = cc
  row-write (o ∷ os) zero zero r v h = refl
  row-write (o ∷ os) zero (suc j) r v h = ground arith
  row-write (o ∷ os) (suc i) zero r v h = ground arith
  row-write (o ∷ os) (suc i) (suc j) r v h = ground (arith, row-write os i j r v h)

  overwrite_get :
      (s s' : List (Option R)) (i j : ℕ) (v : Option R)
      → overwrite s i (get s i) v ≡ some s'
      → get s' j ≡ (if i == j then v else get s j)
  overwrite_get s s' zero j v h = cc
  overwrite_get s s' (suc i) zero v h = ground arith
  overwrite_get s s' (suc i) (suc j) v h = elim (Option-cases (row s i)) [
    | inl gone ↦ cc (rw gone at h)
    | inr (r, there) ↦
        let done : some (write s i v) ≡ some s' = rw there at h in
        ground (arith, row-write s i j r v there)
  ]

  overwrite-some :
      (os : List (Option R)) (i : ℕ) (r : R) (v : Option R)
      → get os i ≡ some r
      → (os' : List (Option R)) × (overwrite os i (get os i) v ≡ some os')
  overwrite-some os zero r v h = cc
  overwrite-some os (suc i) r v h = (write os i v, rw h refl)

  row-append :
      (os : List (Option R)) (v : Option R) (j : ℕ)
      → row (os ++ v ∷ []) j ≡ (if length os == j then v else row os j)
  row-append [] v zero = refl
  row-append [] v (suc j) = ground arith
  row-append (o ∷ os) v zero = ground arith
  row-append (o ∷ os) v (suc j) = ground (arith, row-append os v j)

  row-length : (os : List (Option R)) → row os (length os) ≡ none
  row-length [] = refl
  row-length (o ∷ os) = row-length os

  find_from_sound :
      (k : ℕ) (os : List (Option R)) (p : R → Bool) (i : ℕ)
      → find_from k os p ≡ some i
      → (j : ℕ) × (i ≡ k + j) × (r : R) × (row os j ≡ some r) × (p r ≡ true)
  find_from_sound k [] p i h = cc
  find_from_sound k (none ∷ os) p i h =
      let (j, e, r, g, q) = find_from_sound (suc k) os p i h in (suc j, omega arith, r, g, q)
  find_from_sound k (some r ∷ os) p i h = elim (Bool-cases (p r)) [
    | inl hit ↦ (0, ground arith, r, refl, hit)
    | inr miss ↦
        let (j, e, r', g, q) = find_from_sound (suc k) os p i (rw miss at h) in
        (suc j, omega arith, r', g, q)
  ]

  find_from-none :
      (k : ℕ) (os : List (Option R)) (p : R → Bool) (j : ℕ) (r : R)
      → find_from k os p ≡ none
      → row os j ≡ some r
      → p r ≡ false
  find_from-none k [] p j r h g = cc
  find_from-none k (none ∷ os) p zero r h g = cc
  find_from-none k (none ∷ os) p (suc j) r h g = find_from-none (suc k) os p j r h g
  find_from-none k (some r' ∷ os) p zero r h g = ground arith
  find_from-none k (some r' ∷ os) p (suc j) r h g = ground (arith, find_from-none (suc k) os p j r)

  scan_from_sound :
      (k : ℕ) (os : List (Option R)) (p : R → Bool) (i : ℕ)
      → Memᴰ i (scan_from k os p)
      → (j : ℕ) × (i ≡ k + j) × (r : R) × (row os j ≡ some r) × (p r ≡ true)
  scan_from_sound k [] p i h = absurd (not-nil h)
  scan_from_sound k (none ∷ os) p i h =
      let (j, e, r, g, q) = scan_from_sound (suc k) os p i h in (suc j, omega arith, r, g, q)
  scan_from_sound k (some r ∷ os) p i h = elim (Bool-cases (p r)) [
    | inl hit ↦ elim (mem_cases (rw hit at h)) [
      | inl e ↦ (0, omega arith, r, refl, hit)
      | inr t ↦
          let (j, e, r', g, q) = scan_from_sound (suc k) os p i t in (suc j, omega arith, r', g, q)
    ]
    | inr miss ↦
        let (j, e, r', g, q) = scan_from_sound (suc k) os p i (rw miss at h) in
        (suc j, omega arith, r', g, q)
  ]

  scan_from_complete :
      (k : ℕ) (os : List (Option R)) (p : R → Bool) (j : ℕ) (r : R)
      → row os j ≡ some r
      → p r ≡ true
      → Memᴰ (k + j) (scan_from k os p)
  scan_from_complete k [] p j r g q = cc
  scan_from_complete k (none ∷ os) p zero r g q = cc
  scan_from_complete k (none ∷ os) p (suc j) r g q =
      rw (move k j) (scan_from_complete (suc k) os p j r g q)
  scan_from_complete k (some r' ∷ os) p zero r g q =
      let hit : p r' ≡ true = ground arith in rw hit (Memᴰ.head (omega arith))
  scan_from_complete k (some r' ∷ os) p (suc j) r g q =
      let later = scan_from_complete (suc k) os p j r g q in
      elim (Bool-cases (p r')) [
        | inl hit ↦ rw (hit, move k j) (Memᴰ.tail later)
        | inr miss ↦ rw (miss, move k j) later
      ]

  -- The table of a list of rows, whose new rows are `blank`.
  abbrev pub table : R → Table R
  table blank = record {
    Store = List (Option R);
    get = get;
    find = find_from 1;
    scan = scan_from 1;
    create = λ os. some (suc (length os), os ++ some blank ∷ []);
    put = λ os i r. overwrite os i (get os i) (some r);
    remove = λ os i. overwrite os i (get os i) none;
  }

  create_get :
      (blank : R) (s s' : List (Option R)) (i j : ℕ)
      → (table blank).create s ≡ some (i, s')
      → get s' j ≡ (if i == j then some blank else get s j)
  create_get blank s s' i zero e = ground arith
  create_get blank s s' i (suc j) e = ground (arith, row-append s (some blank) j)

  get-found :
      (os : List (Option R)) (p : R → Bool) (i : ℕ)
      → (j : ℕ) × (i ≡ 1 + j) × (r : R) × (row os j ≡ some r) × (p r ≡ true)
      → (r : R) × (get os i ≡ some r) × (p r ≡ true)
  get-found os p zero (j, e, r, g, q) = absurd (omega arith)
  get-found os p (suc i) (j, e, r, g, q) = let same : i ≡ j = omega arith in (r, rw same g, q)

  find_none :
      (s : List (Option R)) (p : R → Bool) (i : ℕ) (r : R)
      → find_from 1 s p ≡ none
      → get s i ≡ some r
      → p r ≡ false
  find_none s p zero r h g = cc
  find_none s p (suc i) r h g = find_from-none 1 s p i r h g

  scan_complete :
      (s : List (Option R)) (p : R → Bool) (i : ℕ) (r : R)
      → get s i ≡ some r
      → p r ≡ true
      → Memᴰ i (scan_from 1 s p)
  scan_complete s p zero r g q = absurd (cc g)
  scan_complete s p (suc i) r g q =
      let e : suc i ≡ 1 + i = omega arith in rw e (scan_from_complete 1 s p i r g q)

  create_fresh :
      (blank : R) (s s' : List (Option R)) (i : ℕ)
      → (table blank).create s ≡ some (i, s')
      → get s i ≡ none
  create_fresh blank s s' i e = let new : i ≡ suc (length s) = ground arith in rw new (row-length s)

  create_pos :
      (blank : R) (s s' : List (Option R)) (i : ℕ) → (table blank).create s ≡ some (i, s') → 0 < i
  create_pos blank s s' i e = ground arith

  -- It has the laws of a table.
  pub table-IsTable : (blank : R) → IsTable blank (table blank)
  table-IsTable blank = record {
    find_some = λ s p i h. get-found s p i (find_from_sound 1 s p i h);
    find_none = find_none;
    scan_sound = λ s p i h. get-found s p i (scan_from_sound 1 s p i h);
    scan_complete = scan_complete;
    create_fresh = create_fresh blank;
    create_pos = create_pos blank;
    create_get = create_get blank;
    put_get = λ s s' i r j h. overwrite_get s s' i j (some r) h;
    put_some = λ s i r r' h. overwrite-some s i r (some r') h;
    remove_get = λ s s' i j h. overwrite_get s s' i j none h;
  }

  scan_from-AreDistinct :
      (k : ℕ) (os : List (Option R)) (p : R → Bool) → AreDistinct (scan_from k os p)
  unfolding AreDistinct
  scan_from-AreDistinct k [] p = tt
  scan_from-AreDistinct k (none ∷ os) p = scan_from-AreDistinct (suc k) os p
  scan_from-AreDistinct k (some r ∷ os) p =
      let later = scan_from-AreDistinct (suc k) os p in
      elim (Bool-cases (p r)) [
        | inl hit ↦ rw hit (
          λ mem.
              let (j, e, r', g, q) = scan_from_sound (suc k) os p k mem in
              absurd (omega (arith, e)),
          later,
        )
        | inr miss ↦ rw miss later
      ]

  pub table-IsRemovable : (blank : R) → IsRemovable (table blank)
  table-IsRemovable blank = record {
    remove_some = λ s i r h. overwrite-some s i r none h;
    scan_once = λ s p. scan_from-AreDistinct 1 s p;
  }

abbrev pub memory : Mco
memory = record {
  service = table new_service;
  worker = table new_worker;
  letter = table new_letter;
}

pub memory-IsMco : IsMco memory
memory-IsMco = record {
  service_laws = table-IsTable new_service;
  worker_laws = table-IsTable new_worker;
  letter_laws = table-IsTable new_letter;
}
