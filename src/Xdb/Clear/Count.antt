-- ===== src/Xdb/Clear/Count.antt =====
-- ClearWorkersForService and ClearServices of xdb/impl/xdb_impl_db_broker.cpp: how many workers are occupied,
-- and what is relied on.
use mathlib.Core.List.{Memᴰ}
use rtdbus.Base.{
  ℕ, ◌+◌, ◌≤◌, ◌<◌, true, ◌≡◌, sym, ◌∙◌, inl, inr, Option, none, some, List, [], ◌∷◌, Bool-cases,
  Option-cases, arith, length, if◌then◌else◌,
}
use rtdbus.Xdb.Rows.{XdbWorker, XdbLetter, WorkerState, worker_state_eq}
use rtdbus.Xdb.Mco.{Mco, Db}
use rtdbus.Xdb.Workers.Identity.{IsAddressed}
use rtdbus.Xdb.Workers.Lookup.{worker_state_eq_sound}
use rtdbus.Xdb.Clear.Shrinks.{Shrinks}

-- How many of these workers are occupied.
module _ (m : Mco) where
  abbrev pub is_occupied : Option XdbWorker → ℕ
  is_occupied none = 0
  is_occupied (some r) = if worker_state_eq WorkerState.occupied r.state then 1 else 0

  abbrev pub count_occupied : m.worker.Store → List ℕ → ℕ
  count_occupied s [] = 0
  count_occupied s (i ∷ is) = is_occupied (m.worker.get s i) + count_occupied s is

  pub count-le : (s : m.worker.Store) (is : List ℕ) → count_occupied s is ≤ length is
  count-le s [] = omega arith
  count-le s (i ∷ is) = ground (arith, count-le s is)

  -- A request that is assigned to a worker is one of the worker's service.
  pub record IsMatched (db : Db m) : Type 0 where
    pub same_service :
        (i j : ℕ) (l : XdbLetter) (r : XdbWorker)
        → m.letter.get db.letters i ≡ some l
        → m.worker.get db.workers j ≡ some r
        → l.worker_ref ≡ j
        → l.service_ref ≡ r.service_ref

  -- What ClearWorkersForService relies on: transactions start and are committed, workers are told
  -- apart, and requests stand with workers of their service.
  pub record IsClearable (db : Db m) : Type 0 where
    pub starts : db.starts ≡ true
    pub commits : db.commits ≡ true
    pub addressed : IsAddressed m db
    pub matched : IsMatched db

  pub Shrinks-IsClearable : (db db' : Db m) → Shrinks m db db' → IsClearable db → IsClearable db'
  Shrinks-IsClearable db db' s c = record {
    starts = s.same_starts ∙ c.starts;
    commits = s.same_commits ∙ c.commits;
    addressed = record {
      unique = λ i j r q gr gq e.
          let (r₀, hr, er) = s.rows i r gr in
          let (q₀, hq, eq) = s.rows j q gq in
          c.addressed.unique i j r₀ q₀ hr hq (sym er.identity ∙ e ∙ eq.identity);
      fits = λ i r g. let (r₀, h, e) = s.rows i r g in rw e.identity (c.addressed.fits i r₀ h);
    };
    matched = record {
      same_service = λ i j l r gl gr own.
          let (r₀, h, e) = s.rows j r gr in
          c.matched.same_service i j l r₀ (s.letters i l gl) h own ∙ sym e.service_ref;
    };
  }

  pub is_occupied-le :
      (db db' : Db m) (i : ℕ)
      → Shrinks m db db'
      → is_occupied (m.worker.get db'.workers i) ≤ is_occupied (m.worker.get db.workers i)
  is_occupied-le db db' i s = elim (Option-cases (m.worker.get db'.workers i)) [
    | inl gone ↦ rw gone (omega arith)
    | inr (q, g) ↦
        let (r, h, calmed) = s.rows i q g in
        elim (Bool-cases (worker_state_eq WorkerState.occupied q.state)) [
          | inr idle ↦ rw (g, idle) (omega arith)
          | inl busy ↦
              let was : r.state ≡ WorkerState.occupied =
                calmed.calm (sym (worker_state_eq_sound WorkerState.occupied q.state busy)) in
              rw (g, busy, h, was) (omega arith)
        ]
  ]

  count_occupied-le :
      (db db' : Db m) (is : List ℕ)
      → Shrinks m db db'
      → count_occupied db'.workers is ≤ count_occupied db.workers is
  count_occupied-le db db' [] s = omega arith
  count_occupied-le db db' (i ∷ is) s =
      omega (arith, count_occupied-le db db' is s, is_occupied-le db db' i s)

  -- A worker of the list that is no longer occupied.
  pub count_occupied-lt :
      (db db' : Db m) (i : ℕ) (is : List ℕ)
      → Shrinks m db db'
      → Memᴰ i is
      → is_occupied (m.worker.get db'.workers i) < is_occupied (m.worker.get db.workers i)
      → count_occupied db'.workers is < count_occupied db.workers is
  count_occupied-lt db db' i [] s mem h = elim mem [ ]
  count_occupied-lt db db' i (k ∷ is) s (Memᴰ.head e) h =
      let first : is_occupied (m.worker.get db'.workers k)
          < is_occupied (m.worker.get db.workers k) =
        rw (← e) h in
      omega (arith, count_occupied-le db db' is s)
  count_occupied-lt db db' i (k ∷ is) s (Memᴰ.tail t) h =
      omega (arith, count_occupied-lt db db' i is s t h, is_occupied-le db db' k s)
