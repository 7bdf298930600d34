-- ===== src/Xdb/Letters/Assign.antt =====
-- What AssignLetterToWorker of xdb/impl/xdb_impl_db_broker.cpp does to the rows of the worker and the
-- letter.
use rtdbus.Base.{
  ℕ, Bool, true, false, ◌≡◌, refl, sym, ap, ◌∙◌, ◌⊎◌, inl, inr, none, some, List, [], ◌∷◌, ◌++◌,
  ◌==◌, if◌then◌else◌, arith, Option-cases,
}
use rtdbus.Xdb.Rows.{Mark, XdbWorker, XdbLetter, WorkerState, LetterState}
use rtdbus.Xdb.Worker
use rtdbus.Xdb.Worker.{Worker}
use rtdbus.Xdb.Letter
use rtdbus.Xdb.Letter.{Letter}
use rtdbus.Xdb.Table.{put_fields, written, put_fields_lem, put_fields-some, put_fields-++}
use rtdbus.Xdb.Mco.{Mco, IsMco, Db}
use rtdbus.Xdb.Workers.{put_state, put_letter_ref}
use rtdbus.Xdb.Letters.{
  letter_times, worker_times, write_state, write_worker_ref, assign_states, assign_letter_to_worker,
}

-- The fields that are written, in order.
abbrev pub letter_writes : Mark → Worker → List (XdbLetter → XdbLetter)
letter_writes now w =
    letter_times now ++ write_state LetterState.assigned ∷ write_worker_ref w.id ∷ []

abbrev pub worker_writes : Mark → Letter → List (XdbWorker → XdbWorker)
worker_writes now l = worker_times now ++ put_state WorkerState.occupied ∷ put_letter_ref l.id ∷ []

-- The objects once the states are written.
abbrev pub occupied_worker : Worker → Worker
occupied_worker w = Worker.set_state WorkerState.occupied w

abbrev pub assigned_letter : Worker → Letter → Letter
assigned_letter w l = Letter.set_worker_id w.id (Letter.set_state LetterState.assigned l)

module _ (m : Mco) where
  -- The end of AssignLetterToWorker, where both rows are stored.
  abbrev ended :
      Db m → Worker → Letter → m.letter.Store → m.worker.Store → Bool × Worker × Letter × Db m
  ended db w l ls ws =
      if db.starts
      then if db.commits
        then (
          true,
          occupied_worker w,
          assigned_letter w l,
          record db { workers = ws; letters = ls },
        )
        else (false, occupied_worker w, assigned_letter w l, db)
      else (false, w, l, db)

  ended_cases :
      (db : Db m) (w : Worker) (l : Letter) (ls : m.letter.Store) (ws : m.worker.Store)
      → ((ended db w l ls ws).3 ≡ db)
        ⊎ (ended db w l ls ws ≡ (
          true,
          occupied_worker w,
          assigned_letter w l,
          record db { workers = ws; letters = ls },
        ))
  ended_cases db w l ls ws = ground arith

  assign_missing :
      (now : Mark) (db : Db m) (w : Worker) (l : Letter)
      → (m.letter.get db.letters l.id ≡ none) ⊎ (m.worker.get db.workers w.id ≡ none)
      → assign_letter_to_worker m now db w l ≡ (false, w, l, db)
  unfolding assign_letter_to_worker
  assign_missing now db w l h = ground arith

  module _ (laws : IsMco m) where
    assign_stored :
        (now : Mark) (db : Db m) (w : Worker) (l : Letter) (q : XdbWorker) (r : XdbLetter)
        → m.worker.get db.workers w.id ≡ some q
        → m.letter.get db.letters l.id ≡ some r
        → (ls : m.letter.Store) × (ws : m.worker.Store) × (put_fields m.letter db.letters l.id
              (letter_writes now w)
            ≡ some ls)
          × (put_fields m.worker db.workers w.id (worker_writes now l) ≡ some ws)
          × (assign_letter_to_worker m now db w l ≡ ended db w l ls ws)
    unfolding assign_letter_to_worker assign_states
    assign_stored now db w l q r gq gr =
        let (l₀, p₀, h₀) =
          put_fields-some m.letter laws.letter_laws db.letters l.id (letter_times now) r gr in
        let (w₀, q₀, k₀) =
          put_fields-some m.worker laws.worker_laws db.workers w.id (worker_times now) q gq in
        let (l₁, p₁, h₁) =
          put_fields-some m.letter laws.letter_laws l₀ l.id (write_state LetterState.assigned ∷ [])
            _ h₀ in
        let (w₁, q₁, k₁) =
          put_fields-some m.worker laws.worker_laws w₀ w.id (put_state WorkerState.occupied ∷ []) _
            k₀ in
        let (w₂, q₂, k₂) =
          put_fields-some m.worker laws.worker_laws w₁ w.id (put_letter_ref l.id ∷ []) _ k₁ in
        let (l₂, p₂, h₂) =
          put_fields-some m.letter laws.letter_laws l₁ l.id (write_worker_ref w.id ∷ []) _ h₁ in
        (
          l₂,
          w₂,
          put_fields-++ m.letter db.letters l₀ l₂ l.id (letter_times now) _ p₀ (
              put_fields-++ m.letter l₀ l₁ l₂ l.id (write_state LetterState.assigned ∷ []) _ p₁ p₂),
          put_fields-++ m.worker db.workers w₀ w₂ w.id (worker_times now) _ q₀
              (put_fields-++ m.worker w₀ w₁ w₂ w.id (put_state WorkerState.occupied ∷ []) _ q₁ q₂),
          rw (assign_letter_to_worker, gr, gq, p₀, q₀, assign_states, p₁, q₁, q₂, p₂) refl,
        )

    -- An AssignLetterToWorker that answers true, for a worker and a letter that are stored, has
    -- written both rows, with the worker OCCUPIED by the letter and the letter ASSIGNED to the
    -- worker, and every other row is as before.
    pub assign_letter-true :
        (now : Mark) (db : Db m) (w : Worker) (l : Letter) (q : XdbWorker) (r : XdbLetter)
        → m.worker.get db.workers w.id ≡ some q
        → m.letter.get db.letters l.id ≡ some r
        → (assign_letter_to_worker m now db w l).0 ≡ true
        → (ls : m.letter.Store) × (ws : m.worker.Store) × (assign_letter_to_worker m now db w l ≡ (
          true,
          occupied_worker w,
          assigned_letter w l,
          record db { workers = ws; letters = ls },
        ))
          × ((j : ℕ)
              → m.letter.get ls j ≡ (
                  if l.id == j
                  then some (written (letter_writes now w) r)
                  else m.letter.get db.letters j))
          × ((j : ℕ)
              → m.worker.get ws j ≡ (
                  if w.id == j
                  then some (written (worker_writes now l) q)
                  else m.worker.get db.workers j))
    assign_letter-true now db w l q r gq gr t =
        let (ls, ws, p, p', e) = assign_stored now db w l q r gq gr in
        (
          ls,
          ws,
          ground (arith, e, t),
          put_fields_lem m.letter laws.letter_laws db.letters ls l.id _ r gr p,
          put_fields_lem m.worker laws.worker_laws db.workers ws w.id _ q gq p',
        )

    -- Either the database is left alone, or both rows are stored and all the fields are written.
    assign_cases :
        (now : Mark) (db : Db m) (w : Worker) (l : Letter)
        → ((assign_letter_to_worker m now db w l).3 ≡ db)
          ⊎ ((ls : m.letter.Store) × (ws : m.worker.Store) × (put_fields m.letter db.letters l.id
                  (letter_writes now w)
                ≡ some ls)
              × (assign_letter_to_worker m now db w l ≡ (
                true,
                occupied_worker w,
                assigned_letter w l,
                record db { workers = ws; letters = ls },
              )))
    assign_cases now db w l = elim (Option-cases (m.letter.get db.letters l.id)) [
      | inl gone ↦ inl (ap (λ x. x.3) (assign_missing now db w l (inl gone)))
      | inr (r, gr) ↦ elim (Option-cases (m.worker.get db.workers w.id)) [
        | inl gone ↦ inl (ap (λ x. x.3) (assign_missing now db w l (inr gone)))
        | inr (q, gq) ↦
            let (ls, ws, p, p', e) = assign_stored now db w l q r gq gr in
            elim (ended_cases db w l ls ws) [
              | inl same ↦ inl (ap (λ x. x.3) e ∙ same)
              | inr done ↦ inr (ls, ws, p, e ∙ done)
            ]
      ]
    ]

    -- Either the letters are left alone, or the letter's fields are written.
    pub assign_letters :
        (now : Mark) (db : Db m) (w : Worker) (l : Letter)
        → (((assign_letter_to_worker m now db w l).3).letters ≡ db.letters)
          ⊎ (put_fields m.letter db.letters l.id (letter_writes now w)
              ≡ some (((assign_letter_to_worker m now db w l).3).letters))
    assign_letters now db w l = elim (assign_cases now db w l) [
      | inl same ↦ inl (ap (λ d. d.letters) same)
      | inr (ls, ws, p, e) ↦ inr (p ∙ ap (λ x. some (x.3.letters)) (sym e))
    ]

    -- A refusal, or a missing row, leaves the database as it was.
    pub assign_letter-false :
        (now : Mark) (db : Db m) (w : Worker) (l : Letter)
        → (assign_letter_to_worker m now db w l).0 ≡ false
        → (assign_letter_to_worker m now db w l).3 ≡ db
    assign_letter-false now db w l h = elim (assign_cases now db w l) [
      | inl same ↦ same
      | inr (ls, ws, p, e) ↦ let t : true ≡ false = sym (ap (λ x. x.0) e) ∙ h in absurd (cc t)
    ]
