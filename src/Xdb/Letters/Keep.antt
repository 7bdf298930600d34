-- ===== src/Xdb/Letters/Keep.antt =====
-- Which operations of xdb/impl/xdb_impl_db_broker.cpp keep the requests that are stored, and which
-- request ReleaseLetterFromWorker takes out.
use rtdbus.Base.{
  ℕ, Bytes, Bool, true, ◌≡◌, refl, ◌∙◌, inl, inr, none, some, ◌==◌, if◌then◌else◌, arith,
  Option-cases, Bool-cases, ==_iff,
}
use rtdbus.Xdb.Rows.{Mark, XdbLetter, WorkerState}
use rtdbus.Xdb.Service.{Service}
use rtdbus.Xdb.Worker.{Worker}
use rtdbus.Xdb.Letter.{Letter}
use rtdbus.Xdb.Table.{put_fields, written, put_fields_lem}
use rtdbus.Xdb.Mco.{Mco, IsMco, Db}
use rtdbus.Xdb.Services.{add_service, update_service}
use rtdbus.Xdb.Workers.{push_worker, update_worker, create_worker, remove_worker, set_worker_state}
use rtdbus.Xdb.Letters.{
  assigned_to, push_request_to_service, assign_letter_to_worker, release_letter_from_worker,
  release_worker,
}
use rtdbus.Xdb.Letters.Assign.{letter_writes, assign_letters}
use rtdbus.Xdb.Letters.Laws.{push_request-SetsLetter, push_request_false}

-- What a request asks: its service, the client to answer, and the text.
abbrev pub content : XdbLetter → ℕ × Bytes × Bytes × Bytes
content r = (r.service_ref, r.origin, r.header, r.body)

module _ (m : Mco) where
  -- Every request of the first store is in the second, under the same number.
  abbrev pub KeepsIn : m.letter.Store → m.letter.Store → Type 0
  KeepsIn s s' =
      (i : ℕ) (r : XdbLetter)
      → m.letter.get s i ≡ some r
      → (r' : XdbLetter) × (m.letter.get s' i ≡ some r') × (content r' ≡ content r)

  abbrev pub Keeps : Db m → Db m → Type 0
  Keeps db db' = KeepsIn db.letters db'.letters

  pub Keeps_refl : (s : m.letter.Store) → KeepsIn s s
  Keeps_refl s i r g = (r, g, refl)

  pub Keeps_trans : (s s' s'' : m.letter.Store) → KeepsIn s s' → KeepsIn s' s'' → KeepsIn s s''
  Keeps_trans s s' s'' k k' i r g =
      let (r', g', e) = k i r g in let (r'', g'', e') = k' i r' g' in (r'', g'', e' ∙ e)

  pub Keeps-same : (db db' : Db m) → db'.letters ≡ db.letters → Keeps db db'
  Keeps-same db db' e i r g = (r, rw e g, refl)

  pub push_worker_letters :
      (now : Mark) (db : Db m) (w : Worker) → ((push_worker m now db w).2).letters ≡ db.letters
  unfolding push_worker update_worker create_worker
  push_worker_letters now db w = ground arith

  pub remove_worker_letters :
      (db : Db m) (w : Worker) → ((remove_worker m db w).2).letters ≡ db.letters
  unfolding remove_worker
  remove_worker_letters db w = ground arith

  pub set_worker_state_letters :
      (db : Db m) (w : Worker) (st : WorkerState)
      → ((set_worker_state m db w st).2).letters ≡ db.letters
  unfolding set_worker_state
  set_worker_state_letters db w st = ground arith

  pub add_service_letters : (db : Db m) (n : Bytes) → ((add_service m db n).1).letters ≡ db.letters
  unfolding add_service
  add_service_letters db n = ground arith

  pub update_service_letters :
      (db db' : Db m) (srv : Service) (done : Bool)
      → update_service m db srv ≡ some (done, db')
      → db'.letters ≡ db.letters
  unfolding update_service
  update_service_letters db db' srv done h = ground arith

  module _ (laws : IsMco m) where
    pub push_request-Keeps :
        (now : Mark) (db : Db m) (srv : Service) (l : Letter)
        → Keeps db ((push_request_to_service m now db srv l).2)
    push_request-Keeps now db srv l =
        elim (Bool-cases ((push_request_to_service m now db srv l).0)) [
          | inr failed ↦ rw (push_request_false m now db srv l failed) (Keeps_refl db.letters)
          | inl done ↦
              let (i, fresh, sets) = push_request-SetsLetter m laws now db srv l done in
              λ j r g. elim (Bool-cases (i == j)) [
                | inl p ↦ absurd (cc (fresh, g, (==_iff i j).0 p))
                | inr p ↦ let e = sets.rows j in (r, rw p at e ∙ g, refl)
              ]
        ]

    assign_keeps :
        (now : Mark) (w : Worker) (s s' : m.letter.Store) (i : ℕ)
        → put_fields m.letter s i (letter_writes now w) ≡ some s'
        → KeepsIn s s'
    unfolding put_fields
    assign_keeps now w s s' i p j r g = elim (Bool-cases (i == j)) [
      | inl q ↦
          let e = (==_iff i j).0 q in
          let here : m.letter.get s i ≡ some r = rw e g in
          let row =
            put_fields_lem m.letter laws.letter_laws s s' i (letter_writes now w) r here p j in
          (written (letter_writes now w) r, rw q at row, refl)
      | inr q ↦ elim (Option-cases (m.letter.get s i)) [
        | inl gone ↦ cc (rw (put_fields, gone) at p)
        | inr (r₀, there) ↦
            let row =
              put_fields_lem m.letter laws.letter_laws s s' i (letter_writes now w) r₀ there p j in
            (r, rw q at row ∙ g, refl)
      ]
    ]

    pub assign-Keeps :
        (now : Mark) (db : Db m) (w : Worker) (l : Letter)
        → Keeps db ((assign_letter_to_worker m now db w l).3)
    assign-Keeps now db w l = elim (assign_letters m laws now db w l) [
      | inl same ↦ Keeps-same db ((assign_letter_to_worker m now db w l).3) same
      | inr p ↦ assign_keeps now w db.letters _ l.id p
    ]

    release_worker_letters :
        (before db : Db m) (w : Worker)
        → (release_worker m before db w).0 ≡ true
        → ((release_worker m before db w).2).letters ≡ db.letters
    unfolding release_worker
    release_worker_letters before db w h =
        ground (arith, set_worker_state_letters db w WorkerState.armed)

    -- A ReleaseLetterFromWorker that answers true takes out the one request that is assigned to
    -- the worker, and no other.
    pub release_letter-removes :
        (db db' : Db m) (w w' : Worker)
        → release_letter_from_worker m db w ≡ some (true, w', db')
        → (i : ℕ) × (m.letter.find db.letters (assigned_to w.id) ≡ some i)
          × ((j : ℕ)
              → m.letter.get db'.letters j ≡ (if i == j then none else m.letter.get db.letters j))
    unfolding release_letter_from_worker
    release_letter-removes db db' w w' h =
        elim (Option-cases (m.letter.find db.letters (assigned_to w.id))) [
          | inl none_yet ↦ cc (rw (release_letter_from_worker, none_yet) at h)
          | inr (i, found) ↦ elim (Option-cases (m.letter.remove db.letters i)) [
            | inl stuck ↦ absurd (ground arith)
            | inr (s, gone) ↦ (
              i,
              found,
              λ j.
                  let e : db'.letters ≡ s =
                    ground (arith, release_worker_letters db (record db { letters = s }) w) in
                  rw e (laws.letter_laws.remove_get db.letters s i j gone),
            )
          ]
        ]
