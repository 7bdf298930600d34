-- ===== src/Xdb/Letters/Laws.antt =====
-- What PushRequestToService, AssignLetterToWorker, ReleaseLetterFromWorker and GetWaitingLetter of
-- xdb/impl/xdb_impl_db_broker.cpp do to the database.
use mathlib.Core.List.{Memᴰ}
use mathlib.Core.List.Memᴰ.{not-nil}
use rtdbus.Base.{
  ℕ, ◌+◌, c_str, true, false, ◌≡◌, refl, sym, ◌∙◌, ◌≢◌, inl, inr, Option, none, some, List, [], ◌∷◌,
  ◌==◌, if◌then◌else◌, arith, Option-cases, Bool-cases,
}
use rtdbus.Xdb.Rows.{Mark, XdbLetter, LetterState}
use rtdbus.Xdb.Service.{Service}
use rtdbus.Xdb.Letter.{Letter}
use rtdbus.Xdb.Table.{put_fields, create-put_fields}
use rtdbus.Xdb.Mco.{Mco, IsMco, Db}
use rtdbus.Xdb.Letters.{
  load_letter, waiting_for, push_request_to_service, pushed, get_waiting_letter, first_letter,
  commit_letters, request_writes,
}

waiting_for_sound :
    (srv : ℕ) (r : XdbLetter)
    → waiting_for srv r ≡ true
    → (r.service_ref ≡ srv) × (r.state ≡ LetterState.unassigned)
waiting_for_sound srv r h = (ground arith, ground arith)

module _ (m : Mco) where
  first_letter_sound :
      (s : m.letter.Store) (is : List ℕ) (l : Letter)
      → first_letter m s is ≡ some l
      → (i : ℕ) × (r : XdbLetter) × Memᴰ i is × (m.letter.get s i ≡ some r) × (l ≡ load_letter i r)
  unfolding first_letter
  first_letter_sound s [] l h = cc
  first_letter_sound s (i ∷ is) l h = elim (Option-cases (m.letter.get s i)) [
    | inl gone ↦ cc (rw (first_letter, gone) at h)
    | inr (r, there) ↦
        let e : some (load_letter i r) ≡ some l = rw (first_letter, there) at h in
        (i, r, Memᴰ.head refl, there, cc)
  ]

  first_letter-none :
      (s : m.letter.Store) (is : List ℕ)
      → ((i : ℕ) → Memᴰ i is → (r : XdbLetter) × (m.letter.get s i ≡ some r))
      → first_letter m s is ≡ none
      → is ≡ []
  unfolding first_letter
  first_letter-none s [] stored h = refl
  first_letter-none s (i ∷ is) stored h =
      let (r, there) = stored i (Memᴰ.head refl) in cc (rw (first_letter, there) at h)

  -- The second database differs from the first in the row of one letter, which is given.
  pub record SetsLetter (db db' : Db m) (i : ℕ) (r : XdbLetter) : Type 0 where
    pub rows :
        (j : ℕ)
        → m.letter.get db'.letters j ≡ (if i == j then some r else m.letter.get db.letters j)
    pub same_services : db'.services ≡ db.services
    pub same_workers : db'.workers ≡ db.workers

  -- The row of a request that PushRequestToService has stored under the number `i`.
  unfoldable pub request_row : Mark → Service → Letter → ℕ → XdbLetter
  unfolding c_str
  request_row now srv l i = record {
    service_ref = srv.id;
    worker_ref = i;
    state = LetterState.unassigned;
    origin = c_str l.reply_to;
    expiration = record { sec = now.sec + 2; nsec = now.nsec };
    header = l.header;
    body = l.body;
  }

  pub push_request_false :
      (now : Mark) (db : Db m) (srv : Service) (l : Letter)
      → (push_request_to_service m now db srv l).0 ≡ false
      → (push_request_to_service m now db srv l).2 ≡ db
  unfolding push_request_to_service
  push_request_false now db srv l h = ground arith

  commit_letters-true :
      (old new : Letter) (db : Db m) (o : Option m.letter.Store)
      → (commit_letters m old new db o).0 ≡ true
      → (s : m.letter.Store) × (o ≡ some s)
        × ((commit_letters m old new db o).2 ≡ record db { letters = s })
  commit_letters-true old new db none h = cc
  commit_letters-true old new db (some s) h = (s, refl, ground arith)

  module _ (laws : IsMco m) where
    -- A PushRequestToService that answers true stores the request under a number that was free,
    -- waiting for the service, with its client, header and body; every other row is as before.
    pub push_request-SetsLetter :
        (now : Mark) (db : Db m) (srv : Service) (l : Letter)
        → (push_request_to_service m now db srv l).0 ≡ true
        → (i : ℕ) × (m.letter.get db.letters i ≡ none)
          × SetsLetter db ((push_request_to_service m now db srv l).2) i (request_row now srv l i)
    unfolding push_request_to_service request_row put_fields
    push_request-SetsLetter now db srv l t = elim (Option-cases (m.letter.create db.letters)) [
      | inl full ↦ cc (rw (push_request_to_service, full) at t)
      | inr ((i, s), made) ↦
          let (s', p, e) =
            commit_letters-true _ (pushed m now srv i l) db
              (put_fields m.letter s i (request_writes now srv i l))
              (rw (push_request_to_service, made) at t) in
          (
            i,
            laws.letter_laws.create_fresh db.letters s i made,
            rw (push_request_to_service, made, e)
                (record {
                  rows =
                      create-put_fields m.letter laws.letter_laws db.letters s s' s' i
                        (request_writes now srv i l) [] made p refl;
                  same_services = refl;
                  same_workers = refl;
                }),
          )
    ]

    -- The letter that GetWaitingLetter gives is the object of a stored request that waits for the
    -- service.
    pub get_waiting_letter_sound :
        (db : Db m) (srv : Service) (l : Letter)
        → get_waiting_letter m db srv ≡ some l
        → (i : ℕ) × (r : XdbLetter) × (m.letter.get db.letters i ≡ some r)
          × (r.service_ref ≡ srv.id)
          × (r.state ≡ LetterState.unassigned)
          × (l ≡ load_letter i r)
    unfolding get_waiting_letter first_letter
    get_waiting_letter_sound db srv l h = elim (Bool-cases (db.starts)) [
      | inr stopped ↦ cc (rw (get_waiting_letter, stopped) at h)
      | inl started ↦
          let (i, r, mem, g, e) =
            first_letter_sound db.letters (m.letter.scan db.letters (waiting_for srv.id)) l
              (rw (get_waiting_letter, started) at h) in
          let (q, g', p) = laws.letter_laws.scan_sound db.letters (waiting_for srv.id) i mem in
          let eq : some q ≡ some r = sym g' ∙ g in
          let (own, free) = waiting_for_sound srv.id r (ground (arith, eq, p)) in
          (i, r, g, own, free, e)
    ]

    -- Where transactions start and GetWaitingLetter gives none, no stored request of the service
    -- is unassigned.
    pub get_waiting_letter_complete :
        (db : Db m) (srv : Service)
        → get_waiting_letter m db srv ≡ none
        → db.starts ≡ true
        → (i : ℕ) (r : XdbLetter) → m.letter.get db.letters i ≡ some r
        → r.service_ref ≡ srv.id
        → r.state ≢ LetterState.unassigned
    unfolding get_waiting_letter first_letter
    get_waiting_letter_complete db srv h started i r g e same =
        let hit : waiting_for srv.id r ≡ true = ground (arith, e, same) in
        let mem = laws.letter_laws.scan_complete db.letters (waiting_for srv.id) i r g hit in
        let no =
          first_letter-none db.letters (m.letter.scan db.letters (waiting_for srv.id))
            (λ j x.
              let (q, g', p) = laws.letter_laws.scan_sound db.letters (waiting_for srv.id) j x in
              (q, g'))
            (rw (get_waiting_letter, started) at h) in
        not-nil (rw no at mem)
