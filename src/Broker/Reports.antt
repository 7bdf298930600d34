-- ===== src/Broker/Reports.antt =====
-- REPORT of a worker in mdp/mdp_broker.cpp.
use mathlib.Core.List.{append_assoc}
use rtdbus.Base.{
  ℕ, Bytes, Bool, true, ◌≡◌, ◌≢◌, refl, sym, ap, ◌∙◌, inl, inr, Option, none, some, Bool-cases,
  bind_some, guard-some, List, ◌∷◌, ◌++◌, ◌==◌, ==_iff, ==-self,
}
use rtdbus.Zmsg.{Zmsg, unwrap}
use rtdbus.Xdb.Rows.{Mark, XdbLetter}
use rtdbus.Xdb.Service.{Service}
use rtdbus.Xdb.Worker.{Worker}
use rtdbus.Xdb.Mco.{Mco, IsMco, Db}
use rtdbus.Xdb.Services.{get_service_for_worker}
use rtdbus.Xdb.Letters.{release_letter_from_worker}
use rtdbus.Xdb.Letters.Keep.{content, release_letter-removes}
use rtdbus.Broker.State.{Broker, emit, with_db}
use rtdbus.Broker.Dispatch.{worker_waiting}
use rtdbus.Broker.WorkerSide.{process_report, report_message}
use rtdbus.Broker.Extends.{
  Advances, Advances-refl, Advances-trans, Extends, Extends-to, emit-Extends,
}
use rtdbus.Broker.Gone.{worker_waiting-IsGone}
use rtdbus.Broker.Requests.{outcome, status, worker_waiting-Extends}

module _ (m : Mco) (laws : IsMco m) where
  with_db-Advances : (b : Broker m) (db : Db m) → Advances m b (with_db m b db)
  unfolding with_db
  with_db-Advances b db =
      let r = Advances-refl m b in
      record { messages = r.messages; sends = r.sends; same_heartbeat = refl }

  -- A REPORT that a known worker sends, in its parts.
  report_parts :
      (now : Mark) (b b' : Broker m) (w : Worker) (msg : Zmsg) (s : Bool) (o : Option Worker)
      → process_report m now b (some w) msg ≡ some (s, o, b')
      → (srv : Service) × (w' : Worker) × (db' : Db m) × (client : Bytes) × (rest : Zmsg)
        × (get_service_for_worker m b.db w ≡ some srv)
        × (release_letter_from_worker m b.db w ≡ some (s, w', db'))
        × (unwrap msg ≡ some (client, rest))
        × Extends m (emit m (with_db m b db') (report_message client srv.name rest)) b'
        × ((i : ℕ) → m.letter.get db'.letters i ≡ none → m.letter.get b'.db.letters i ≡ none)
  unfolding process_report emit with_db
  report_parts now b b' w msg s o h =
      let (srv, h₁, t₁) = bind_some (get_service_for_worker m b.db w) _ (s, o, b') h in
      let (own, t₂) = guard-some (srv.id == w.service_id) _ (s, o, b') t₁ in
      let ((s', w', db'), h₃, t₃) =
        bind_some (release_letter_from_worker m b.db w) _ (s, o, b') t₂ in
      let ((client, rest), h₄, t₄) = bind_some (unwrap msg) _ (s, o, b') t₃ in
      let b₁ = emit m (with_db m b db') (report_message client srv.name rest) in
      let ((w'', b₂), h₅, t₅) = bind_some (worker_waiting m now b₁ w') _ (s, o, b') t₄ in
      let e = outcome b₂ b' t₅ in
      let same : s' ≡ s = status t₅ in
      (
        srv,
        w',
        db',
        client,
        rest,
        h₁,
        h₃ ∙ ap (λ x. some (x, w', db')) same,
        h₄,
        Extends-to m b₁ b₂ b' e (worker_waiting-Extends m laws now b₁ b₂ w' w'' h₅),
        λ i gone. rw e (worker_waiting-IsGone m i laws now b₁ b₂ w' w'' h₅ gone),
      )

  pub process_report-Advances :
      (now : Mark) (b b' : Broker m) (w : Option Worker) (msg : Zmsg) (s : Bool) (o : Option Worker)
      → process_report m now b w msg ≡ some (s, o, b')
      → Advances m b b'
  unfolding process_report
  process_report-Advances now b b' none msg s o h = rw (outcome b b' h) (Advances-refl m b)
  process_report-Advances now b b' (some w) msg s o h =
      let (srv, w', db', client, rest, found, freed, shape, later, gone) =
        report_parts now b b' w msg s o h in
      let b₁ = with_db m b db' in
      let text' = report_message client srv.name rest in
      Advances-trans m b b₁ b' (with_db-Advances b db') (
        Advances-trans m b₁ (emit m b₁ text') b' ((emit-Extends m b₁ text').advances)
          later.advances)

  -- Where the REPORT of a known worker is answered by true, a request was assigned to the worker
  -- and is no longer stored afterwards, and the first message that is sent is the report, to the
  -- client that its envelope names.
  pub process_report-sends :
      (now : Mark) (b b' : Broker m) (w : Worker) (msg : Zmsg) (o : Option Worker)
      → process_report m now b (some w) msg ≡ some (true, o, b')
      → (client : Bytes) × (rest : Zmsg) × (srv : Service) × (i : ℕ) × (r : XdbLetter)
        × (more : List Zmsg) × (unwrap msg ≡ some (client, rest))
        × (get_service_for_worker m b.db w ≡ some srv)
        × (b'.sent ≡ b.sent ++ report_message client srv.name rest ∷ more)
        × (m.letter.get b.db.letters i ≡ some r)
        × (r.worker_ref ≡ w.id)
        × (m.letter.get b'.db.letters i ≡ none)
  unfolding emit with_db
  process_report-sends now b b' w msg o h =
      let (srv, w', db', client, rest, found, freed, shape, later, gone) =
        report_parts now b b' w msg true o h in
      let (i, own, rows) = release_letter-removes m laws b.db db' w w' freed in
      let (r, stored, p) = laws.letter_laws.find_some b.db.letters _ i own in
      let assigned : r.worker_ref ≡ w.id = (==_iff _ _).0 p in
      let taken : m.letter.get db'.letters i ≡ none = rw (==-self i) at (rows i) in
      let more = later.advances.messages in
      let sends = later.advances.sends ∙ append_assoc b.sent _ more in
      (client, rest, srv, i, r, more, shape, found, sends, stored, assigned, gone i taken)

  -- After a REPORT of a known worker that is answered by true, every request that is not assigned
  -- to the worker is stored as before: service, client, header and body.
  pub process_report-keeps :
      (now : Mark) (b b' : Broker m) (w : Worker) (msg : Zmsg) (o : Option Worker) (j : ℕ)
      (r : XdbLetter)
      → process_report m now b (some w) msg ≡ some (true, o, b')
      → m.letter.get b.db.letters j ≡ some r
      → r.worker_ref ≢ w.id
      → (r' : XdbLetter) × (m.letter.get b'.db.letters j ≡ some r') × (content r' ≡ content r)
  unfolding emit with_db
  process_report-keeps now b b' w msg o j r h g other =
      let (srv, w', db', client, rest, found, freed, shape, later, gone) =
        report_parts now b b' w msg true o h in
      let (i, own, rows) = release_letter-removes m laws b.db db' w w' freed in
      let (q, gq, p) = laws.letter_laws.find_some b.db.letters _ i own in
      let assigned : q.worker_ref ≡ w.id = (==_iff _ _).0 p in
      elim (Bool-cases (i == j)) [
        | inl same ↦
            let here : some q ≡ some r =
              sym gq ∙ ap (m.letter.get b.db.letters) ((==_iff i j).0 same) ∙ g in
            let q_r : q ≡ r = cc in absurd (other (ap (λ x. x.worker_ref) (sym q_r) ∙ assigned))
        | inr apart ↦
            let row : m.letter.get db'.letters j ≡ m.letter.get b.db.letters j =
              rw apart at (rows j) in
            later.keeps j r (row ∙ g)
      ]
