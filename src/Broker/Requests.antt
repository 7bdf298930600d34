-- ===== src/Broker/Requests.antt =====
-- The handlers of mdp/mdp_broker.cpp and the requests that the database holds: only a REPORT takes one
-- out.
use rtdbus.Base.{
  ℕ, Bytes, bytes_eq, Bool, true, false, ◌≡◌, inl, inr, Option, none, some, Option-cases,
  Bool-cases, bind_some, guard-some, ltb, leb, length, [], ◌∷◌,
}
use rtdbus.Zmsg.{Zmsg, parts, pop_front, wrap, unwrap}
use rtdbus.Xdb.Rows.{Mark, XdbLetter}
use rtdbus.Xdb.Service
use rtdbus.Xdb.Service.{Service}
use rtdbus.Xdb.Worker
use rtdbus.Xdb.Worker.{Worker}
use rtdbus.Xdb.Mco.{Mco, IsMco}
use rtdbus.Xdb.Services.{add_service, get_service_by_name, get_service_by_id, update_service}
use rtdbus.Xdb.Workers.{push_worker, get_worker_by_ident}
use rtdbus.Xdb.Letters.Keep.{
  content, Keeps-same, push_worker_letters, add_service_letters, update_service_letters,
}
use rtdbus.Broker.State.{
  Broker, with_db, release, mdpw_ready, mdpw_report, mdpw_heartbeat, mdpw_disconnect, empty_frame,
}
use rtdbus.Broker.Dispatch.{service_require, service_dispatch, worker_waiting}
use rtdbus.Broker.WorkerSide.{
  is_internal, released, register_worker, process_ready, process_heartbeat, process_disconnect,
  dispatch_command, answer_failure, worker_msg,
}
use rtdbus.Broker.ClientSide.{
  service_internal, internal_answer, client_msg, internal_message, nak_message,
}
use rtdbus.Broker.Extends.{
  Extends, Extends-refl, Extends-trans, Extends-some, emit-Extends, with_db-Extends,
  release-Extends, service_dispatch-Extends, command-Extends,
}

-- The broker that an outcome holds.
pub outcome :
    {m : Mco} {s s' : Bool} {o o' : Option Worker} (b b' : Broker m)
    → ◌≡◌ {A = Option (Bool × Option Worker × Broker m)} (some (s, o, b)) (some (s', o', b'))
    → b' ≡ b
outcome b b' h = cc

pub status :
    {m : Mco} {s s' : Bool} {o o' : Option Worker} {b b' : Broker m}
    → ◌≡◌ {A = Option (Bool × Option Worker × Broker m)} (some (s, o, b)) (some (s', o', b'))
    → s ≡ s'
status h = cc

module _ (m : Mco) (laws : IsMco m) where
  service_require-Extends :
      (b b' : Broker m) (n : Bytes) (srv : Service)
      → service_require m b n ≡ some (srv, b')
      → Extends m b b'
  unfolding service_require
  service_require-Extends b b' n srv h =
      let (p, q) = guard-some (ltb 0 (length n)) _ (srv, b') h in
      elim (Option-cases (get_service_by_name m b.db n)) [
        | inr (s, known) ↦
            let e : some (s, b) ≡ some (srv, b') = rw known at q in
            let e' : b' ≡ b = cc in rw e' (Extends-refl m b)
        | inl new ↦ elim (Option-cases ((add_service m b.db n).0)) [
          | inl failed ↦ cc (rw (new, failed) at q)
          | inr (s, made) ↦
              let e : some (s, with_db m b ((add_service m b.db n).1)) ≡ some (srv, b') =
                rw (new, made) at q in
              let e' : b' ≡ with_db m b ((add_service m b.db n).1) = cc in
              let k = Keeps-same m b.db ((add_service m b.db n).1) (add_service_letters m b.db n) in
              rw e' (with_db-Extends m b _ k)
        ]
      ]

  pub worker_waiting-Extends :
      (now : Mark) (b b' : Broker m) (w w' : Worker)
      → worker_waiting m now b w ≡ some (w', b')
      → Extends m b b'
  unfolding worker_waiting
  worker_waiting-Extends now b b' w w' h =
      let db' = (push_worker m now b.db w).2 in
      let w₁ = (push_worker m now b.db w).1 in
      let k = with_db-Extends m b db' (Keeps-same m b.db db' (push_worker_letters m now b.db w)) in
      elim (Option-cases (get_service_by_id m db' w₁.service_id)) [
        | inl lost ↦
            let e : some (w₁, with_db m b db') ≡ some (w', b') = rw (worker_waiting, lost) at h in
            let e' : b' ≡ with_db m b db' = cc in rw e' k
        | inr (srv, found) ↦
            let (b₁, p, q) =
              bind_some (service_dispatch m now (with_db m b db') srv none) _ (w', b')
                (rw (worker_waiting, found) at h) in
            let e' : b' ≡ b₁ = cc in
            rw e' (
              Extends-trans m b (with_db m b db') b₁ k
                (service_dispatch-Extends m laws now _ b₁ srv none p))
      ]

  register_worker-Extends :
      (now : Mark) (b b' : Broker m) (sender : Bytes) (msg : Zmsg) (s : Bool) (o : Option Worker)
      → register_worker m now b sender msg ≡ some (s, o, b')
      → Extends m b b'
  unfolding register_worker
  register_worker-Extends now b b' sender msg s o h =
      let ((n, r₁), h₁, t₁) = bind_some (pop_front msg) _ (s, o, b') h in
      let ((ep, r₂), h₂, t₂) = bind_some (pop_front r₁) _ (s, o, b') t₁ in
      let ((srv, b₁), h₃, t₃) = bind_some (service_require m b n) _ (s, o, b') t₂ in
      let ((u, db₂), h₄, t₄) =
        bind_some (update_service m b₁.db (Service.set_endpoint ep srv)) _ (s, o, b') t₃ in
      let b₂ = with_db m b₁ db₂ in
      let ((w, b₃), h₅, t₅) =
        bind_some (worker_waiting m now b₂ (Worker.new srv.id sender 0 0)) _ (s, o, b') t₄ in
      let (b₄, h₆, t₆) = bind_some (service_dispatch m now b₃ srv none) _ (s, o, b') t₅ in
      let e = outcome b₄ b' t₆ in
      let k = Keeps-same m b₁.db db₂ (update_service_letters m b₁.db db₂ _ u h₄) in
      rw e (
        Extends-trans m b b₁ b₄ (service_require-Extends b b₁ n srv h₃) (
          Extends-trans m b₁ b₂ b₄ (with_db-Extends m b₁ db₂ k) (
            Extends-trans m b₂ b₃ b₄ (worker_waiting-Extends now b₂ b₃ _ w h₅)
              (service_dispatch-Extends m laws now b₃ b₄ srv none h₆))))

  released-Extends :
      (b b' : Broker m) (w : Option Worker) (d s : Bool) (o : Option Worker)
      → released m (release m b w d) ≡ some (s, o, b')
      → Extends m b b'
  released-Extends b b' w d s o h = elim (Option-cases (release m b w d)) [
    | inl failed ↦ cc (rw failed at h)
    | inr ((s', w', b₁), done) ↦
        let e : some (s', some w', b₁) ≡ some (s, o, b') = rw done at h in
        let e' : b' ≡ b₁ = cc in rw e' (release-Extends m b b₁ w d s' w' done)
  ]

  process_ready-Extends :
      (now : Mark) (b b' : Broker m) (w : Option Worker) (sender : Bytes) (msg : Zmsg) (s : Bool)
      (o : Option Worker)
      → process_ready m now b w sender msg ≡ some (s, o, b')
      → Extends m b b'
  unfolding process_ready
  process_ready-Extends now b b' (some w) sender msg s o h =
      released-Extends b b' (some w) true s o h
  process_ready-Extends now b b' none sender msg s o h = elim (Bool-cases (is_internal sender)) [
    | inl reserved ↦ released-Extends b b' none true s o (rw (process_ready, reserved) at h)
    | inr plain ↦ register_worker-Extends now b b' sender msg s o (rw (process_ready, plain) at h)
  ]

  process_heartbeat-Extends :
      (now : Mark) (b b' : Broker m) (w : Option Worker) (s : Bool) (o : Option Worker)
      → process_heartbeat m now b w ≡ some (s, o, b')
      → Extends m b b'
  unfolding process_heartbeat
  process_heartbeat-Extends now b b' none s o h = let e : b' ≡ b = cc in rw e (Extends-refl m b)
  process_heartbeat-Extends now b b' (some w) s o h =
      let ((w', b₁), p, q) = bind_some (worker_waiting m now b w) _ (s, o, b') h in
      let e : b' ≡ b₁ = cc in rw e (worker_waiting-Extends now b b₁ w w' p)

  process_disconnect-Extends :
      (b b' : Broker m) (w : Option Worker) (s : Bool) (o : Option Worker)
      → process_disconnect m b w ≡ some (s, o, b')
      → Extends m b b'
  unfolding process_disconnect
  process_disconnect-Extends b b' w s o h = released-Extends b b' w false s o h

  -- Every command but REPORT keeps the requests.
  pub dispatch_command-Extends :
      (now : Mark) (b b' : Broker m) (command : Bytes) (w : Option Worker) (sender : Bytes)
      (msg : Zmsg) (s : Bool) (o : Option Worker)
      → bytes_eq command mdpw_report ≡ false
      → dispatch_command m now b command w sender msg ≡ some (s, o, b')
      → Extends m b b'
  unfolding dispatch_command
  dispatch_command-Extends now b b' command w sender msg s o not_report h =
      elim (Bool-cases (bytes_eq command mdpw_ready)) [
        | inl r ↦ process_ready-Extends now b b' w sender msg s o (rw (dispatch_command, r) at h)
        | inr r ↦ elim (Bool-cases (bytes_eq command mdpw_heartbeat)) [
          | inl t ↦
              process_heartbeat-Extends now b b' w s o
                (rw (dispatch_command, r, not_report, t) at h)
          | inr t ↦ elim (Bool-cases (bytes_eq command mdpw_disconnect)) [
            | inl d ↦
                process_disconnect-Extends b b' w s o
                  (rw (dispatch_command, r, not_report, t, d) at h)
            | inr d ↦
                rw (outcome b b' (rw (dispatch_command, r, not_report, t, d) at h))
                  (Extends-refl m b)
          ]
        ]
      ]

  pub answer_failure-Extends :
      (b : Broker m) (sender : Bytes) (s : Bool) (o : Option Worker)
      → Extends m b (answer_failure m sender (s, o, b))
  unfolding answer_failure
  answer_failure-Extends b sender true o = Extends-refl m b
  answer_failure-Extends b sender false (some w) = Extends-refl m b
  answer_failure-Extends b sender false none =
      command-Extends m b sender mdpw_disconnect empty_frame []

  pub worker_msg-Extends :
      (now : Mark) (b b' : Broker m) (sender command : Bytes) (rest : Zmsg)
      → bytes_eq command mdpw_report ≡ false
      → worker_msg m now b sender (command ∷ rest) ≡ some b'
      → Extends m b b'
  unfolding worker_msg pop_front
  worker_msg-Extends now b b' sender command rest not_report h =
      let (p₁, h₁) = guard-some (leb 1 (parts (command ∷ rest))) _ b' h in
      let (p₂, h₂) = guard-some (ltb 0 (length sender)) _ b' h₁ in
      let ((s, o, b₁), q, t) =
        bind_some (dispatch_command m now b command (get_worker_by_ident m b.db sender) sender rest)
          _ b' h₂ in
      let e : b' ≡ answer_failure m sender (s, o, b₁) = cc in
      rw e (
        Extends-trans m b b₁ _
          (dispatch_command-Extends now b b₁ command _ sender rest s o not_report q)
          (answer_failure-Extends b₁ sender s o))

  pub client_msg-Extends :
      (now : Mark) (b b' : Broker m) (sender : Bytes) (msg : Zmsg)
      → client_msg m now b sender msg ≡ some b'
      → Extends m b b'
  unfolding client_msg service_internal
  client_msg-Extends now b b' sender msg h =
      let (p₁, h₁) = guard-some (leb 2 (parts msg)) _ b' h in
      let ((n, rest), p₂, h₂) = bind_some (pop_front msg) _ b' h₁ in
      let msg' = wrap sender (some empty_frame) rest in
      elim (Bool-cases (is_internal n)) [
        | inl reserved ↦
            let h₃ = rw reserved at h₂ in
            let (q₁, h₄) = guard-some (leb 2 (parts msg')) _ b' h₃ in
            let (answer, q₂, h₅) = bind_some (internal_answer m b n msg') _ b' h₄ in
            let ((client, r), q₃, h₆) = bind_some (unwrap answer) _ b' h₅ in
            Extends-some m b _ b' h₆ (emit-Extends m b (internal_message client n r))
        | inr plain ↦ elim (Option-cases (get_service_by_name m b.db n)) [
          | inl unknown ↦
              Extends-some m b _ b' (rw (plain, unknown) at h₂)
                (emit-Extends m b (nak_message sender n rest))
          | inr (srv, known) ↦
              service_dispatch-Extends m laws now b b' srv (some msg') (rw (plain, known) at h₂)
        ]
      ]

  -- A message of a worker other than REPORT, where it is handled without a failed assertion, loses
  -- no stored request.
  pub worker_msg-keeps :
      (now : Mark) (b b' : Broker m) (sender command : Bytes) (rest : Zmsg) (i : ℕ) (r : XdbLetter)
      → bytes_eq command mdpw_report ≡ false
      → worker_msg m now b sender (command ∷ rest) ≡ some b'
      → m.letter.get b.db.letters i ≡ some r
      → (r' : XdbLetter) × (m.letter.get b'.db.letters i ≡ some r') × (content r' ≡ content r)
  worker_msg-keeps now b b' sender command rest i r other h g =
      let k = (worker_msg-Extends now b b' sender command rest other h).keeps in k i r g

  -- A message of a client, where it is handled without a failed assertion, loses no stored
  -- request.
  pub client_msg-keeps :
      (now : Mark) (b b' : Broker m) (sender : Bytes) (msg : Zmsg) (i : ℕ) (r : XdbLetter)
      → client_msg m now b sender msg ≡ some b'
      → m.letter.get b.db.letters i ≡ some r
      → (r' : XdbLetter) × (m.letter.get b'.db.letters i ≡ some r') × (content r' ≡ content r)
  client_msg-keeps now b b' sender msg i r h g =
      let k = (client_msg-Extends now b b' sender msg h).keeps in k i r g
