-- ===== src/Xdb/Workers/Identity.antt =====
-- The identities of the stored workers under PushWorker, RemoveWorker and SetWorkerState of
-- xdb/impl/xdb_impl_db_broker.cpp, and their lookup by GetWorkerByIdent.
use rtdbus.Base.{
  ℕ, Bytes, strncpy, take, refl, bytes_eq_iff, c_str, ◌≡◌, sym, ap, ◌∙◌, ◌⊎◌, inl, inr, some, ◌==◌,
  Bool-cases, ==_iff,
}
use rtdbus.Xdb.Rows.{Mark, XdbWorker}
use rtdbus.Xdb.Worker
use rtdbus.Xdb.Worker.{Worker, identity_maxlen}
use rtdbus.Xdb.Mco.{Mco, IsMco, Db}
use rtdbus.Xdb.Workers.{push_worker, load_worker}
use rtdbus.Xdb.Workers.Laws.{SetsWorker, push_worker-SetsWorker, push_worker-false}

-- An identity that the object of a worker holds whole.
abbrev pub IsAddressable : Bytes → Type 0
IsAddressable n = c_str (strncpy identity_maxlen (take identity_maxlen n)) ≡ n

pub some_injective : {A : Type 0} {x y : A} → some x ≡ some y → x ≡ y
some_injective h = cc

pub loaded :
    (i : ℕ) (r : XdbWorker)
    → IsAddressable r.identity
    → (c_str (load_worker i r).identity ≡ r.identity)
      × ((load_worker i r).expiration ≡ r.expiration)
unfolding load_worker Worker.set_valid Worker.set_expiration Worker.set_state Worker.new
    Worker.set_identity
loaded i r h = (h, refl)

module _ (m : Mco) where
  -- No two stored workers have the same identity.
  abbrev pub UniqueIdentity : Db m → Type 0
  UniqueIdentity db =
      (i j : ℕ) (r q : XdbWorker)
      → m.worker.get db.workers i ≡ some r
      → m.worker.get db.workers j ≡ some q
      → r.identity ≡ q.identity
      → i ≡ j

  -- Workers are told apart by identities that fit.
  pub record IsAddressed (db : Db m) : Type 0 where
    pub unique : UniqueIdentity db
    pub fits :
        (i : ℕ) (r : XdbWorker) → m.worker.get db.workers i ≡ some r → IsAddressable r.identity

  -- A row of the second database is the one that was set, or is an old one.
  pub SetsWorker-cases :
      (db db' : Db m) (i : ℕ) (r : XdbWorker)
      → SetsWorker m db db' i r
      → (j : ℕ) (q : XdbWorker) → m.worker.get db'.workers j ≡ some q
      → ((i ≡ j) × (r ≡ q)) ⊎ (m.worker.get db.workers j ≡ some q)
  SetsWorker-cases db db' i r sets j q g = elim (Bool-cases (i == j)) [
    | inl p ↦
        let e : m.worker.get db'.workers j ≡ some r = rw p at (sets.rows j) in
        inl ((==_iff i j).0 p, cc)
    | inr p ↦
        let e : m.worker.get db'.workers j ≡ m.worker.get db.workers j = rw p at (sets.rows j) in
        inr (sym e ∙ g)
  ]

  -- The writing of one row keeps identities apart, where no other row has its identity.
  pub SetsWorker-UniqueIdentity :
      (db db' : Db m) (i : ℕ) (r : XdbWorker)
      → SetsWorker m db db' i r
      → ((j : ℕ) (q : XdbWorker)
          → m.worker.get db.workers j ≡ some q
          → q.identity ≡ r.identity
          → j ≡ i)
      → UniqueIdentity db
      → UniqueIdentity db'
  SetsWorker-UniqueIdentity db db' i r sets alone unique a b ra rb ga gb e =
      elim (SetsWorker-cases db db' i r sets a ra ga) [
        | inl (p, p') ↦ elim (SetsWorker-cases db db' i r sets b rb gb) [
          | inl (q, q') ↦ cc
          | inr old ↦ sym (alone b rb old (cc) ∙ p)
        ]
        | inr olda ↦ elim (SetsWorker-cases db db' i r sets b rb gb) [
          | inl (q, q') ↦ alone a ra olda (e ∙ ap (λ x. x.identity) (sym q')) ∙ q
          | inr oldb ↦ unique a b ra rb olda oldb e
        ]
      ]

  -- PushWorker keeps the identities of the stored workers distinct.
  pub push_worker-UniqueIdentity :
      IsMco m
      → (now : Mark) (db : Db m) (w : Worker) → UniqueIdentity db
      → UniqueIdentity ((push_worker m now db w).2)
  push_worker-UniqueIdentity laws now db w unique = elim (Bool-cases ((push_worker m now db w).0)) [
    | inr failed ↦ rw (push_worker-false m now db w failed) unique
    | inl done ↦
        let (i, r, sets, armed, known) = push_worker-SetsWorker m laws now db w done in
        SetsWorker-UniqueIdentity db _ i r sets
          (λ j q g e. elim known [
            | inl found ↦
                let (r₀, stored, same) = laws.worker_laws.find_some db.workers _ i found in
                unique j i q r₀ g stored (e ∙ armed.identity ∙ sym ((bytes_eq_iff _ _).0 same))
            | inr (new, fresh) ↦
                let other = laws.worker_laws.find_none db.workers _ j q new g in
                let same = (bytes_eq_iff _ _).1 (e ∙ armed.identity) in absurd (cc)
          ])
          unique
  ]
