-- ===== src/Xdb/Samples.antt =====
-- Small contents of the broker's database, for the examples.
use rtdbus.Base.{ℕ, zero, suc, text, ◌≡◌, refl, sym, ◌∙◌, true, false, Option, some, List, [], ◌∷◌}
use rtdbus.Xdb.Rows.{
  Mark, XdbService, XdbWorker, XdbLetter, XdbServiceState, WorkerState, LetterState,
}
use rtdbus.Xdb.Service.{Service, ServiceState}
use rtdbus.Xdb.Worker.{Worker}
use rtdbus.Xdb.Letter.{Letter}
use rtdbus.Xdb.Mco.{Db}
use rtdbus.Xdb.Workers.Identity.{UniqueIdentity}
use rtdbus.Xdb.Memory.{memory}

abbrev pub noon : Mark
noon = record { sec = 100; nsec = 7 }

abbrev pub echo_row : XdbService
echo_row = record {
  name = text "ECHO";
  state = XdbServiceState.registered;
  endpoint = text "tcp://e:1";
}

abbrev pub echo : Service
echo = record {
  id = 1;
  name = text "ECHO";
  endpoint = some (text "tcp://e:1");
  state = ServiceState.registered;
  modified = false;
}

-- A worker of ECHO, in a state, with the letter that it holds.
abbrev pub worker_row : WorkerState → ℕ → XdbWorker
worker_row st l = record {
  identity = text "w1";
  state = st;
  expiration = record { sec = 90; nsec = 0 };
  service_ref = 1;
  letter_ref = l;
}

-- The object of that worker, and of one that is new.
abbrev pub worker_object : WorkerState → ℕ → Worker
worker_object st l = record {
  id = 1;
  service_id = 1;
  letter_id = l;
  identity = text "w1";
  state = st;
  expiration = record { sec = 90; nsec = 0 };
  modified = false;
}

abbrev pub newcomer : Worker
newcomer = record {
  id = 0;
  service_id = 1;
  letter_id = 0;
  identity = text "w2";
  state = WorkerState.init;
  expiration = record { sec = 0; nsec = 0 };
  modified = true;
}

abbrev pub letter_row : LetterState → ℕ → XdbLetter
letter_row st w = record {
  service_ref = 1;
  worker_ref = w;
  state = st;
  origin = text "c1";
  expiration = record { sec = 102; nsec = 0 };
  header = text "h";
  body = text "b";
}

abbrev pub letter_object : LetterState → ℕ → Letter
letter_object st w = record {
  id = 1;
  service_id = 1;
  worker_id = w;
  state = st;
  header = text "h";
  body = text "b";
  expiration = record { sec = 102; nsec = 0 };
  reply_to = text "c1";
  modified = false;
}

-- ECHO with one worker and the letters that are given.
abbrev pub with_worker : XdbWorker → List (Option XdbLetter) → Db memory
with_worker r ls = record {
  services = some echo_row ∷ [];
  workers = some r ∷ [];
  letters = ls;
  starts = true;
  commits = true;
}

-- A worker and a request that wait for each other.
abbrev pub ready : Db memory
ready =
    with_worker (worker_row WorkerState.armed 0) (some (letter_row LetterState.unassigned 1) ∷ [])

-- The worker has the request.
abbrev pub busy : Db memory
busy =
    with_worker (worker_row WorkerState.occupied 1) (some (letter_row LetterState.assigned 1) ∷ [])

-- An armed worker and no request.
abbrev pub idle : Db memory
idle = with_worker (worker_row WorkerState.armed 0) []

only_row :
    (r : XdbWorker) (i : ℕ) (q : XdbWorker) → memory.worker.get (some r ∷ []) i ≡ some q → i ≡ 1
only_row r zero q h = cc
only_row r (suc zero) q h = refl
only_row r (suc (suc i)) q h = cc

pub with_worker-UniqueIdentity :
    (r : XdbWorker) (ls : List (Option XdbLetter)) → UniqueIdentity memory (with_worker r ls)
with_worker-UniqueIdentity r ls i j q q' g g' e = only_row r i q g ∙ sym (only_row r j q' g')

-- What a property of the stored rows asks is asked of the only row.
pub with_worker_all :
    (P : XdbWorker → Type 0) (r : XdbWorker) (ls : List (Option XdbLetter))
    → P r
    → (i : ℕ) (q : XdbWorker) → memory.worker.get ((with_worker r ls).workers) i ≡ some q
    → P q
with_worker_all P r ls p zero q h = cc
with_worker_all P r ls p (suc zero) q h = let e : q ≡ r = cc in rw e p
with_worker_all P r ls p (suc (suc i)) q h = cc
