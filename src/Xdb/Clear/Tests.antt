-- ===== src/Xdb/Clear/Tests.antt =====
-- Examples of the properties of the list of services, and of the clearing of services.
use rtdbus.Base.{ℕ, zero, suc, text, c_str, strncpy, Bool, ◌≡◌, refl, none, some, [], ◌∷◌}
use rtdbus.Xdb.Rows.{XdbLetter, WorkerState, LetterState}
use rtdbus.Xdb.Mco.{Db}
use rtdbus.Xdb.Memory.{memory, memory-IsMco}
use rtdbus.Xdb.Samples.{
  echo, busy, worker_row, letter_row, with_worker_all, with_worker-UniqueIdentity,
}
use rtdbus.Xdb.Workers.Identity.{IsAddressable}
use rtdbus.Xdb.ServiceList.{ServiceList, first, next, prev}
use rtdbus.Xdb.ServiceList.Walk.{collect, collect-first}
use rtdbus.Xdb.Clear.{clear_services}
use rtdbus.Xdb.Clear.Shrinks.{Shrinks}
use rtdbus.Xdb.Clear.Count.{IsClearable}
use rtdbus.Xdb.Clear.Services.{AreCleared, clear_services-Ends}

-- A list that has been walked through.
abbrev walked : ServiceList
walked = record {
  current_index = 2;
  array = echo ∷ record echo { id = 2; name = text "SINF" } ∷ [];
}

collect-first_example :
    (collect 2 (first walked) ≡ some (walked.array, walked))
    × ((next walked).0 ≡ none)
    × ((prev walked).0 ≡ none)
collect-first_example = collect-first walked

abbrev one_service : ServiceList
one_service = record { current_index = 0; array = echo ∷ [] }

only_letter :
    (i : ℕ) (l : XdbLetter)
    → memory.letter.get busy.letters i ≡ some l
    → l ≡ letter_row LetterState.assigned 1
only_letter zero l h = cc
only_letter (suc zero) l h = cc
only_letter (suc (suc i)) l h = cc

busy-IsClearable : IsClearable memory busy
unfolding c_str strncpy
busy-IsClearable = record {
  starts = refl;
  commits = refl;
  addressed = record {
    unique = with_worker-UniqueIdentity (worker_row WorkerState.occupied 1) busy.letters;
    fits =
        with_worker_all (λ r. IsAddressable r.identity) (worker_row WorkerState.occupied 1)
          busy.letters refl;
  };
  matched = record {
    same_service = λ i j l r gl gr own.
        let letter = only_letter i l gl in
        let worker =
          with_worker_all (λ q. ◌≡◌ {A = ℕ} 1 q.service_ref) (worker_row WorkerState.occupied 1)
            busy.letters refl j r gr in
        rw letter worker;
  };
}

clear_services-Ends_example :
    (status : Bool) × (db' : Db memory) × (clear_services memory busy (some one_service)
      ≡ some (status, db', some (record one_service { current_index = 1 })))
    × Shrinks memory busy db'
    × AreCleared memory db' (echo ∷ [])
clear_services-Ends_example =
    clear_services-Ends memory memory-IsMco busy one_service busy-IsClearable
