-- ===== src/Xdb/ServiceList/Walk.antt =====
-- A walk through the ServiceList of xdb/impl/xdb_impl_db_broker.cpp.
use mathlib.Core.List.{append_assoc}
use rtdbus.Base.{
  true, false, sym, ltb→lt, ℕ, zero, suc, ◌+◌, ◌≤◌, ◌≡◌, ◌∙◌, refl, ap, Option, none, some, List,
  [], ◌∷◌, ◌++◌, length, get_elem?, arith, length-append, Bool-cases, Option-cases, inl, inr, ltb,
}
use rtdbus.Xdb.Service.{Service}
use rtdbus.Xdb.ServiceList.{ServiceList, size, first, next, prev}

-- for (srv = first (); srv; srv = next ()), for at most so many turns: the services that are met,
-- and whether the null pointer that ends the loop was.
unfoldable pub collect : ℕ → Option Service × ServiceList → Option (List Service × ServiceList)
collect n (none, l) = some ([], l)
collect zero (some srv, l) = none
collect (suc n) (some srv, l) = elim (collect n (next l)) [
  | none ↦ none
  | some (rest, l') ↦ some (srv ∷ rest, l')
]

collect-some :
    (n : ℕ) (srv : Service) (l : ServiceList) (rest : List Service) (l' : ServiceList)
    → collect n (next l) ≡ some (rest, l')
    → collect (suc n) (some srv, l) ≡ some (srv ∷ rest, l')
unfolding collect
collect-some n srv l rest l' h = rw (collect, h) refl

pub collect-none :
    (n : ℕ) (l l' : ServiceList) (srvs : List Service)
    → collect n (none, l) ≡ some (srvs, l')
    → (l ≡ l') × (srvs ≡ [])
unfolding collect
collect-none n l l' srvs h = (cc, cc)

pub collect-suc :
    (n : ℕ) (srv : Service) (l l' : ServiceList) (srvs : List Service)
    → collect (suc n) (some srv, l) ≡ some (srvs, l')
    → (rest : List Service) × (collect n (next l) ≡ some (rest, l')) × (srvs ≡ srv ∷ rest)
unfolding collect
collect-suc n srv l l' srvs h = elim (Option-cases (collect n (next l))) [
  | inl stopped ↦ cc (rw (collect, stopped) at h)
  | inr ((rest, l''), went) ↦
      let e : some (srv ∷ rest, l'') ≡ some (srvs, l') = rw (collect, went) at h in (rest, cc, cc)
]

-- The list of these services, at a position.
abbrev placed : ℕ → List Service → ServiceList
placed i xs = record { current_index = i; array = xs }

get_elem?-middle :
    (xs : List Service) (y : Service) (ys : List Service)
    → get_elem? (xs ++ y ∷ ys) (length xs) ≡ some y
get_elem?-middle [] y ys = refl
get_elem?-middle (x ∷ xs) y ys = get_elem?-middle xs y ys

get_elem?-outside : (xs : List Service) (i : ℕ) → length xs ≤ i → get_elem? xs i ≡ none
get_elem?-outside [] i h = refl
get_elem?-outside (x ∷ xs) zero h = absurd (omega arith)
get_elem?-outside (x ∷ xs) (suc i) h = get_elem?-outside xs i (omega arith)

next_inside :
    (xs before : List Service) (srv : Service) (rest : List Service)
    → xs ≡ before ++ srv ∷ rest
    → next (placed (length before) xs) ≡ (some srv, placed (length before + 1) xs)
unfolding next size
next_inside xs before srv rest e =
    let many : length xs ≡ length before + length (srv ∷ rest) =
      rw e (length-append before (srv ∷ rest)) in
    let inside : ltb (length before) (length xs) ≡ true = ground arith in
    let there : get_elem? xs (length before) ≡ some srv = rw e (get_elem?-middle before srv rest) in
    rw (next, inside, there) refl

next_outside : (xs : List Service) → next (placed (length xs) xs) ≡ (none, placed (length xs) xs)
unfolding next size
next_outside xs =
    let outside : ltb (length xs) (length xs) ≡ false = ground arith in rw (next, outside) refl

-- From a position on, next gives what lies ahead, and then nothing.
collect-next :
    (xs rest before : List Service) (i : ℕ)
    → xs ≡ before ++ rest
    → i ≡ length before
    → collect (length rest) (next (placed i xs)) ≡ some (rest, placed (length xs) xs)
unfolding collect
collect-next xs [] before i e p =
    let many : length xs ≡ length before + 0 = rw e (length-append before []) in
    let here : i ≡ length xs = omega arith in
    ap (λ k. collect zero (next (placed k xs))) here ∙ ap (collect zero) (next_outside xs)
collect-next xs (srv ∷ rest) before i e p =
    let met : next (placed i xs) ≡ (some srv, placed (length before + 1) xs) =
      rw p (next_inside xs before srv rest e) in
    let ahead =
      collect-next xs rest (before ++ srv ∷ []) (length before + 1)
        (e ∙ sym (append_assoc before (srv ∷ []) rest))
        (rw (length-append before (srv ∷ [])) refl) in
    ap (collect (length (srv ∷ rest))) met ∙ collect-some (length rest) srv _ rest _ ahead

prev-none : (l : ServiceList) → (prev l).0 ≡ none
unfolding prev size
prev-none l = elim (Bool-cases (ltb (length l.array) l.current_index)) [
  | inl beyond ↦
      rw (prev, beyond)
        (get_elem?-outside l.array l.current_index
          (omega (arith, ltb→lt (length l.array) l.current_index)))
  | inr inside ↦ rw (prev, inside) refl
]

first-some :
    (srv : Service) (rest : List Service) (i : ℕ)
    → first (placed i (srv ∷ rest)) ≡ (some srv, placed 1 (srv ∷ rest))
unfolding first size
first-some srv rest i = ground arith

collect_start :
    (xs : List Service) (i : ℕ)
    → collect (length xs) (first (placed i xs)) ≡ some (xs, placed (length xs) xs)
unfolding first size collect
collect_start [] i = refl
collect_start (srv ∷ rest) i =
    ap (collect (length (srv ∷ rest))) (first-some srv rest i)
    ∙ collect-some (length rest) srv _ rest _
        (collect-next (srv ∷ rest) rest (srv ∷ []) 1 refl refl)

-- Wherever the position of the list of services is, the loop from first on by next meets every
-- service once, in order, and ends after as many turns as there are services; next then gives
-- nothing, and prev gives nothing from any position.
pub collect-first :
    (l : ServiceList)
    → (collect (length l.array) (first l)
        ≡ some (l.array, record l { current_index = length l.array }))
      × ((next (record l { current_index = length l.array })).0 ≡ none)
      × ((prev l).0 ≡ none)
collect-first l =
    (collect_start l.array l.current_index, ap (λ p. p.0) (next_outside l.array), prev-none l)
