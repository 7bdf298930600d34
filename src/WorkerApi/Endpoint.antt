-- ===== src/WorkerApi/Endpoint.antt =====
-- The conversion of an endpoint for bind, getEndpoint (true) of mdp/mdp_worker_api.cpp.
use rtdbus.Base.{
  ℕ, ◌≤◌, Bytes, Bool, true, false, ◌||◌, ◌≡◌, refl, none, some, [], ◌∷◌, ◌++◌, ◌==◌, leb, length,
  arith,
}
use rtdbus.WorkerApi.{split_last, to_bind}

-- Does the byte stand in the text?
abbrev pub has : ℕ → Bytes → Bool
has c [] = false
has c (x ∷ xs) = x == c || has c xs

split_last-none : (c : ℕ) (xs : Bytes) → has c xs ≡ false → split_last c xs ≡ none
unfolding split_last
split_last-none c [] h = refl
split_last-none c (x ∷ xs) h = ground (arith, split_last-none c xs)

split_last-++ :
    (c : ℕ) (before after : Bytes)
    → has c after ≡ false
    → split_last c (before ++ c ∷ after) ≡ some (before, after)
unfolding split_last
split_last-++ c [] after h = ground (arith, split_last-none c after h)
split_last-++ c (x ∷ before) after h = rw (split_last, split_last-++ c before after h) refl

-- The endpoint for bind has "*" in place of the host, where the host has two characters or more,
-- no slash stands in host and port, and no colon in the port.
pub to_bind_lem :
    (before host port : Bytes)
    → has b'/' (host ++ b':' ∷ port) ≡ false
    → has b':' port ≡ false
    → 2 ≤ length host
    → to_bind (before ++ b'/' ∷ (host ++ b':' ∷ port)) ≡ some (before ++ b'/' ∷ b'*' ∷ b':' ∷ port)
unfolding to_bind
to_bind_lem before host port no_slash no_colon long =
    let enough : leb 2 (length host) ≡ true = ground arith in
    rw
      (
        to_bind,
        split_last-++ b'/' before (host ++ b':' ∷ port) no_slash,
        split_last-++ b':' host port no_colon,
        enough,
      )
      refl
