-- ===== src/Rtap/Access/Runs.antt =====
-- Sequences of reads and writes, as DatabaseRtapImpl::read and write of xdb/impl/xdb_impl_db_rtap.cpp
-- answer them, and as the view of Spec does.
use rtdbus.Base.{
  ℕ, ◌≡◌, refl, sym, ◌∙◌, inl, inr, Bytes, bytes_eq, bytes_eq_iff, true, false, Option, none, some,
  List, [], ◌∷◌, ◌>>=◌, arith, Bool-cases, Option-cases, ==-self,
}
use rtdbus.Attribute.{AttributeInfo}
use rtdbus.Xdb.Table.{Table, IsTable}
use rtdbus.Rtap.Point.{is_ok}
use rtdbus.Rtap.Attributes.{Entry}
use rtdbus.Rtap.Access.{Maps, Db, ErrorCode, split_tag, found, write_to, write}
use rtdbus.Rtap.Access.Laws.{put-UniqueTags}
use rtdbus.Rtap.Access.Spec.{
  View, Command, Answer, view_read, set_entry, store_entry, write_entry, write_point, view_write,
  view_step, view_run, step, run, Represents, Agrees, KeepTags,
}
use rtdbus.Rtap.Access.Refines.{
  entry_cases, read-refines, entry_of-stored, found_stored, entry_of-put,
}

module _ (maps : Maps) (points : Table Entry) where
  Agrees-some :
      {A : Type 0} (o : Option (A × Db points maps)) (p : Option (A × View)) (x : A)
      (db : Db points maps) (s : View)
      → o ≡ some (x, db)
      → p ≡ some (x, s)
      → Represents maps points db s
      → Agrees maps points o p
  unfolding Agrees
  Agrees-some o p x db s one other same = rw (one, other) (refl, same)

  Agrees-none :
      {A : Type 0} (o : Option (A × Db points maps)) (p : Option (A × View))
      → o ≡ none
      → p ≡ none
      → Agrees maps points o p
  unfolding Agrees
  Agrees-none o p one other = rw (one, other) tt

  Agrees-bind :
      {A B : Type 0} (o : Option (A × Db points maps)) (p : Option (A × View))
      (f : A × Db points maps → Option (B × Db points maps)) (g : A × View → Option (B × View))
      → Agrees maps points o p
      → ((x : A) (db : Db points maps) (s : View)
          → Represents maps points db s
          → Agrees maps points (f (x, db)) (g (x, s)))
      → Agrees maps points (o >>= f) (p >>= g)
  unfolding Agrees
  Agrees-bind none none f g same next = tt
  Agrees-bind none (some r) f g same next = absurd same
  Agrees-bind (some r) none f g same next = absurd same
  Agrees-bind (some (x, db)) (some (y, s)) f g (eq, same) next = rw eq (next y db s same)

  module _ {blank : Entry} (laws : IsTable blank points) where
    put-Represents :
        (db : Db points maps) (s : View) (s' : points.Store) (i : ℕ) (e e' : Entry) (t : Bytes)
        → Represents maps points db s
        → points.get db.store i ≡ some e
        → e.tag ≡ t
        → e'.tag ≡ e.tag
        → points.put db.store i (record e' { is_modified = true }) ≡ some s'
        → Represents maps points (record db { store = s' }) (set_entry maps s t e')
    unfolding Represents set_entry
    put-Represents db s s' i e e' t (unique, starts, commits, same) there tag tag' put =
        let flagged : Entry = record e' { is_modified = true } in
        let db' : Db points maps = record db { store = s' } in
        let unique' =
          put-UniqueTags points maps laws db.store s' i e flagged unique there tag' put in
        let here : points.get s' i ≡ some flagged =
          rw (==-self i) at (laws.put_get db.store s' i flagged i put) in
        (
          unique',
          starts,
          commits,
          λ u. elim (Bool-cases (bytes_eq u t)) [
            | inl it ↦
                let tagged : flagged.tag ≡ u = tag' ∙ tag ∙ sym ((bytes_eq_iff u t).0 it) in
                rw it (entry_of-stored maps points laws db' i flagged u unique' here tagged)
            | inr other ↦
                let apart : bytes_eq u e.tag ≡ false = rw tag other in
                rw other (
                  entry_of-put maps points laws db s' i e flagged u unique there tag' put apart
                  ∙ same u)
          ],
        )

    -- A write of an attribute of a point that is there, where the transaction starts.
    write_some-Agrees :
        (db : Db points maps) (s : View) (t n : Bytes) (a : AttributeInfo) (i : ℕ) (e : Entry)
        → KeepTags maps
        → Represents maps points db s
        → db.starts ≡ true
        → found points maps db t ≡ some (i, e)
        → points.get db.store i ≡ some e
        → e.tag ≡ t
        → Agrees maps points (write_to points maps db (t, n) a) (write_point maps s (t, n) a)
    unfolding write_point write_entry store_entry Represents KeepTags
    write_some-Agrees db s t n a i e keep same starts hit there tag =
        let o = write_to points maps db (t, n) a in
        let p = write_point maps s (t, n) a in
        let starts' : s.starts ≡ true = sym same.1 ∙ starts in
        let has : s.point t ≡ some e =
          sym (same.3 t) ∙ entry_of-stored maps points laws db i e t same.0 there tag in
        let ends : s.commits ≡ db.commits = sym same.2 in
        elim (Option-cases (maps.writing n)) [
          | inl unknown ↦ elim (Bool-cases db.commits) [
            | inl commits ↦
                Agrees-some o p ErrorCode.no_error db s (ground arith) (ground arith) same
            | inr lost ↦
                Agrees-some o p ErrorCode.attr_not_found db s (ground arith) (ground arith) same
          ]
          | inr (f, by_f) ↦ elim (Option-cases (f e a)) [
            | inl failed ↦ Agrees-none o p (ground arith) (ground arith)
            | inr ((rc, e'), wrote) ↦
                let (s', put) =
                  laws.put_some db.store i e (record e' { is_modified = true }) there in
                elim (Bool-cases (is_ok rc)) [
                  | inl done ↦ elim (Bool-cases db.commits) [
                    | inl commits ↦
                        Agrees-some o p ErrorCode.no_error (record db { store = s' })
                          (set_entry maps s t e') (ground arith) (ground arith)
                          (put-Represents db s s' i e e' t same there tag
                            (keep n f e e' a rc by_f wrote) put)
                    | inr lost ↦
                        Agrees-some o p ErrorCode.runtime_error db s (ground arith) (ground arith)
                          same
                  ]
                  | inr bad ↦
                      Agrees-some o p ErrorCode.illegal_parameter_value db s (ground arith)
                        (ground arith) same
                ]
          ]
        ]

    write-refines :
        (db : Db points maps) (s : View) (a : AttributeInfo)
        → KeepTags maps
        → Represents maps points db s
        → Agrees maps points (write points maps db a) (view_write maps s a)
    unfolding write view_write write_point Represents
    write-refines db s a keep same =
        let o = write points maps db a in
        let p = view_write maps s a in
        elim (Option-cases (split_tag a.name)) [
          | inl bad ↦
              Agrees-some o p ErrorCode.attr_not_found db s (rw (write, bad) refl)
                (rw (view_write, bad) refl) same
          | inr ((t, n), names) ↦ elim (Bool-cases db.starts) [
            | inl starts ↦ elim (entry_cases maps points db t) [
              | inl (nothing, gone) ↦
                  let starts' : s.starts ≡ true = sym same.1 ∙ starts in
                  let gone' : s.point t ≡ none = sym (same.3 t) ∙ gone in
                  Agrees-some o p ErrorCode.point_not_found db s (ground arith) (ground arith) same
              | inr (i, e, hit, has) ↦
                  let (there, tag) = found_stored maps points laws db t i e hit in
                  rw (write, view_write, names)
                    (write_some-Agrees db s t n a i e keep same starts hit there tag)
            ]
            | inr failed ↦
                let failed' : s.starts ≡ false = sym same.1 ∙ failed in
                Agrees-some o p ErrorCode.runtime_error db s (ground arith) (ground arith) same
          ]
        ]

    step-refines :
        (db : Db points maps) (s : View) (c : Command)
        → KeepTags maps
        → Represents maps points db s
        → Agrees maps points (step maps points db c) (view_step maps s c)
    unfolding step view_step
    step-refines db s (Command.ask a) keep same =
        Agrees-some _ _ (Answer.asked (view_read maps s a).0 (view_read maps s a).1) db s
          (rw (read-refines maps points db s a same) refl) refl same
    step-refines db s (Command.tell a) keep same =
        Agrees-bind (write points maps db a) (view_write maps s a)
          (λ r. some (Answer.told r.0, r.1)) (λ r. some (Answer.told r.0, r.1))
          (write-refines db s a keep same)
          (λ error db' s' same'. Agrees-some _ _ (Answer.told error) db' s' refl refl same')

    -- Any sequence of reads and writes of attributes is answered as by the view, in which each tag
    -- has a point and a write that succeeds changes the point of that tag alone, and the database
    -- that is left represents the view that is left: where no two stored points have one tag and
    -- the writing functions leave the tag as it is. This holds whether transactions start and are
    -- committed or not, and for known and unknown names, points and attributes.
    pub run-refines :
        (cs : List Command) (db : Db points maps) (s : View)
        → KeepTags maps
        → Represents maps points db s
        → Agrees maps points (run maps points db cs) (view_run maps s cs)
    unfolding run view_run Agrees
    run-refines [] db s keep same = (refl, same)
    run-refines (c ∷ cs) db s keep same =
        Agrees-bind (step maps points db c) (view_step maps s c)
          (λ r. run maps points r.1 cs >>= λ rest. some (r.0 ∷ rest.0, rest.1))
          (λ r. view_run maps r.1 cs >>= λ rest. some (r.0 ∷ rest.0, rest.1))
          (step-refines db s c keep same)
          (λ x db' s' same'.
            Agrees-bind (run maps points db' cs) (view_run maps s' cs)
              (λ rest. some (x ∷ rest.0, rest.1)) (λ rest. some (x ∷ rest.0, rest.1))
              (run-refines cs db' s' keep same')
              (λ xs db'' s'' same''. Agrees-some _ _ (x ∷ xs) db'' s'' refl refl same''))
