-- ===== src/Rtap/Messages.antt =====
-- Messages to an analog point, one after the other, by GOFVALTI of xdb/impl/xdb_impl_db_rtap.cpp.
use rtdbus.Base.{true, false, ◌≡◌, List, [], ◌∷◌, arith, ◌⊎◌}
use rtdbus.Rtap.Point.{Validity, SystemState, ValidChange, Point, Rc, Field, is_inhibited}
use rtdbus.Rtap.Gofvalti.{gofvalti, on_change, finish, is_held}
use rtdbus.Rtap.Effects.{all_ok}
use rtdbus.Rtap.Consistent.{is_acquired, IsConsistent, gofvalti-IsConsistent}

-- A change that is written to the point, with the value that was acquired with it, the state of the
-- acquisition system, and the codes of the writes that it leads to.
pub record Message (Value : Type 0) : Type 0 where
  pub change : ValidChange
  pub value : Value
  pub system : SystemState
  pub codes : Field → Rc

module _ {Value : Type 0} where
  unfoldable pub written : Message Value → Point Value → Point Value
  written msg p = record p { validchange = msg.change; valacq = msg.value }

  unfoldable pub handled : Message Value → Point Value → Point Value
  unfolding gofvalti written
  handled msg p = (gofvalti msg.codes msg.system (written msg p)).1

  unfoldable pub handle_all : List (Message Value) → Point Value → Point Value
  unfolding handled
  handle_all [] p = p
  handle_all (msg ∷ msgs) p = handle_all msgs (handled msg p)

  -- Whatever messages come to an analog point, and whatever writes fail, the acquired validity
  -- stays FAULT or VALID, as the comparisons with true and false take for granted, and the
  -- validity does not become NO_INSTRUM or GLOBAL_FAULT.
  pub handle_all-IsConsistent :
      (msgs : List (Message Value)) (p : Point Value)
      → IsConsistent p
      → IsConsistent (handle_all msgs p)
  unfolding handle_all handled written
  handle_all-IsConsistent [] p h = h
  handle_all-IsConsistent (msg ∷ msgs) p h =
      let p' = written msg p in
      handle_all-IsConsistent msgs (handled msg p) (
        gofvalti-IsConsistent msg.codes msg.system p'
          (record { plain = h.plain; acquired = h.acquired }))

  abbrev pub said : ValidChange → Value → SystemState → Message Value
  said c v sa = record { change = c; value = v; system = sa; codes = all_ok }

  -- The inhibition of a point by its acquisition system holds the point, and its end gives the
  -- point its validity back, where no write fails, the point is not inhibited otherwise, its
  -- validity is the acquired one, FAULT or VALID, and the system is at work again; a point that is
  -- not FAULT has the acquired value then.
  pub inhib_sa-end :
      (sa : SystemState) (v v' : Value) (p : Point Value)
      → p.inhib ≡ false
      → p.inhiblocal ≡ false
      → p.validity ≡ p.validity_acq
      → is_acquired p.validity_acq ≡ true
      → (is_held (handled (said ValidChange.inhib_sa v sa) p).validity ≡ true)
        × ((handle_all
              (said ValidChange.inhib_sa v sa
                ∷ said ValidChange.end_inhib_sa v' SystemState.working
                ∷ [])
              p).validity
            ≡ p.validity)
        × (((handle_all
                (said ValidChange.inhib_sa v sa
                  ∷ said ValidChange.end_inhib_sa v' SystemState.working
                  ∷ [])
                p).val
              ≡ v')
            ⊎ (p.validity ≡ Validity.fault))
  unfolding handle_all handled written gofvalti finish on_change
  inhib_sa-end sa v v' p free unlocked same known = ground arith

  -- INHIB_GBL and END_INHIB_GBL act as each other's name says: where no write fails, the
  -- acquisition system is not inhibited, the point is not inhibited otherwise and its acquired
  -- validity is VALID, a point that is VALID or inhibited is VALID after INHIB_GBL, and inhibited
  -- after END_INHIB_GBL.
  pub gbl_exchanged :
      (sa : SystemState) (v : Value) (p : Point Value)
      → is_inhibited sa ≡ false
      → p.inhib ≡ false
      → p.inhiblocal ≡ false
      → p.validity_acq ≡ Validity.valid
      → (p.validity ≡ Validity.valid) ⊎ (p.validity ≡ Validity.inhibition)
      → ((handled (said ValidChange.inhib_gbl v sa) p).validity ≡ Validity.valid)
        × ((handled (said ValidChange.end_inhib_gbl v sa) p).validity ≡ Validity.inhibition)
  unfolding handled written gofvalti finish on_change
  gbl_exchanged sa v p running free unlocked acquired state = ground arith
