-- ===== src/Rtap/Tests.antt =====
-- Examples of the properties of analog points. A value is a number of thousandths.
use rtdbus.Base.{ℕ, true, false, ◌≡◌, ◌⊎◌, inl, inr, refl, [], ◌∷◌}
use rtdbus.Rtap.Point.{Validity, SystemState, ValidChange, Point, Rc, ok, failure, Field}
use rtdbus.Rtap.Gofvalti.{gofvalti, is_held}
use rtdbus.Rtap.Update.{ObjClass, SaLink, on_update_validchange}
use rtdbus.Rtap.Values.{gofvalti_val}
use rtdbus.Rtap.Effects.{all_ok, gofvalti_offline, gofvalti_unwritten}
use rtdbus.Rtap.Consistent.{IsConsistent}
use rtdbus.Rtap.Messages.{
  Message, handled, handle_all, said, handle_all-IsConsistent, inhib_sa-end, gbl_exchanged,
}

abbrev pressure : Point ℕ
pressure = record {
  validchange = ValidChange.valid;
  validity = Validity.valid;
  validity_acq = Validity.valid;
  val = 5100;
  valacq = 5200;
  valmanual = 4000;
  inhiblocal = false;
  inhib = false;
  is_modified = false;
}

-- The writing of the value fails.
abbrev no_value : Field → Rc
no_value Field.val = failure 3
no_value _ = ok

on_update_runs :
    on_update_validchange all_ok ok ObjClass.tm SaLink.unlinked pressure
    ≡ (ok, record pressure { val = 5200; is_modified = true })
unfolding on_update_validchange
on_update_runs = refl

-- A forced point has the manual value, and is still VALID.
forced_runs :
    gofvalti all_ok SystemState.working (record pressure { validchange = ValidChange.forced }) ≡ (
      ok,
      record pressure {
        validchange = ValidChange.forced;
        val = 4000;
        inhiblocal = true;
        is_modified = true;
      },
    )
unfolding gofvalti
forced_runs = refl

gofvalti_val_example :
    ((gofvalti all_ok SystemState.working pressure).1.val ≡ 5100)
    ⊎ ((gofvalti all_ok SystemState.working pressure).1.val ≡ 5200)
gofvalti_val_example = gofvalti_val all_ok SystemState.working pressure

gofvalti_offline_example : gofvalti all_ok SystemState.broken_down pressure ≡ (ok, pressure)
gofvalti_offline_example = gofvalti_offline all_ok SystemState.broken_down pressure refl (inr refl)

abbrev force : Point ℕ
force = record pressure { validchange = ValidChange.forced }

gofvalti_unwritten_example : (gofvalti all_ok SystemState.working force).1.validity ≡ Validity.valid
gofvalti_unwritten_example = gofvalti_unwritten all_ok SystemState.working force (inl refl)

handle_all-IsConsistent_example : IsConsistent (
    handle_all
      (said ValidChange.fault 5300 SystemState.working
        ∷ said ValidChange.manual 5300 SystemState.working
        ∷ [])
      pressure)
handle_all-IsConsistent_example =
    handle_all-IsConsistent
      (said ValidChange.fault 5300 SystemState.working
        ∷ said ValidChange.manual 5300 SystemState.working
        ∷ [])
      pressure (record { plain = refl; acquired = refl })

-- The point is inquired then, with the manual value.
manual_runs :
    (handle_all
      (said ValidChange.fault 5300 SystemState.working
        ∷ said ValidChange.manual 5300 SystemState.working
        ∷ [])
      pressure).validity
    ≡ Validity.inquired
unfolding handle_all
manual_runs = refl

abbrev stopped : Message ℕ
stopped = said ValidChange.inhib_sa 5300 SystemState.inhibited

abbrev resumed : Message ℕ
resumed = said ValidChange.end_inhib_sa 5400 SystemState.working

inhib_sa-end_example :
    (is_held (handled stopped pressure).validity ≡ true)
    × ((handle_all (stopped ∷ resumed ∷ []) pressure).validity ≡ Validity.valid)
    × (((handle_all (stopped ∷ resumed ∷ []) pressure).val ≡ 5400)
        ⊎ (◌≡◌ {A = Validity} Validity.valid Validity.fault))
inhib_sa-end_example = inhib_sa-end SystemState.inhibited 5300 5400 pressure refl refl refl refl

gbl_exchanged_example :
    ((handled (said ValidChange.inhib_gbl 5300 SystemState.working) pressure).validity
      ≡ Validity.valid)
    × ((handled (said ValidChange.end_inhib_gbl 5300 SystemState.working) pressure).validity
        ≡ Validity.inhibition)
gbl_exchanged_example =
    gbl_exchanged SystemState.working 5300 pressure refl refl refl refl (inl refl)
