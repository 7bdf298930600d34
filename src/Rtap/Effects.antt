-- ===== src/Rtap/Effects.antt =====
-- The flag of a point, and what is not written, under GOFVALTI of
-- xdb/impl/xdb_impl_db_rtap.cpp.
use rtdbus.Base.{true, false, ◌≡◌, ◌⊎◌, ◌≢◌, inl, refl, arith}
use rtdbus.Rtap.Point.{Validity, SystemState, ValidChange, is_working, Point, Rc, ok, Field, Gof}
use rtdbus.Rtap.Gofvalti.{
  gofvalti, on_change, finish, start, on_fault, on_valid, on_forced, on_inhib, on_manual,
  on_end_inhib, on_inhib_gbl, on_end_inhib_gbl, on_fault_gbl, on_inhib_sa, on_end_inhib_sa,
}

-- Every write succeeds.
abbrev pub all_ok : Field → Rc
all_ok f = ok

module _ {Value : Type 0} where
  -- A case of the switch leaves the point as it is, or has marked it.
  abbrev MarksIt : Gof Value → Gof Value → Type 0
  MarksIt s s' = (s'.point ≡ s.point) ⊎ (s'.modified ≡ true)

  on_fault-MarksIt :
      (h : Validity) (sa : SystemState) (s : Gof Value) → MarksIt s (on_fault all_ok h sa s)
  unfolding on_fault
  on_fault-MarksIt h sa s = ground arith

  on_valid-MarksIt :
      (h : Validity) (sa : SystemState) (s : Gof Value) → MarksIt s (on_valid all_ok h sa s)
  unfolding on_valid
  on_valid-MarksIt h sa s = ground arith

  on_forced-MarksIt : (h : Validity) (s : Gof Value) → MarksIt s (on_forced all_ok h s)
  unfolding on_forced
  on_forced-MarksIt h s = ground arith

  on_inhib-MarksIt : (h : Validity) (s : Gof Value) → MarksIt s (on_inhib all_ok h s)
  unfolding on_inhib
  on_inhib-MarksIt h s = ground arith

  on_manual-MarksIt : (h : Validity) (s : Gof Value) → MarksIt s (on_manual all_ok h s)
  unfolding on_manual
  on_manual-MarksIt h s = ground arith

  on_end_inhib-MarksIt :
      (h : Validity) (sa : SystemState) (s : Gof Value) → MarksIt s (on_end_inhib all_ok h sa s)
  unfolding on_end_inhib
  on_end_inhib-MarksIt h sa s = ground arith

  on_inhib_gbl-MarksIt :
      (h : Validity) (sa : SystemState) (s : Gof Value) → MarksIt s (on_inhib_gbl all_ok h sa s)
  unfolding on_inhib_gbl
  on_inhib_gbl-MarksIt h sa s = ground arith

  on_end_inhib_gbl-MarksIt :
      (h : Validity) (s : Gof Value) → MarksIt s (on_end_inhib_gbl all_ok h s)
  unfolding on_end_inhib_gbl
  on_end_inhib_gbl-MarksIt h s = ground arith

  on_fault_gbl-MarksIt : (h : Validity) (s : Gof Value) → MarksIt s (on_fault_gbl all_ok h s)
  unfolding on_fault_gbl
  on_fault_gbl-MarksIt h s = ground arith

  on_inhib_sa-MarksIt : (h : Validity) (s : Gof Value) → MarksIt s (on_inhib_sa all_ok h s)
  unfolding on_inhib_sa
  on_inhib_sa-MarksIt h s = ground arith

  on_end_inhib_sa-MarksIt :
      (h : Validity) (sa : SystemState) (s : Gof Value) → MarksIt s (on_end_inhib_sa all_ok h sa s)
  unfolding on_end_inhib_sa
  on_end_inhib_sa-MarksIt h sa s = ground arith

  on_change-MarksIt :
      (c : ValidChange) (h : Validity) (sa : SystemState) (s : Gof Value)
      → MarksIt s (on_change all_ok c h sa s)
  unfolding on_change
  on_change-MarksIt ValidChange.fault h sa s = on_fault-MarksIt h sa s
  on_change-MarksIt ValidChange.valid h sa s = on_valid-MarksIt h sa s
  on_change-MarksIt ValidChange.forced h sa s = on_forced-MarksIt h s
  on_change-MarksIt ValidChange.inhib h sa s = on_inhib-MarksIt h s
  on_change-MarksIt ValidChange.manual h sa s = on_manual-MarksIt h s
  on_change-MarksIt ValidChange.end_inhib h sa s = on_end_inhib-MarksIt h sa s
  on_change-MarksIt ValidChange.end_forced h sa s = on_end_inhib-MarksIt h sa s
  on_change-MarksIt ValidChange.inhib_gbl h sa s = on_inhib_gbl-MarksIt h sa s
  on_change-MarksIt ValidChange.end_inhib_gbl h sa s = on_end_inhib_gbl-MarksIt h s
  on_change-MarksIt ValidChange.null h sa s = inl refl
  on_change-MarksIt ValidChange.fault_gbl h sa s = on_fault_gbl-MarksIt h s
  on_change-MarksIt ValidChange.inhib_sa h sa s = on_inhib_sa-MarksIt h s
  on_change-MarksIt ValidChange.end_inhib_sa h sa s = on_end_inhib_sa-MarksIt h sa s

  finish_flags :
      (s s' : Gof Value)
      → MarksIt s s'
      → ((finish all_ok s').0 ≡ ok)
        × (((finish all_ok s').1 ≡ s.point) ⊎ ((finish all_ok s').1.is_modified ≡ true))
  unfolding finish
  finish_flags s s' h = ground arith

  -- Where no write fails, the answer is success, and a point that is changed is flagged for the
  -- groups of subscription.
  pub gofvalti_flags :
      (sa : SystemState) (p : Point Value)
      → ((gofvalti all_ok sa p).0 ≡ ok)
        × (((gofvalti all_ok sa p).1 ≡ p) ⊎ ((gofvalti all_ok sa p).1.is_modified ≡ true))
  unfolding gofvalti
  gofvalti_flags sa p =
      finish_flags (start p) (on_change all_ok p.validchange p.validity sa (start p))
        (on_change-MarksIt p.validchange p.validity sa (start p))

module _ {Value : Type 0} (codes : Field → Rc) where
  -- While the acquisition system is not at work, its messages FAULT and VALID change nothing.
  pub gofvalti_offline :
      (sa : SystemState) (p : Point Value)
      → is_working sa ≡ false
      → (p.validchange ≡ ValidChange.fault) ⊎ (p.validchange ≡ ValidChange.valid)
      → gofvalti codes sa p ≡ (ok, p)
  unfolding gofvalti finish on_change on_fault on_valid
  gofvalti_offline sa p away message = ground arith

  -- FORCED never writes the validity of a point, and INHIB does so for an inquired point only.
  pub gofvalti_unwritten :
      (sa : SystemState) (p : Point Value)
      → (p.validchange ≡ ValidChange.forced)
        ⊎ ((p.validchange ≡ ValidChange.inhib) × (p.validity ≢ Validity.inquired))
      → (gofvalti codes sa p).1.validity ≡ p.validity
  unfolding gofvalti finish on_change on_forced on_inhib
  gofvalti_unwritten sa p c = ground arith
