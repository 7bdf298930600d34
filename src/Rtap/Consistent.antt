-- ===== src/Rtap/Consistent.antt =====
-- The validities that a point keeps to under GOFVALTI of xdb/impl/xdb_impl_db_rtap.cpp.
use rtdbus.Base.{Bool, true, false, ◌≡◌, ◌||◌, ap, ◌∙◌, arith}
use rtdbus.Rtap.Point.{
  Validity, SystemState, ValidChange, is_valid, is_fault, Point, Rc, Field, Gof,
}
use rtdbus.Rtap.Gofvalti.{
  gofvalti, on_change, finish, start, on_fault, on_valid, on_forced, on_inhib, on_manual,
  on_end_inhib, on_inhib_gbl, on_end_inhib_gbl, on_fault_gbl, on_inhib_sa, on_end_inhib_sa,
}

-- The validities that the messages lead to.
abbrev pub is_plain : Validity → Bool
is_plain Validity.no_instrum = false
is_plain Validity.global_fault = false
is_plain _ = true

abbrev pub is_acquired : Validity → Bool
is_acquired v = is_valid v || is_fault v

module _ {Value : Type 0} where
  pub record IsConsistent (p : Point Value) : Type 0 where
    pub plain : is_plain p.validity ≡ true
    pub acquired : is_acquired p.validity_acq ≡ true

  abbrev IsSound : Gof Value → Type 0
  IsSound s = (is_plain s.point.validity ≡ true) × (is_acquired s.point.validity_acq ≡ true)

  on_fault-IsSound :
      (codes : Field → Rc) (h : Validity) (sa : SystemState) (s : Gof Value)
      → is_plain h ≡ true
      → IsSound s
      → IsSound (on_fault codes h sa s)
  unfolding on_fault
  on_fault-IsSound codes h sa s p k = ground arith

  on_valid-IsSound :
      (codes : Field → Rc) (h : Validity) (sa : SystemState) (s : Gof Value)
      → is_plain h ≡ true
      → IsSound s
      → IsSound (on_valid codes h sa s)
  unfolding on_valid
  on_valid-IsSound codes h sa s p k = ground arith

  on_forced-IsSound :
      (codes : Field → Rc) (h : Validity) (s : Gof Value)
      → is_plain h ≡ true
      → IsSound s
      → IsSound (on_forced codes h s)
  unfolding on_forced
  on_forced-IsSound codes h s p k = ground arith

  on_inhib-IsSound :
      (codes : Field → Rc) (h : Validity) (s : Gof Value)
      → is_plain h ≡ true
      → IsSound s
      → IsSound (on_inhib codes h s)
  unfolding on_inhib
  on_inhib-IsSound codes h s p k = ground arith

  on_manual-IsSound :
      (codes : Field → Rc) (h : Validity) (s : Gof Value)
      → is_plain h ≡ true
      → IsSound s
      → IsSound (on_manual codes h s)
  unfolding on_manual
  on_manual-IsSound codes h s p k = ground arith

  on_end_inhib-IsSound :
      (codes : Field → Rc) (h : Validity) (sa : SystemState) (s : Gof Value)
      → is_plain h ≡ true
      → IsSound s
      → IsSound (on_end_inhib codes h sa s)
  unfolding on_end_inhib
  on_end_inhib-IsSound codes h sa s p k = ground arith

  on_inhib_gbl-IsSound :
      (codes : Field → Rc) (h : Validity) (sa : SystemState) (s : Gof Value)
      → is_plain h ≡ true
      → IsSound s
      → IsSound (on_inhib_gbl codes h sa s)
  unfolding on_inhib_gbl
  on_inhib_gbl-IsSound codes h sa s p k = ground arith

  on_end_inhib_gbl-IsSound :
      (codes : Field → Rc) (h : Validity) (s : Gof Value)
      → is_plain h ≡ true
      → IsSound s
      → IsSound (on_end_inhib_gbl codes h s)
  unfolding on_end_inhib_gbl
  on_end_inhib_gbl-IsSound codes h s p k = ground arith

  on_fault_gbl-IsSound :
      (codes : Field → Rc) (h : Validity) (s : Gof Value)
      → is_plain h ≡ true
      → IsSound s
      → IsSound (on_fault_gbl codes h s)
  unfolding on_fault_gbl
  on_fault_gbl-IsSound codes h s p k = ground arith

  on_inhib_sa-IsSound :
      (codes : Field → Rc) (h : Validity) (s : Gof Value)
      → is_plain h ≡ true
      → IsSound s
      → IsSound (on_inhib_sa codes h s)
  unfolding on_inhib_sa
  on_inhib_sa-IsSound codes h s p k = ground arith

  on_end_inhib_sa-IsSound :
      (codes : Field → Rc) (h : Validity) (sa : SystemState) (s : Gof Value)
      → is_plain h ≡ true
      → IsSound s
      → IsSound (on_end_inhib_sa codes h sa s)
  unfolding on_end_inhib_sa
  on_end_inhib_sa-IsSound codes h sa s p k = ground arith

  on_change-IsSound :
      (codes : Field → Rc) (c : ValidChange) (h : Validity) (sa : SystemState) (s : Gof Value)
      → is_plain h ≡ true
      → IsSound s
      → IsSound (on_change codes c h sa s)
  unfolding on_change
  on_change-IsSound codes ValidChange.fault h sa s p k = on_fault-IsSound codes h sa s p k
  on_change-IsSound codes ValidChange.valid h sa s p k = on_valid-IsSound codes h sa s p k
  on_change-IsSound codes ValidChange.forced h sa s p k = on_forced-IsSound codes h s p k
  on_change-IsSound codes ValidChange.inhib h sa s p k = on_inhib-IsSound codes h s p k
  on_change-IsSound codes ValidChange.manual h sa s p k = on_manual-IsSound codes h s p k
  on_change-IsSound codes ValidChange.end_inhib h sa s p k = on_end_inhib-IsSound codes h sa s p k
  on_change-IsSound codes ValidChange.end_forced h sa s p k = on_end_inhib-IsSound codes h sa s p k
  on_change-IsSound codes ValidChange.inhib_gbl h sa s p k = on_inhib_gbl-IsSound codes h sa s p k
  on_change-IsSound codes ValidChange.end_inhib_gbl h sa s p k =
      on_end_inhib_gbl-IsSound codes h s p k
  on_change-IsSound codes ValidChange.null h sa s p k = k
  on_change-IsSound codes ValidChange.fault_gbl h sa s p k = on_fault_gbl-IsSound codes h s p k
  on_change-IsSound codes ValidChange.inhib_sa h sa s p k = on_inhib_sa-IsSound codes h s p k
  on_change-IsSound codes ValidChange.end_inhib_sa h sa s p k =
      on_end_inhib_sa-IsSound codes h sa s p k

  finish_validities :
      (codes : Field → Rc) (s : Gof Value)
      → ((finish codes s).1.validity ≡ s.point.validity)
        × ((finish codes s).1.validity_acq ≡ s.point.validity_acq)
  unfolding finish
  finish_validities codes s = ground arith

  pub gofvalti-IsConsistent :
      (codes : Field → Rc) (sa : SystemState) (p : Point Value)
      → IsConsistent p
      → IsConsistent (gofvalti codes sa p).1
  unfolding gofvalti
  gofvalti-IsConsistent codes sa p h =
      let s = on_change codes p.validchange p.validity sa (start p) in
      let (same, same_acq) = finish_validities codes s in
      let (plain, acquired) =
        on_change-IsSound codes p.validchange p.validity sa (start p) h.plain
          (h.plain, h.acquired) in
      record { plain = ap is_plain same ∙ plain; acquired = ap is_acquired same_acq ∙ acquired }
