-- ===== src/Rtap/Values.antt =====
-- What GOFVALTI of xdb/impl/xdb_impl_db_rtap.cpp does to the value, the flag and the validity of a point.
use rtdbus.Base.{◌≡◌, ◌⊎◌, refl, arith}
use rtdbus.Rtap.Point.{Validity, SystemState, ValidChange, Point, Rc, ok, Field, Gof}
use rtdbus.Rtap.Gofvalti.{
  gofvalti, on_change, finish, start, on_fault, on_valid, on_forced, on_inhib, on_manual,
  on_end_inhib, on_inhib_gbl, on_end_inhib_gbl, on_fault_gbl, on_inhib_sa, on_end_inhib_sa,
}

-- What a change may do to the value.
abbrev pub MayBecome : {Value : Type 0} → ValidChange → Point Value → Value → Type 0
MayBecome ValidChange.forced p v = (v ≡ p.val) ⊎ (v ≡ p.valmanual)
MayBecome ValidChange.manual p v = (v ≡ p.val) ⊎ (v ≡ p.valmanual)
MayBecome ValidChange.fault p v = v ≡ p.val
MayBecome ValidChange.inhib p v = v ≡ p.val
MayBecome ValidChange.end_inhib_gbl p v = v ≡ p.val
MayBecome ValidChange.null p v = v ≡ p.val
MayBecome ValidChange.fault_gbl p v = v ≡ p.val
MayBecome ValidChange.inhib_sa p v = v ≡ p.val
MayBecome _ p v = (v ≡ p.val) ⊎ (v ≡ p.valacq)

module _ {Value : Type 0} (codes : Field → Rc) where
  -- Whatever is written and fails, the answer is success or the code of the last write, that of
  -- the flag.
  pub gofvalti_rc :
      (sa : SystemState) (p : Point Value)
      → ((gofvalti codes sa p).0 ≡ ok) ⊎ ((gofvalti codes sa p).0 ≡ codes Field.is_modified)
  unfolding gofvalti finish
  gofvalti_rc sa p = ground arith

  -- The value is kept, or is the acquired one.
  abbrev KeepsOrAcquires : Gof Value → Gof Value → Type 0
  KeepsOrAcquires s s' = (s'.point.val ≡ s.point.val) ⊎ (s'.point.val ≡ s.point.valacq)

  on_fault_val :
      (h : Validity) (sa : SystemState) (s : Gof Value)
      → (on_fault codes h sa s).point.val ≡ s.point.val
  unfolding on_fault
  on_fault_val h sa s = ground arith

  on_valid_val :
      (h : Validity) (sa : SystemState) (s : Gof Value) → KeepsOrAcquires s (on_valid codes h sa s)
  unfolding on_valid
  on_valid_val h sa s = ground arith

  on_forced_val :
      (h : Validity) (s : Gof Value)
      → ((on_forced codes h s).point.val ≡ s.point.val)
        ⊎ ((on_forced codes h s).point.val ≡ s.point.valmanual)
  unfolding on_forced
  on_forced_val h s = ground arith

  on_inhib_val : (h : Validity) (s : Gof Value) → (on_inhib codes h s).point.val ≡ s.point.val
  unfolding on_inhib
  on_inhib_val h s = ground arith

  on_manual_val :
      (h : Validity) (s : Gof Value)
      → ((on_manual codes h s).point.val ≡ s.point.val)
        ⊎ ((on_manual codes h s).point.val ≡ s.point.valmanual)
  unfolding on_manual
  on_manual_val h s = ground arith

  on_end_inhib_val :
      (h : Validity) (sa : SystemState) (s : Gof Value)
      → KeepsOrAcquires s (on_end_inhib codes h sa s)
  unfolding on_end_inhib
  on_end_inhib_val h sa s = ground arith

  on_inhib_gbl_val :
      (h : Validity) (sa : SystemState) (s : Gof Value)
      → KeepsOrAcquires s (on_inhib_gbl codes h sa s)
  unfolding on_inhib_gbl
  on_inhib_gbl_val h sa s = ground arith

  on_end_inhib_gbl_val :
      (h : Validity) (s : Gof Value) → (on_end_inhib_gbl codes h s).point.val ≡ s.point.val
  unfolding on_end_inhib_gbl
  on_end_inhib_gbl_val h s = ground arith

  on_fault_gbl_val :
      (h : Validity) (s : Gof Value) → (on_fault_gbl codes h s).point.val ≡ s.point.val
  unfolding on_fault_gbl
  on_fault_gbl_val h s = ground arith

  on_inhib_sa_val : (h : Validity) (s : Gof Value) → (on_inhib_sa codes h s).point.val ≡ s.point.val
  unfolding on_inhib_sa
  on_inhib_sa_val h s = ground arith

  on_end_inhib_sa_val :
      (h : Validity) (sa : SystemState) (s : Gof Value)
      → KeepsOrAcquires s (on_end_inhib_sa codes h sa s)
  unfolding on_end_inhib_sa
  on_end_inhib_sa_val h sa s = ground arith

  finish_val : (s : Gof Value) → (finish codes s).1.val ≡ s.point.val
  unfolding finish
  finish_val s = ground arith

  on_change_val :
      (c : ValidChange) (sa : SystemState) (p : Point Value)
      → MayBecome c p (on_change codes c p.validity sa (start p)).point.val
  unfolding on_change
  on_change_val ValidChange.fault sa p = on_fault_val p.validity sa (start p)
  on_change_val ValidChange.valid sa p = on_valid_val p.validity sa (start p)
  on_change_val ValidChange.forced sa p = on_forced_val p.validity (start p)
  on_change_val ValidChange.inhib sa p = on_inhib_val p.validity (start p)
  on_change_val ValidChange.manual sa p = on_manual_val p.validity (start p)
  on_change_val ValidChange.end_inhib sa p = on_end_inhib_val p.validity sa (start p)
  on_change_val ValidChange.end_forced sa p = on_end_inhib_val p.validity sa (start p)
  on_change_val ValidChange.inhib_gbl sa p = on_inhib_gbl_val p.validity sa (start p)
  on_change_val ValidChange.end_inhib_gbl sa p = on_end_inhib_gbl_val p.validity (start p)
  on_change_val ValidChange.null sa p = refl
  on_change_val ValidChange.fault_gbl sa p = on_fault_gbl_val p.validity (start p)
  on_change_val ValidChange.inhib_sa sa p = on_inhib_sa_val p.validity (start p)
  on_change_val ValidChange.end_inhib_sa sa p = on_end_inhib_sa_val p.validity sa (start p)

  -- What a message may do to the value of a point, whatever writes fail: FORCED and MANUAL keep it
  -- or take the manual one; VALID, END_INHIB, END_FORCED, INHIB_GBL and END_INHIB_SA keep it or
  -- take the acquired one; the others keep it.
  pub gofvalti_val :
      (sa : SystemState) (p : Point Value) → MayBecome p.validchange p (gofvalti codes sa p).1.val
  unfolding gofvalti
  gofvalti_val sa p =
      rw (gofvalti, finish_val (on_change codes p.validchange p.validity sa (start p)))
        (on_change_val p.validchange sa p)
