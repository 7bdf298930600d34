-- ===== src/Rtap/Point.antt =====
-- What GOFVALTI of xdb/impl/xdb_impl_db_rtap.cpp reads and writes of a point (XDBPoint and
-- AnalogInfoType of xdb/impl/dat/rtap_db.mco), and its writes, each of which may fail. A value is a
-- double of the source, which is only copied.
use rtdbus.Base.{ℕ, Bool, true, false}

pub data Validity : Type 0 where
  fault valid manual inhibition fault_inhib fault_forced inquired no_instrum global_fault : Validity

pub data SystemState : Type 0 where
  broken_down inhibited working : SystemState

pub data ValidChange : Type 0 where
  fault valid forced inhib manual end_inhib end_forced inhib_gbl end_inhib_gbl : ValidChange
  null fault_gbl inhib_sa end_inhib_sa : ValidChange

abbrev pub is_valid : Validity → Bool
is_valid Validity.valid = true
is_valid _ = false

abbrev pub is_fault : Validity → Bool
is_fault Validity.fault = true
is_fault _ = false

abbrev pub is_working : SystemState → Bool
is_working SystemState.working = true
is_working _ = false

abbrev pub is_inhibited : SystemState → Bool
is_inhibited SystemState.inhibited = true
is_inhibited _ = false

pub record Point (Value : Type 0) : Type 0 where
  pub validchange : ValidChange
  pub validity : Validity
  pub validity_acq : Validity
  pub val : Value
  pub valacq : Value
  pub valmanual : Value
  pub inhiblocal : Bool
  pub inhib : Bool
  pub is_modified : Bool

-- MCO_RET: success, MCO_S_NOTFOUND, or another code.
pub data Rc : Type 0 where
  ok : Rc
  not_found : Rc
  failure : ℕ → Rc

abbrev pub is_ok : Rc → Bool
is_ok ok = true
is_ok _ = false

-- The fields that are written.
pub data Field : Type 0 where
  validity validity_acq val inhiblocal is_modified : Field

-- The local variables of GOFVALTI, and the point.
pub record Gof (Value : Type 0) : Type 0 where
  pub point : Point Value
  pub valid_out : Validity
  pub validacq : Validity
  pub inhib_local : Bool
  pub modified : Bool
  pub rc : Rc

-- The statements of a switch: they go on, or `break` has left it after a write that failed.
pub data Flow (Value : Type 0) : Type 0 where
  next : Gof Value → Flow Value
  broken : Gof Value → Flow Value

infixl 5 ◌>>=◌
abbrev pub ◌>>=◌ : {Value : Type 0} → Flow Value → (Gof Value → Flow Value) → Flow Value
next s >>= f = f s
broken s >>= f = broken s

-- What stands behind the switch is reached either way.
abbrev pub end_switch : {Value : Type 0} → Flow Value → Gof Value
end_switch (next s) = s
end_switch (broken s) = s

module _ {Value : Type 0} (codes : Field → Rc) where
  -- rc = X_put (…); if (rc) break;
  abbrev pub put : Field → (Point Value → Point Value) → Gof Value → Flow Value
  put field write s = elim (is_ok (codes field)) [
    | true ↦ next (record s { point = write s.point; rc = codes field })
    | false ↦ broken (record s { rc = codes field })
  ]

  -- h_Valid_Out is set and written to the point.
  abbrev pub put_validity : Validity → Gof Value → Flow Value
  put_validity v s =
      put Field.validity (λ p. record p { validity = v }) (record s { valid_out = v })

  -- b_Validacq is set and written to the point.
  abbrev pub put_validity_acq : Validity → Gof Value → Flow Value
  put_validity_acq v s =
      put Field.validity_acq (λ p. record p { validity_acq = v }) (record s { validacq = v })

  -- b_InhibLocal is set and written to the point.
  abbrev pub put_inhiblocal : Bool → Gof Value → Flow Value
  put_inhiblocal b s =
      put Field.inhiblocal (λ p. record p { inhiblocal = b }) (record s { inhib_local = b })

  -- g_Val = g_Valacq
  abbrev pub put_acquired : Gof Value → Flow Value
  put_acquired s = put Field.val (λ p. record p { val = p.valacq }) s

  -- g_Val = g_ValManual
  abbrev pub put_manual : Gof Value → Flow Value
  put_manual s = put Field.val (λ p. record p { val = p.valmanual }) s

abbrev pub mark : {Value : Type 0} → Gof Value → Gof Value
mark s = record s { modified = true }
