-- ===== src/Rtap/Gofvalti.antt =====
-- GOFVALTI of xdb/impl/xdb_impl_db_rtap.cpp: the validity of an analog point after a change of its
-- VALIDCHANGE, one function for each case of the switch. `h` is the validity before (h_Valid). Where a
-- Validity is compared with true and false, these are VALIDITY_VALID and VALIDITY_FAULT.
use rtdbus.Base.{Bool, true, false, not, ◌&&◌, if◌then◌else◌}
use rtdbus.Rtap.Point.{
  Validity, SystemState, ValidChange, is_valid, is_fault, is_working, is_inhibited, Point, Rc, ok,
  not_found, is_ok, Field, Gof, Flow, next, ◌>>=◌, end_switch, put_validity, put_validity_acq,
  put_inhiblocal, put_acquired, put_manual, mark,
}

-- The four validities of a point that is inhibited or forced.
abbrev pub is_held : Validity → Bool
is_held Validity.fault_inhib = true
is_held Validity.fault_forced = true
is_held Validity.manual = true
is_held Validity.inhibition = true
is_held _ = false

-- The validity under a global inhibition, and under one of the acquisition system.
abbrev pub global_out : Validity → Validity
global_out Validity.valid = Validity.inhibition
global_out Validity.fault = Validity.fault_inhib
global_out Validity.inquired = Validity.fault_forced
global_out h = h

abbrev pub sa_out : Validity → Bool → Validity
sa_out Validity.valid acquired = Validity.inhibition
sa_out Validity.fault acquired = if acquired then Validity.inhibition else Validity.fault_inhib
sa_out Validity.inquired acquired = if acquired then Validity.manual else Validity.fault_forced
sa_out h acquired = h

-- The local variables at the beginning.
abbrev pub start : {Value : Type 0} → Point Value → Gof Value
start p = record {
  point = p;
  valid_out = p.validity;
  validacq = p.validity_acq;
  inhib_local = p.inhiblocal;
  modified = false;
  rc = not_found;
}

module _ {Value : Type 0} (codes : Field → Rc) where
  -- VALIDCHANGE_FAULT
  unfoldable pub fault_switch : Validity → Gof Value → Flow Value
  fault_switch Validity.valid s = put_validity codes Validity.fault s
  fault_switch Validity.no_instrum s = put_validity codes Validity.fault s
  fault_switch Validity.fault s =
      if is_valid s.validacq then put_validity_acq codes Validity.fault s else next s
  fault_switch Validity.inquired s =
      if is_valid s.validacq then put_validity_acq codes Validity.fault s else next s
  fault_switch _ s = put_validity_acq codes Validity.fault s

  unfoldable pub on_fault : Validity → SystemState → Gof Value → Gof Value
  unfolding fault_switch
  on_fault h sa s = if is_working sa then mark (end_switch (fault_switch h s)) else s

  -- VALIDCHANGE_VALID
  unfoldable pub accept : Gof Value → Flow Value
  accept s = do
    s₁ ← put_acquired codes s
    s₂ ← put_validity codes Validity.valid s₁
    s₃ ← if is_fault s₂.validacq then put_validity_acq codes Validity.valid s₂ else next s₂
    next (mark s₃)

  unfoldable pub acquire : Gof Value → Flow Value
  acquire s = do s₁ ← put_validity_acq codes Validity.valid s; next (mark s₁)

  unfoldable pub valid_switch : Validity → Gof Value → Flow Value
  unfolding accept acquire
  valid_switch Validity.inhibition s = acquire s
  valid_switch Validity.manual s = acquire s
  valid_switch Validity.fault_inhib s = acquire s
  valid_switch Validity.fault_forced s = acquire s
  valid_switch Validity.inquired s = accept s
  valid_switch Validity.no_instrum s = accept s
  valid_switch Validity.fault s = accept s
  valid_switch Validity.valid s = do s₁ ← put_acquired codes s; next (mark s₁)
  valid_switch Validity.global_fault s = next s

  unfoldable pub on_valid : Validity → SystemState → Gof Value → Gof Value
  unfolding valid_switch
  on_valid h sa s = if is_working sa then end_switch (valid_switch h s) else s

  -- VALIDCHANGE_FORCED: h_Valid_Out is set, and never written.
  abbrev lock : Gof Value → Flow Value
  lock s = if s.inhib_local then next s else put_inhiblocal codes true s

  unfoldable pub forced_switch : Validity → Gof Value → Flow Value
  forced_switch Validity.valid s =
      put_inhiblocal codes true (record s { valid_out = Validity.manual })
  forced_switch Validity.inhibition s = lock (record s { valid_out = Validity.manual })
  forced_switch Validity.fault s =
      let out = if is_valid s.validacq then Validity.manual else Validity.fault_forced in
      put_inhiblocal codes true (record s { valid_out = out })
  forced_switch Validity.inquired s =
      let out = if is_valid s.validacq then Validity.manual else Validity.fault_forced in
      put_inhiblocal codes true (record s { valid_out = out })
  forced_switch Validity.fault_inhib s = lock (record s { valid_out = Validity.fault_forced })
  forced_switch _ s = next s

  unfoldable pub on_forced : Validity → Gof Value → Gof Value
  unfolding forced_switch
  on_forced h s =
      end_switch (put_manual codes s >>= λ s₁. next (mark (end_switch (forced_switch h s₁))))

  -- VALIDCHANGE_INHIB: the validity of a point that is VALID or FAULT is set, and not written.
  unfoldable pub inhib_switch : Validity → Gof Value → Flow Value
  inhib_switch Validity.valid s = next (record s { valid_out = Validity.inhibition })
  inhib_switch Validity.fault s =
      let out = if is_valid s.validacq then Validity.inhibition else Validity.fault_inhib in
      next (record s { valid_out = out })
  inhib_switch Validity.inquired s = do
    s₁ ←
        put_validity codes (if is_valid s.validacq then Validity.manual else Validity.fault_forced)
          s
    put_inhiblocal codes true (mark s₁)
  inhib_switch _ s = next s

  unfoldable pub on_inhib : Validity → Gof Value → Gof Value
  unfolding inhib_switch
  on_inhib h s = record (end_switch (inhib_switch h s)) { rc = ok }

  -- VALIDCHANGE_MANUAL
  abbrev becomes : Validity → Gof Value → Flow Value
  becomes Validity.fault s = put_validity codes Validity.inquired s
  becomes Validity.inhibition s = put_validity codes Validity.manual s
  becomes Validity.fault_inhib s = put_validity codes Validity.fault_forced s
  becomes _ s = next s

  abbrev enter : Validity → Gof Value → Flow Value
  enter h s = do s₁ ← put_manual codes s; s₂ ← becomes h s₁; next (mark s₂)

  unfoldable pub on_manual : Validity → Gof Value → Gof Value
  on_manual Validity.valid s = s
  on_manual Validity.global_fault s = s
  on_manual h s = end_switch (enter h s)

  -- VALIDCHANGE_END_INHIB and VALIDCHANGE_END_FORCED
  unfoldable pub release_validity : SystemState → Gof Value → Flow Value
  release_validity sa s =
      if not (is_inhibited sa) && not s.point.inhib
      then put_validity codes
          (if is_valid s.validacq && is_working sa then Validity.valid else Validity.fault) s
      else next s

  unfoldable pub end_inhib_switch : SystemState → Gof Value → Flow Value
  unfolding release_validity
  end_inhib_switch sa s = do
    s₁ ← release_validity sa s
    s₂ ← put_acquired codes s₁
    s₃ ← if s₂.inhib_local then put_inhiblocal codes false s₂ else next s₂
    next (mark s₃)

  unfoldable pub on_end_inhib : Validity → SystemState → Gof Value → Gof Value
  unfolding end_inhib_switch
  on_end_inhib h sa s = if is_held h then end_switch (end_inhib_switch sa s) else s

  -- VALIDCHANGE_INHIB_GBL
  unfoldable pub inhib_gbl_validity : SystemState → Gof Value → Flow Value
  inhib_gbl_validity sa s =
      if not (is_inhibited sa) && not s.point.inhib && not s.inhib_local
      then (if is_valid s.validacq
          then put_validity codes Validity.valid s
          else if is_fault s.validacq
          then put_validity codes Validity.fault s
          else next s)
      else next s

  unfoldable pub on_inhib_gbl : Validity → SystemState → Gof Value → Gof Value
  unfolding inhib_gbl_validity
  on_inhib_gbl h sa s =
      if is_held h
      then end_switch
          (inhib_gbl_validity sa s >>= λ s₁. put_acquired codes s₁ >>= λ s₂. next (mark s₂))
      else s

  -- VALIDCHANGE_END_INHIB_GBL
  unfoldable pub on_end_inhib_gbl : Validity → Gof Value → Gof Value
  on_end_inhib_gbl h s = end_switch (put_validity codes (global_out h) s >>= λ s₁. next (mark s₁))

  -- VALIDCHANGE_FAULT_GBL
  unfoldable pub on_fault_gbl : Validity → Gof Value → Gof Value
  on_fault_gbl Validity.valid s =
      end_switch (put_validity codes Validity.fault s >>= λ s₁. next (mark s₁))
  on_fault_gbl _ s = s

  -- VALIDCHANGE_INHIB_SA
  unfoldable pub on_inhib_sa : Validity → Gof Value → Gof Value
  on_inhib_sa h s =
      end_switch (put_validity codes (sa_out h (is_valid s.validacq)) s >>= λ s₁. next (mark s₁))

  -- VALIDCHANGE_END_INHIB_SA
  unfoldable pub end_inhib_sa_switch : SystemState → Gof Value → Flow Value
  end_inhib_sa_switch sa s =
      if is_valid s.validacq && is_working sa
      then (put_validity codes Validity.valid s >>= λ s₁.
          put_acquired codes s₁ >>= λ s₂. next (mark s₂))
      else (put_validity codes Validity.fault s >>= λ s₁. next (mark s₁))

  unfoldable pub on_end_inhib_sa : Validity → SystemState → Gof Value → Gof Value
  unfolding end_inhib_sa_switch
  on_end_inhib_sa h sa s =
      if is_held h && not s.point.inhib && not s.inhib_local
      then end_switch (end_inhib_sa_switch sa s)
      else s

  -- The switch over VALIDCHANGE.
  unfoldable pub on_change : ValidChange → Validity → SystemState → Gof Value → Gof Value
  unfolding on_fault on_valid on_forced on_inhib on_manual on_end_inhib on_inhib_gbl
      on_end_inhib_gbl on_fault_gbl on_inhib_sa on_end_inhib_sa
  on_change ValidChange.fault h sa s = on_fault h sa s
  on_change ValidChange.valid h sa s = on_valid h sa s
  on_change ValidChange.forced h sa s = on_forced h s
  on_change ValidChange.inhib h sa s = on_inhib h s
  on_change ValidChange.manual h sa s = on_manual h s
  on_change ValidChange.end_inhib h sa s = on_end_inhib h sa s
  on_change ValidChange.end_forced h sa s = on_end_inhib h sa s
  on_change ValidChange.inhib_gbl h sa s = on_inhib_gbl h sa s
  on_change ValidChange.end_inhib_gbl h sa s = on_end_inhib_gbl h s
  on_change ValidChange.null h sa s = record s { rc = ok; modified = false }
  on_change ValidChange.fault_gbl h sa s = on_fault_gbl h s
  on_change ValidChange.inhib_sa h sa s = on_inhib_sa h s
  on_change ValidChange.end_inhib_sa h sa s = on_end_inhib_sa h sa s

  -- What follows the switch: an error without a change is taken back, else the flag is written, and
  -- the answer is that of this write.
  unfoldable pub finish : Gof Value → Rc × Point Value
  finish s =
      if not (is_ok s.rc) && not s.modified
      then (ok, s.point)
      else if is_ok (codes Field.is_modified)
      then (codes Field.is_modified, record (s.point) { is_modified = true })
      else (codes Field.is_modified, s.point)

  unfoldable pub gofvalti : SystemState → Point Value → Rc × Point Value
  unfolding on_change finish
  gofvalti sa p = finish (on_change p.validchange p.validity sa (start p))
