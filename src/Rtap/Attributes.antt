-- ===== src/Rtap/Attributes.antt =====
-- The functions that read and write an attribute of a stored point: readVAL, writeVAL and so on of
-- xdb/impl/xdb_impl_db_rtap.cpp, for the values, the validities, VALIDCHANGE, the inhibitions and
-- STATUS. A field of a stored object is read and written without a failure.
use rtdbus.Base.{
  ℕ, Bytes, Bool, true, false, not, ◌==◌, Option, none, some, if◌then◌else◌, List, [], ◌∷◌,
  get_elem?,
}
use rtdbus.Attribute.{DbType, AttributeInfo, bits, put_bits, bool_bits}
use rtdbus.Rtap.Point.{Validity, ValidChange, Rc}
use rtdbus.Rtap.Update.{ObjClass}

pub data PointStatus : Type 0 where
  planned worked disabled : PointStatus

-- AnalogInfoType and DiscreteInfoType: 64 bits of each
pub record Info : Type 0 where
  pub val : ℕ
  pub valacq : ℕ
  pub valmanual : ℕ

-- XDBPoint, what these functions read and write
pub record Entry : Type 0 where
  pub tag : Bytes
  pub objclass : ObjClass
  pub status : PointStatus
  pub inhiblocal : Bool
  pub inhib : Bool
  pub is_modified : Bool
  pub validchange : ValidChange
  pub validity : Validity
  pub validity_acq : Validity
  pub ai : Info
  pub di : Info

abbrev pub Reading : Type 0
Reading = Entry → AttributeInfo → Rc × AttributeInfo

-- `none` where an assertion fails.
abbrev pub Writing : Type 0
Writing = Entry → AttributeInfo → Option (Rc × Entry)

-- The cases of the switches over the class.
pub data Part : Type 0 where
  analog discrete neither : Part

-- readVAL and writeVAL; DIR and DIPL have the value only.
unfoldable pub part_of_val : ObjClass → Part
part_of_val ObjClass.tm = Part.analog
part_of_val ObjClass.tr = Part.analog
part_of_val ObjClass.icm = Part.analog
part_of_val ObjClass.tsc = Part.neither
part_of_val ObjClass.tc = Part.neither
part_of_val ObjClass.pipeline = Part.neither
part_of_val ObjClass.invt = Part.neither
part_of_val ObjClass.site = Part.neither
part_of_val ObjClass.sa = Part.neither
part_of_val ObjClass.fixedpoint = Part.neither
part_of_val ObjClass.hist = Part.neither
part_of_val _ = Part.discrete

-- The same of readVALACQ, writeVALACQ, readVALMANUAL and writeVALMANUAL
unfoldable pub part_of_valacq : ObjClass → Part
unfolding part_of_val
part_of_valacq ObjClass.dir = Part.neither
part_of_valacq ObjClass.dipl = Part.neither
part_of_valacq k = part_of_val k

abbrev with_bits : ℕ → DbType → ℕ → AttributeInfo → AttributeInfo
with_bits n t x a = record a { type = t; value = put_bits n x a.value }

-- A class without the attribute is answered by the code of the last call, which is success.
unfoldable pub read_val : Reading
unfolding part_of_val
read_val e a = elim (part_of_val e.objclass) [
  | Part.analog ↦ (Rc.ok, with_bits 64 DbType.double e.ai.val a)
  | Part.discrete ↦ (Rc.ok, with_bits 64 DbType.uint16 e.di.val a)
  | Part.neither ↦ (Rc.ok, record a { type = DbType.undef })
]

unfoldable pub write_val : Writing
unfolding part_of_val
write_val e a = elim (part_of_val e.objclass) [
  | Part.analog ↦ some (Rc.ok, record e { ai = record e.ai { val = bits 64 a.value } })
  | Part.discrete ↦ some (Rc.ok, record e { di = record e.di { val = bits 64 a.value } })
  | Part.neither ↦ some (Rc.ok, e)
]

unfoldable pub read_valacq : Reading
unfolding part_of_valacq
read_valacq e a = elim (part_of_valacq e.objclass) [
  | Part.analog ↦ (Rc.ok, with_bits 64 DbType.double e.ai.valacq a)
  | Part.discrete ↦ (Rc.ok, with_bits 64 DbType.uint64 e.di.valacq a)
  | Part.neither ↦ (Rc.ok, record a { type = DbType.undef })
]

unfoldable pub write_valacq : Writing
unfolding part_of_valacq
write_valacq e a = elim (part_of_valacq e.objclass) [
  | Part.analog ↦ some (Rc.ok, record e { ai = record e.ai { valacq = bits 64 a.value } })
  | Part.discrete ↦ some (Rc.ok, record e { di = record e.di { valacq = bits 64 a.value } })
  | Part.neither ↦ some (Rc.ok, e)
]

unfoldable pub read_valmanual : Reading
unfolding part_of_valacq
read_valmanual e a = elim (part_of_valacq e.objclass) [
  | Part.analog ↦ (Rc.ok, with_bits 64 DbType.double e.ai.valmanual a)
  | Part.discrete ↦ (Rc.ok, with_bits 64 DbType.uint64 e.di.valmanual a)
  | Part.neither ↦ (Rc.ok, record a { type = DbType.undef })
]

unfoldable pub write_valmanual : Writing
unfolding part_of_valacq
write_valmanual e a = elim (part_of_valacq e.objclass) [
  | Part.analog ↦ some (Rc.ok, record e { ai = record e.ai { valmanual = bits 64 a.value } })
  | Part.discrete ↦ some (Rc.ok, record e { di = record e.di { valmanual = bits 64 a.value } })
  | Part.neither ↦ some (Rc.ok, e)
]

-- The numbers of Validity in rtap_db.mco
unfoldable pub validity_code : Validity → ℕ
validity_code Validity.fault = 0
validity_code Validity.valid = 1
validity_code Validity.manual = 2
validity_code Validity.inhibition = 3
validity_code Validity.fault_inhib = 4
validity_code Validity.fault_forced = 5
validity_code Validity.inquired = 6
validity_code Validity.no_instrum = 7
validity_code Validity.global_fault = 8

-- The validities by their numbers; another number is taken for FAULT.
abbrev validities : List Validity
validities =
    Validity.fault ∷ Validity.valid ∷ Validity.manual ∷ Validity.inhibition ∷ Validity.fault_inhib
    ∷ Validity.fault_forced ∷ Validity.inquired ∷ Validity.no_instrum ∷ Validity.global_fault ∷ []

unfoldable pub validity_of : ℕ → Validity
validity_of n = elim (get_elem? validities n) [ none ↦ Validity.fault | some v ↦ v ]

unfoldable pub read_valid : Reading
unfolding validity_code
read_valid e a = (Rc.ok, with_bits 8 DbType.uint8 (validity_code e.validity) a)

unfoldable pub write_valid : Writing
unfolding validity_of
write_valid e a = some (Rc.ok, record e { validity = validity_of (bits 8 a.value) })

unfoldable pub read_validacq : Reading
unfolding validity_code
read_validacq e a = (Rc.ok, with_bits 8 DbType.uint8 (validity_code e.validity_acq) a)

unfoldable pub write_validacq : Writing
unfolding validity_of
write_validacq e a = some (Rc.ok, record e { validity_acq = validity_of (bits 8 a.value) })

-- readVALIDCHANGE has no case for VALIDCHANGE_FAULT.
unfoldable pub validchange_code : ValidChange → ℕ
validchange_code ValidChange.valid = 1
validchange_code ValidChange.forced = 2
validchange_code ValidChange.inhib = 3
validchange_code ValidChange.manual = 4
validchange_code ValidChange.end_inhib = 5
validchange_code ValidChange.end_forced = 6
validchange_code ValidChange.inhib_gbl = 7
validchange_code ValidChange.end_inhib_gbl = 8
validchange_code ValidChange.null = 9
validchange_code ValidChange.fault_gbl = 10
validchange_code ValidChange.inhib_sa = 11
validchange_code ValidChange.end_inhib_sa = 12
validchange_code ValidChange.fault = 9

-- The changes by their numbers. Nor has writeVALIDCHANGE a case for 0, and another number is taken
-- for NULL.
abbrev changes : List ValidChange
changes =
    ValidChange.null ∷ ValidChange.valid ∷ ValidChange.forced ∷ ValidChange.inhib
    ∷ ValidChange.manual ∷ ValidChange.end_inhib ∷ ValidChange.end_forced ∷ ValidChange.inhib_gbl
    ∷ ValidChange.end_inhib_gbl ∷ ValidChange.null ∷ ValidChange.fault_gbl ∷ ValidChange.inhib_sa
    ∷ ValidChange.end_inhib_sa ∷ []

unfoldable pub validchange_of : ℕ → ValidChange
validchange_of n = elim (get_elem? changes n) [ none ↦ ValidChange.null | some v ↦ v ]

unfoldable pub read_validchange : Reading
unfolding validchange_code
read_validchange e a = (Rc.ok, with_bits 8 DbType.uint8 (validchange_code e.validchange) a)

unfoldable pub write_validchange : Writing
unfolding validchange_of
write_validchange e a = some (Rc.ok, record e { validchange = validchange_of (bits 8 a.value) })

abbrev is_logical : DbType → Bool
is_logical DbType.logical = true
is_logical _ = false

unfoldable pub read_inhib : Reading
read_inhib e a = (Rc.ok, with_bits 8 DbType.logical (bool_bits e.inhib) a)

unfoldable pub write_inhib : Writing
write_inhib e a =
    if is_logical a.type then some (Rc.ok, record e { inhib = not (bits 8 a.value == 0) }) else none

unfoldable pub read_inhiblocal : Reading
read_inhiblocal e a = (Rc.ok, with_bits 8 DbType.logical (bool_bits e.inhiblocal) a)

unfoldable pub write_inhiblocal : Writing
write_inhiblocal e a =
    if is_logical a.type
    then some (Rc.ok, record e { inhiblocal = not (bits 8 a.value == 0) })
    else none

unfoldable pub status_code : PointStatus → ℕ
status_code PointStatus.planned = 0
status_code PointStatus.worked = 1
status_code PointStatus.disabled = 2

unfoldable pub read_status : Reading
unfolding status_code
read_status e a = (Rc.ok, with_bits 8 DbType.uint8 (status_code e.status) a)

abbrev statuses : List PointStatus
statuses = PointStatus.planned ∷ PointStatus.worked ∷ PointStatus.disabled ∷ []

-- writeSTATUS; the number of MCO_E_ILLEGAL_PARAM is that of the library.
unfoldable pub write_status : ℕ → Writing
write_status illegal_param e a = elim (get_elem? statuses (bits 8 a.value)) [
  | none ↦ some (Rc.failure illegal_param, e)
  | some s ↦ some (Rc.ok, record e { status = s })
]
