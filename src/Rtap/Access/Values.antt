-- ===== src/Rtap/Access/Values.antt =====
-- The values of attributes that are written and read back, by the functions of
-- xdb/impl/xdb_impl_db_rtap.cpp.
use rtdbus.Base.{ℕ, ◌<◌, ◌≡◌, ◌≢◌, refl, true, not, some, ◌==◌, arith}
use rtdbus.Attribute.{DbType, AttributeInfo, bits}
use rtdbus.Rtap.Point.{Rc}
use rtdbus.Rtap.Update.{ObjClass}
use rtdbus.Rtap.Attributes.{
  Entry, Reading, Writing, Part, part_of_val, part_of_valacq, read_val, write_val, read_valacq,
  write_valacq, read_valmanual, write_valmanual, validity_of, validity_code, read_valid,
  write_valid, read_validacq, write_validacq, validchange_of, validchange_code, read_validchange,
  write_validchange, read_inhib, write_inhib, read_inhiblocal, write_inhiblocal,
}

-- The writing function succeeds and keeps the tag, and the reading function gives the n bits that
-- were written, under a type.
pub IsReadBack : ℕ → DbType → Writing → Reading → Entry → AttributeInfo → Type 0
IsReadBack n t w r e a =
    (e' : Entry) × (w e a ≡ some (Rc.ok, e'))
    × (e'.tag ≡ e.tag)
    × ((b : AttributeInfo)
        → ((r (record e' { is_modified = true }) b).0 ≡ Rc.ok)
          × ((r (record e' { is_modified = true }) b).1.type ≡ t)
          × (bits n (r (record e' { is_modified = true }) b).1.value ≡ bits n a.value))

-- The types under which VAL, and VALACQ and VALMANUAL, are read.
abbrev pub type_of_val : Part → DbType
type_of_val Part.analog = DbType.double
type_of_val Part.discrete = DbType.uint16
type_of_val Part.neither = DbType.undef

abbrev pub type_of_valacq : Part → DbType
type_of_valacq Part.analog = DbType.double
type_of_valacq Part.discrete = DbType.uint64
type_of_valacq Part.neither = DbType.undef

same_part : (k : ObjClass) → part_of_valacq k ≢ Part.neither → part_of_val k ≡ part_of_valacq k
unfolding part_of_valacq part_of_val
same_part ObjClass.dir h = absurd (h refl)
same_part ObjClass.dipl h = absurd (h refl)
same_part k h = refl

pub val-IsReadBack :
    (part : Part) (e : Entry) (a : AttributeInfo)
    → part_of_val e.objclass ≡ part
    → part ≢ Part.neither
    → IsReadBack 64 (type_of_val part) write_val read_val e a
unfolding IsReadBack write_val read_val
val-IsReadBack Part.analog e a h k = (
  record e { ai = record e.ai { val = bits 64 a.value } },
  ground arith,
  refl,
  λ b. (ground arith, ground arith, ground arith),
)
val-IsReadBack Part.discrete e a h k = (
  record e { di = record e.di { val = bits 64 a.value } },
  ground arith,
  refl,
  λ b. (ground arith, ground arith, ground arith),
)
val-IsReadBack Part.neither e a h k = absurd (k refl)

valacq-IsReadBack :
    (part : Part) (e : Entry) (a : AttributeInfo)
    → part_of_valacq e.objclass ≡ part
    → part ≢ Part.neither
    → IsReadBack 64 (type_of_valacq part) write_valacq read_valacq e a
unfolding IsReadBack write_valacq read_valacq
valacq-IsReadBack Part.analog e a h k = (
  record e { ai = record e.ai { valacq = bits 64 a.value } },
  ground arith,
  refl,
  λ b. (ground arith, ground arith, ground arith),
)
valacq-IsReadBack Part.discrete e a h k = (
  record e { di = record e.di { valacq = bits 64 a.value } },
  ground arith,
  refl,
  λ b. (ground arith, ground arith, ground arith),
)
valacq-IsReadBack Part.neither e a h k = absurd (k refl)

valmanual-IsReadBack :
    (part : Part) (e : Entry) (a : AttributeInfo)
    → part_of_valacq e.objclass ≡ part
    → part ≢ Part.neither
    → IsReadBack 64 (type_of_valacq part) write_valmanual read_valmanual e a
unfolding IsReadBack write_valmanual read_valmanual
valmanual-IsReadBack Part.analog e a h k = (
  record e { ai = record e.ai { valmanual = bits 64 a.value } },
  ground arith,
  refl,
  λ b. (ground arith, ground arith, ground arith),
)
valmanual-IsReadBack Part.discrete e a h k = (
  record e { di = record e.di { valmanual = bits 64 a.value } },
  ground arith,
  refl,
  λ b. (ground arith, ground arith, ground arith),
)
valmanual-IsReadBack Part.neither e a h k = absurd (k refl)

-- VAL, VALACQ and VALMANUAL of a point whose class has all three are read back as they were written:
-- the 64 bits, under the type DOUBLE of an analog class; of a discrete class VAL is read under the
-- type UINT16, the others under UINT64.
pub values-IsReadBack :
    (e : Entry) (a : AttributeInfo)
    → part_of_valacq e.objclass ≢ Part.neither
    → IsReadBack 64 (type_of_val (part_of_valacq e.objclass)) write_val read_val e a
      × IsReadBack 64 (type_of_valacq (part_of_valacq e.objclass)) write_valacq read_valacq e a
      × IsReadBack 64
          (type_of_valacq (part_of_valacq e.objclass))
          write_valmanual
          read_valmanual
          e
          a
values-IsReadBack e a h = (
  val-IsReadBack (part_of_valacq e.objclass) e a (same_part e.objclass h) h,
  valacq-IsReadBack (part_of_valacq e.objclass) e a refl h,
  valmanual-IsReadBack (part_of_valacq e.objclass) e a refl h,
)

-- The numbers of the validities and of the changes: there and back.
validity_code-validity_of : (n : ℕ) → n < 9 → validity_code (validity_of n) ≡ n
unfolding validity_code validity_of
validity_code-validity_of n h = ground arith

validchange_code-validchange_of : (n : ℕ) → 0 < n → n < 13 → validchange_code (validchange_of n) ≡ n
unfolding validchange_code validchange_of
validchange_code-validchange_of n p h = ground arith

-- VALID, VALIDACQ and VALIDCHANGE are read back as they were written, where the number is one to
-- eight, and of the type UINT8.
pub states-IsReadBack :
    (e : Entry) (a : AttributeInfo)
    → 0 < bits 8 a.value
    → bits 8 a.value < 9
    → IsReadBack 8 DbType.uint8 write_valid read_valid e a
      × IsReadBack 8 DbType.uint8 write_validacq read_validacq e a
      × IsReadBack 8 DbType.uint8 write_validchange read_validchange e a
unfolding IsReadBack write_valid read_valid write_validacq read_validacq write_validchange
    read_validchange
states-IsReadBack e a p h =
    let n = bits 8 a.value in
    let same = validity_code-validity_of n h in
    let same' = validchange_code-validchange_of n p (omega arith) in
    (
      (record e { validity = validity_of n }, refl, refl, λ b. (refl, refl, rw same (omega arith))),
      (
        record e { validity_acq = validity_of n },
        refl,
        refl,
        λ b. (refl, refl, rw same (omega arith)),
      ),
      (
        record e { validchange = validchange_of n },
        refl,
        refl,
        λ b. (refl, refl, rw same' (omega arith)),
      ),
    )

-- INHIB and INHIBLOCAL are read back as they were written, where the type is LOGICAL and the byte is
-- that of a bool.
pub flags-IsReadBack :
    (e : Entry) (a : AttributeInfo)
    → a.type ≡ DbType.logical
    → bits 8 a.value < 2
    → IsReadBack 8 DbType.logical write_inhib read_inhib e a
      × IsReadBack 8 DbType.logical write_inhiblocal read_inhiblocal e a
unfolding IsReadBack write_inhib read_inhib write_inhiblocal read_inhiblocal
flags-IsReadBack e a logical h = (
  (
    record e { inhib = not (bits 8 a.value == 0) },
    rw logical refl,
    refl,
    λ b. (refl, refl, ground arith),
  ),
  (
    record e { inhiblocal = not (bits 8 a.value == 0) },
    rw logical refl,
    refl,
    λ b. (refl, refl, ground arith),
  ),
)
