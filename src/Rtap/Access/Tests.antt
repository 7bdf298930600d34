-- ===== src/Rtap/Access/Tests.antt =====
-- Examples of the reads and writes of attributes: a database with one point, the pressure of a pipe.
use rtdbus.Base.{
  zero, suc, ◌≡◌, refl, Bytes, text, bytes_eq, true, false, none, some, [], ◌∷◌, if◌then◌else◌,
  arith, Bool-cases, inl, inr, List,
}
use rtdbus.Attribute.{DbType, Quality, AttributeInfo, no_value}
use rtdbus.Xdb.Table.{Table}
use rtdbus.Xdb.Memory.{table, table-IsTable}
use rtdbus.Rtap.Point.{Validity, ValidChange}
use rtdbus.Rtap.Update.{ObjClass}
use rtdbus.Rtap.Attributes.{Entry, Info, PointStatus, read_val, write_val}
use rtdbus.Rtap.Access.{Maps, Db}
use rtdbus.Rtap.Access.Spec.{View, Command, view_run, run, entry_of, Represents, Agrees, KeepTags}
use rtdbus.Rtap.Point.{Rc}
use rtdbus.Rtap.Access.Runs.{run-refines}
use rtdbus.Rtap.Access.Laws.{UniqueTags}

abbrev pub no_info : Info
no_info = record { val = 0; valacq = 0; valmanual = 0 }

abbrev pub pressure : Entry
pressure = record {
  tag = text "P1";
  objclass = ObjClass.tm;
  status = PointStatus.worked;
  inhiblocal = false;
  inhib = false;
  is_modified = false;
  validchange = ValidChange.valid;
  validity = Validity.valid;
  validity_acq = Validity.valid;
  ai = record no_info { val = 5100 };
  di = no_info;
}

abbrev pub val_only : Maps
val_only = record {
  reading = λ n. if bytes_eq n (text "VAL") then some read_val else none;
  writing = λ n. if bytes_eq n (text "VAL") then some write_val else none;
}

abbrev pub points : Table Entry
points = table pressure

abbrev pub one_point : Db points val_only
one_point = record { store = some pressure ∷ []; starts = true; commits = true }

-- A table of one row has no two rows of one tag.
pub one_row : (e : Entry) → UniqueTags points val_only (some e ∷ [])
unfolding UniqueTags
one_row e zero j x y at_i at_j same = cc
one_row e (suc zero) zero x y at_i at_j same = cc
one_row e (suc zero) (suc zero) x y at_i at_j same = refl
one_row e (suc zero) (suc (suc j)) x y at_i at_j same = cc
one_row e (suc (suc i)) j x y at_i at_j same = cc

abbrev named : Bytes → AttributeInfo
named name = record { name = name; type = DbType.undef; quality = Quality.ok; value = no_value }

abbrev written : AttributeInfo
written = record (named (text "P1.VAL")) { value = record no_value { fixed = 4200 } }

write_val-tag :
    (e e' : Entry) (a : AttributeInfo) (rc : Rc) → write_val e a ≡ some (rc, e') → e'.tag ≡ e.tag
unfolding write_val
write_val-tag e e' a rc h = ground arith

val_only-KeepTags : KeepTags val_only
unfolding KeepTags
val_only-KeepTags n f e e' a rc by_f wrote = elim (Bool-cases (bytes_eq n (text "VAL"))) [
  | inl val ↦
      let f_is : write_val ≡ f = cc (rw val at by_f) in write_val-tag e e' a rc (rw f_is wrote)
  | inr other ↦ cc (rw other at by_f)
]

-- A write, a read of what was written, and a read of a point that is not there.
abbrev commands : List Command
commands =
    Command.tell written
    ∷ Command.ask (named (text "P1.VAL"))
    ∷ Command.ask (named (text "P2.VAL"))
    ∷ []

abbrev seen : View
seen = record { point = entry_of val_only points one_point; starts = true; commits = true }

run-refines_example :
    Agrees val_only points
      (run val_only points one_point commands)
      (view_run val_only seen commands)
unfolding Represents
run-refines_example =
    run-refines val_only points (table-IsTable pressure) commands one_point seen val_only-KeepTags
      (one_row pressure, refl, refl, λ t. refl)
