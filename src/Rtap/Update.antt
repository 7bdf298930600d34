-- ===== src/Rtap/Update.antt =====
-- on_update_VALIDCHANGE of xdb/impl/xdb_impl_db_rtap.cpp, which the runtime calls when VALIDCHANGE of a
-- point is written.
use rtdbus.Base.{if◌then◌else◌}
use rtdbus.Rtap.Point.{SystemState, Point, Rc, not_found, is_ok, Field}
use rtdbus.Rtap.Gofvalti.{gofvalti}

-- objclass_t of xdb/impl/dat/rtap_db.mco
pub data ObjClass : Type 0 where
  ts tm tr tsa tsc tc al ics icm pipe pipeline tl va sc atc grc sv sdg rga ssdg brg scp stg :
      ObjClass
  dir dipl metline esdg svline scpline tlline invt aux1 aux2 site sa fixedpoint hist : ObjClass

-- What is read of the acquisition system of the point: its state, that there is none, or the code
-- of a read that failed.
pub data SaLink : Type 0 where
  linked : SystemState → SaLink
  unlinked : SaLink
  unreadable : Rc → SaLink

module _ {Value : Type 0} (codes : Field → Rc) where
  -- The cases of the switch over the class. GOFVALTSC and GOFVALAL, of the discrete points and of
  -- the alarms, are still empty, and answer MCO_S_NOTFOUND.
  unfoldable pub by_class : ObjClass → SystemState → Point Value → Rc × Point Value
  unfolding gofvalti
  by_class ObjClass.tm system p = gofvalti codes system p
  by_class ObjClass.tr system p = gofvalti codes system p
  by_class ObjClass.icm system p = gofvalti codes system p
  by_class _ system p = (not_found, p)

  -- `reads` is the code of the first read of the point that fails, if one does.
  unfoldable pub on_update_validchange : Rc → ObjClass → SaLink → Point Value → Rc × Point Value
  unfolding by_class
  on_update_validchange reads objclass link p =
      if is_ok reads
      then elim link [
        | linked system ↦ by_class objclass system p
        | unlinked ↦ by_class objclass SystemState.working p
        | unreadable rc ↦ (rc, p)
      ]
      else (reads, p)
