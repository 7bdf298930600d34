-- ===== src/Digger/Bundles.antt =====
-- What a publication of worker/wdigger.cpp holds.
use rtdbus.Base.{◌≡◌, Bytes, Bool, true, ◌&&◌, List, [], ◌∷◌, ◌++◌, map}
use rtdbus.Attribute.{DbType, Quality, member, AttrVal, AttributeInfo}
use rtdbus.Msg.Value.{Update, pb_type, make_value}
use rtdbus.Msg.RoundTrip.{carried}
use rtdbus.Digger.Publish.{PointInfo, is_scalar, Adder, full_name}

-- All the attributes, under their full names.
unfoldable pub attributes_of : List PointInfo → List (Bytes × AttributeInfo)
attributes_of [] = []
attributes_of (p ∷ ps) = map (λ r. (full_name p.tag r.0, r.1)) p.attributes ++ attributes_of ps

unfoldable pub all_scalar : List (Bytes × AttributeInfo) → Bool
all_scalar [] = true
all_scalar (r ∷ rs) = is_scalar r.1.type && all_scalar rs

module _ (add : Adder) (one : Bytes → DbType → AttrVal → Update) where
  named_items : List (Bytes × AttributeInfo) → List Update
  named_items rs = map (λ r. one r.0 r.1.type r.1.value) rs

  IsAppend : Type 0
  IsAppend =
      (n : Bytes) (t : DbType) (v : AttrVal) (us : List Update)
      → add n t v us ≡ us ++ one n t v ∷ []

  named : Bytes → List (Bytes × AttributeInfo) → List (Bytes × AttributeInfo)
  named tag rs = map (λ r. (full_name tag r.0, r.1)) rs

-- The item of an attribute, as a subscriber reads it.
abbrev item_with : Quality → (DbType → AttrVal → AttrVal) → Bytes × AttributeInfo → AttributeInfo
item_with q arrives (name, a) = record {
  name = name;
  type = pb_type a.type;
  quality = q;
  value = arrives a.type a.value;
}

abbrev whole : DbType → AttrVal → AttrVal
whole t v = carried (member t) (make_value t v)
