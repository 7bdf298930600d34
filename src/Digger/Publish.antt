-- ===== src/Digger/Publish.antt =====
-- The publication of a group of subscription: publish_sbs_impl of worker/wdigger.cpp. A point is its
-- tag and its attributes, in the order of their names.
use rtdbus.Base.{
  Bytes, Bool, true, false, Option, none, some, List, [], ◌∷◌, ◌++◌, ◌>>=◌, ◌>>◌, guard,
}
use rtdbus.Attribute.{DbType, Member, member, AttrVal, AttributeInfo}
use rtdbus.Zmsg.{Zmsg}
use rtdbus.Msg.Value.{Update}
use rtdbus.Msg.Items.{read_add, event_add}
use rtdbus.Msg.Letter.{UserType, Body, Codec, change, Factory, create}
use rtdbus.Digger.{reply, with_destination}

-- PointDescription_t
pub record PointInfo : Type 0 where
  pub tag : Bytes
  pub attributes : List (Bytes × AttributeInfo)

-- The value is given by its address as AttrVal_t, where a string is not to be found.
abbrev pub is_scalar : DbType → Bool
is_scalar t = elim (member t) [ Member.val_string ↦ false | Member.varchar ↦ false | _ ↦ true ]

abbrev pub Adder : Type 0
Adder = Bytes → DbType → AttrVal → List Update → List Update

-- The message of the type, and how an item is added to it; another type ends in an assertion.
unfoldable pub adder : UserType → Option Adder
unfolding event_add read_add
adder UserType.grpsbs = some event_add
adder UserType.read_multi = some (λ tag t v items. read_add tag t (some v) items)
adder _ = none

-- The tag, a dot and the name of the attribute.
abbrev pub full_name : Bytes → Bytes → Bytes
full_name tag name = tag ++ 46 ∷ name

unfoldable pub add_attributes :
    Adder → Bytes → List (Bytes × AttributeInfo) → List Update → Option (List Update)
add_attributes add tag [] items = some items
add_attributes add tag ((name, a) ∷ rs) items =
    guard (is_scalar a.type)
    >> add_attributes add tag rs (add (full_name tag name) a.type a.value items)

unfoldable pub add_points : Adder → List PointInfo → List Update → Option (List Update)
unfolding add_attributes
add_points add [] items = some items
add_points add (p ∷ ps) items =
    add_attributes add p.tag p.attributes items >>= λ items'. add_points add ps items'

-- The items that the loop puts into the message.
unfoldable pub bundle : UserType → List PointInfo → Option (List Update)
unfolding adder add_points
bundle t points = adder t >>= λ add. add_points add points []

-- publish_sbs_impl: the message that is sent, in which `dest` is wrapped.
unfoldable pub publish :
    Codec → Bytes → List PointInfo → UserType → Factory → Option (Factory × Zmsg)
unfolding create bundle reply
publish codec dest points t f = create t f >>= λ (l, f'). bundle t points >>= λ items.
    reply codec
      (record (with_destination codec dest l) {
        content = change codec (λ b. Body.updates items) l.content;
      })
      dest
    >>= λ (l', m). some (f', m)
