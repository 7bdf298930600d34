-- ===== src/Digger/Reads.antt =====
-- The answer to a request to read: handle_read of worker/wdigger.cpp.
use rtdbus.Base.{
  suc, ◌≡◌, refl, sym, ◌∙◌, ap, Bytes, Bool, true, false, not, ◌&&◌, some, List, [], ◌∷◌, ◌++◌, map,
  length, if◌then◌else◌, Bool-cases, inl, inr, c_str, get_elem?-middle, set-middle, append-middle,
  length-snoc,
}
use rtdbus.Attribute.{DbType, Quality, AttributeInfo}
use rtdbus.Zmsg.{Zmsg, wrap, push_front, push_front_string}
use rtdbus.Msg.Value.{Update, flush, of_update, pb_type}
use rtdbus.Msg.RoundTrip.{set_value-type}
use rtdbus.Msg.Items.{item, set_type}
use rtdbus.Msg.Letter.{Body, Codec, Letter, get_serialized, header_frame}
use rtdbus.Xdb.Table.{Table}
use rtdbus.Rtap.Attributes.{Entry}
use rtdbus.Rtap.Access.{Maps, ErrorCode}
use rtdbus.Digger.{
  Connection, read_attribute, read_item, read_items, store_read, is_ok, is_undef, handle_read,
  reply,
}

flush-type : (a : AttributeInfo) (u : Update) → (flush a u).type ≡ pb_type a.type
unfolding flush
flush-type a u =
    set_value-type a.type a.value
      (record u { tag = a.name; type = pb_type a.type; quality = a.quality })

-- The type that set_type writes is the one that flush has written.
set_type-flush :
    (a : AttributeInfo) (u : Update) (xs ys : List Update)
    → set_type (length xs) a.type (xs ++ flush a u ∷ ys) ≡ xs ++ flush a u ∷ ys
unfolding set_type
set_type-flush a u xs ys =
    rw
      (
        set_type,
        get_elem?-middle xs ys (flush a u),
        set-middle xs ys (flush a u),
        sym (flush-type a u),
      )
      refl

module _ (points : Table Entry) (maps : Maps) where
  -- What becomes of an item: the value that is read, or the item as it came.
  unfoldable pub reread : Connection points maps → Quality → Update → Update
  reread c q u =
      let r = read_attribute points maps c (of_update q u) in if is_ok r.0 then flush r.1 u else u

  store_read-middle :
      (given : DbType) (e : Bool) (r : ErrorCode × AttributeInfo) (xs ys : List Update) (u : Update)
      → is_ok r.0 ≡ e
      → store_read points maps given r (length xs) (xs ++ u ∷ ys)
        ≡ xs ++ (if e then flush r.1 u else u) ∷ ys
  store_read-middle given false r xs ys u h = rw (store_read, get_elem?-middle xs ys u, h) refl
  store_read-middle given true r xs ys u h =
      elim (Bool-cases (is_undef given && not (is_undef r.1.type))) [
        | inl new ↦
            rw (store_read, get_elem?-middle xs ys u, h, new, set-middle xs ys u (flush r.1 u))
              (set_type-flush r.1 u xs ys)
        | inr old ↦
            rw (store_read, get_elem?-middle xs ys u, h, old, set-middle xs ys u (flush r.1 u)) refl
      ]

  read_item-middle :
      (c : Connection points maps) (q : Quality) (xs ys : List Update) (u : Update)
      → read_item points maps c q (length xs) (xs ++ u ∷ ys) ≡ xs ++ reread c q u ∷ ys
  unfolding item reread
  read_item-middle c q xs ys u =
      let todo = of_update q u in
      let r = read_attribute points maps c todo in
      rw (read_item, item, get_elem?-middle xs ys u)
        (store_read-middle todo.type (is_ok r.0) r xs ys u refl)

  read_items-middle :
      (c : Connection points maps) (q : Quality) (ys xs : List Update)
      → read_items points maps c q (length xs) (length ys) (xs ++ ys) ≡ xs ++ map (reread c q) ys
  unfolding read_items
  read_items-middle c q [] xs = refl
  read_items-middle c q (u ∷ ys) xs =
      let v = reread c q u in
      let next = read_items-middle c q ys (xs ++ v ∷ []) in
      let placed =
        rw (length-snoc xs v, append-middle xs ys v, append-middle xs (map (reread c q) ys) v) at
          next in
      ap (λ items. read_items points maps c q (suc (length xs)) (length ys) items)
        (read_item-middle c q xs ys u)
      ∙ placed

  pub read_items-map :
      (c : Connection points maps) (q : Quality) (items : List Update)
      → read_items points maps c q 0 (length items) items ≡ map (reread c q) items
  read_items-map c q items = read_items-middle c q items []

  module _ (codec : Codec) where
    -- A request to read, whose letter holds items and is as the factory makes it, and whose new
    -- items can be serialized, is answered by one message: the address of the sender, an empty
    -- frame, the header with the sender for its destination, and the items, each read anew or as
    -- it came.
    pub handle_read-answers :
        (c : Connection points maps) (q : Quality) (l : Letter) (identity frame : Bytes)
        (items : List Update) (sent : List Zmsg)
        → l.content.instance ≡ some (Body.updates items)
        → l.content.valid ≡ true
        → l.content.modified ≡ true
        → codec.serialize (Body.updates (map (reread c q) items)) ≡ some frame
        → handle_read points maps codec c q l identity sent
          ≡ some (
              sent
              ++ (c_str identity
                  ∷ []
                  ∷ header_frame codec
                      (record l { header = record l.header { proc_dest = identity } })
                  ∷ frame
                  ∷ [])
                ∷ [])
    unfolding handle_read reply get_serialized wrap push_front push_front_string c_str
    handle_read-answers c q l identity frame items sent holds valid modified serialized =
        rw (holds, valid, modified, read_items-map c q items, serialized) refl
