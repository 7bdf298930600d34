-- ===== src/Digger/Writes.antt =====
-- The status of a request to write: handle_write of worker/wdigger.cpp.
use Prim.Native.Nat.{max, bit_or, digits, bit_or-bitwise}
use rtdbus.Base.{
  ℕ, zero, suc, ◌/◌, ◌%◌, ◌<◌, ◌≤◌, ◌≡◌, ◌↔◌, ◌⊎◌, refl, sym, ◌∙◌, ap, false, Option, some, List,
  [], ◌∷◌, ◌++◌, length, ◌>>=◌, arith, inl, inr, get_elem?-middle, append-middle, length-snoc,
  bind-ext, bind_some,
}
use rtdbus.Attribute.{Quality}
use rtdbus.Msg.Value.{Update, of_update}
use rtdbus.Msg.Items.{item}
use rtdbus.Xdb.Table.{Table}
use rtdbus.Rtap.Attributes.{Entry}
use rtdbus.Rtap.Access.{Maps, ErrorCode, error_number}
use rtdbus.Msg.Letter.{Letter}
use rtdbus.Base.{◌%◌}
use rtdbus.Digger.{Connection, write_attribute, write_item, write_items, add_status, is_ok}

parity : (b : ℕ) → (b % 2 ≡ 0) ⊎ (b % 2 ≡ 1)
parity b = ground arith

-- An or is positive where its second number is.
digits_positive : (n a b : ℕ) → a ≤ n → 0 < b → 0 < digits (λ b. b) max n a b
digits_positive zero a b h p = p
digits_positive (suc n) zero b h p = p
digits_positive (suc n) (suc a) b h p = elim (parity b) [
  | inl even ↦ omega (arith, digits_positive n (suc a / 2) (b / 2) (omega arith) (omega arith))
  | inr odd ↦ omega arith
]

bit_or-positive : (a b : ℕ) → 0 < b → 0 < bit_or a b
bit_or-positive a b p = omega (arith, bit_or-bitwise a b, digits_positive a a b (omega arith) p)

error_number-positive : (error : ErrorCode) → is_ok error ≡ false → 0 < error_number error
unfolding error_number
error_number-positive error bad = ground arith

module _ (points : Table Entry) (maps : Maps) where
  -- The status is zero exactly after a success.
  add_status-zero :
      (error : ErrorCode) (status : ℕ)
      → (add_status points maps error status ≡ 0) ↔ (error ≡ ErrorCode.no_error)
  unfolding add_status
  add_status-zero ErrorCode.no_error status = (λ h. refl, λ h. refl)
  add_status-zero error status = (
    λ h. absurd (omega (arith, h, bit_or-positive status (error_number error) (ground arith))),
    λ h. ground arith,
  )

  -- The writes of a list of items, one after the other.
  write_all :
      Connection points maps → Quality → List Update → ℕ → Option (Connection points maps × ℕ)
  write_all c q [] status = some (c, status)
  write_all c q (u ∷ items) status =
      write_item points maps c (of_update q u) status >>= λ (c', status').
      write_all c' q items status'

  write_items-all :
      (c : Connection points maps) (q : Quality) (ys xs : List Update) (status : ℕ)
      → write_items points maps c q (length xs) (length ys) (xs ++ ys) status
        ≡ write_all c q ys status
  unfolding write_items write_all item
  write_items-all c q [] xs status = refl
  write_items-all c q (u ∷ ys) xs status =
      rw (item, get_elem?-middle xs ys u)
        (bind-ext (write_item points maps c (of_update q u) status)
          (λ r. write_items points maps r.0 q (suc (length xs)) (length ys) (xs ++ u ∷ ys) r.1)
          (λ r. write_all r.0 q ys r.1)
          (λ r.
            rw (length-snoc xs u, append-middle xs ys u) at
              (write_items-all r.0 q ys (xs ++ u ∷ []) r.1)))

  write_all-one :
      (c c2 : Connection points maps) (q : Quality) (u : Update) (error : ErrorCode) (s : ℕ)
      → write_attribute points maps c (of_update q u) ≡ some (error, c2)
      → write_all c q (u ∷ []) s ≡ some (c2, add_status points maps error s)
  unfolding write_all
  write_all-one c c2 q u error s last = rw last refl

  write_all-last :
      (c c1 c2 : Connection points maps) (q : Quality) (items : List Update) (u : Update)
      (error : ErrorCode) (s s1 : ℕ)
      → write_all c q items s ≡ some (c1, s1)
      → write_attribute points maps c1 (of_update q u) ≡ some (error, c2)
      → write_all c q (items ++ u ∷ []) s ≡ some (c2, add_status points maps error s1)
  unfolding write_all
  write_all-last c c1 c2 q [] u error s s1 before last =
      ap (λ o. o >>= λ r. write_all r.0 q (u ∷ []) r.1) before
      ∙ write_all-one c1 c2 q u error s1 last
  write_all-last c c1 c2 q (x ∷ items) u error s s1 before last =
      let (r, wrote, rest) =
        bind_some (write_item points maps c (of_update q x) s) (λ r. write_all r.0 q items r.1)
          (c1, s1) before in
      ap (λ o. o >>= λ r. write_all r.0 q (items ++ u ∷ []) r.1) wrote
      ∙ write_all-last r.0 c1 c2 q items u error r.1 s1 rest last

  -- A request to write whose items but the last are written, with any results, leaves the status
  -- that is sent at zero, which stands for success, exactly where the last item is written with
  -- success: the errors of the items before a success are forgotten.
  pub write_items-last :
      (c c1 c2 : Connection points maps) (q : Quality) (items : List Update) (u : Update)
      (error : ErrorCode) (status1 : ℕ)
      → write_items points maps c q 0 (length items) items 0 ≡ some (c1, status1)
      → write_attribute points maps c1 (of_update q u) ≡ some (error, c2)
      → (status : ℕ) × (write_items points maps c q 0 (length (items ++ u ∷ [])) (items ++ u ∷ []) 0
          ≡ some (c2, status))
        × ((status ≡ 0) ↔ (error ≡ ErrorCode.no_error))
  write_items-last c c1 c2 q items u error status1 before last =
      let all = sym (write_items-all c q items [] 0) ∙ before in
      (
        add_status points maps error status1,
        write_items-all c q (items ++ u ∷ []) [] 0
            ∙ write_all-last c c1 c2 q items u error 0 status1 all last,
        add_status-zero error status1,
      )
