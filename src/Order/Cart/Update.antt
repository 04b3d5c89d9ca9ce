-- ===== src/Order/Cart/Update.antt =====
-- What `CartModel::update` does to the lines of a cart, without its loop.
use e_commerce.Common.{
  ℕ, ◌≡◌, refl, Bool, true, false, ◌&&◌, Option, none, some, List, [], ◌∷◌, map, arith, ◌==◌,
  if◌then◌else◌,
}
use e_commerce.Order.Cart.{
  CartLineModel, CartModel, CartLineDto, CartDto, line_of_dto, put_line, put_lines, update,
}

-- The quantity of a product among some lines, by the first line that has it.
abbrev pub quantity_of : ℕ → ℕ → List CartLineModel → Option ℕ
quantity_of store pid [] = none
quantity_of store pid (l ∷ ls) =
    if l.id_.store_id == store && l.id_.product_id == pid
    then some l.qty_req
    else quantity_of store pid ls

abbrev pub or_else : Option ℕ → Option ℕ → Option ℕ
or_else none b = b
or_else (some a) b = some a

-- The specification: the last line of a request for a product counts.
abbrev pub last_asked : ℕ → ℕ → List CartLineDto → Option ℕ
last_asked store pid [] = none
last_asked store pid (d ∷ ds) =
    or_else (last_asked store pid ds)
      (if store == d.seller_id && pid == d.product_id then some d.quantity else none)

abbrev pub is_some : Option ℕ → Bool
is_some none = false
is_some (some n) = true

-- The lines of a request for products that were not saved.
abbrev pub not_saved : List CartLineModel → List CartLineDto → List CartLineModel
not_saved saved [] = []
not_saved saved (d ∷ ds) =
    if is_some (quantity_of d.seller_id d.product_id saved)
    then not_saved saved ds
    else line_of_dto d ∷ not_saved saved ds

put_line-quantity_of :
    (d : CartLineDto) (saved : List CartLineModel) (store pid : ℕ)
    → quantity_of store pid (put_line d saved).0 ≡ (
        if is_some (quantity_of store pid saved) && (store == d.seller_id && pid == d.product_id)
        then some d.quantity
        else quantity_of store pid saved)
unfolding put_line
put_line-quantity_of d [] store pid = refl
put_line-quantity_of d (l ∷ ls) store pid = ground (arith, put_line-quantity_of d ls store pid)

put_line-ids :
    (d : CartLineDto) (saved : List CartLineModel)
    → map (λ l. l.id_) (put_line d saved).0 ≡ map (λ l. l.id_) saved
unfolding put_line
put_line-ids d [] = refl
put_line-ids d (l ∷ ls) = ground (arith, put_line-ids d ls)

put_line-new :
    (d : CartLineDto) (saved : List CartLineModel)
    → (put_line d saved).1
      ≡ (if is_some (quantity_of d.seller_id d.product_id saved) then none else some d)
unfolding put_line
put_line-new d [] = refl
put_line-new d (l ∷ ls) = ground (arith, put_line-new d ls)

-- Which products are new does not depend on what the request has changed so far.
not_saved-put_line :
    (d : CartLineDto) (saved : List CartLineModel) (ds : List CartLineDto)
    → not_saved (put_line d saved).0 ds ≡ not_saved saved ds
not_saved-put_line d saved [] = refl
not_saved-put_line d saved (e ∷ ds) =
    ground
      (arith, put_line-quantity_of d saved e.seller_id e.product_id, not_saved-put_line d saved ds)

put_lines-eq :
    (ds : List CartLineDto) (saved : List CartLineModel)
    → ((put_lines ds saved).1 ≡ not_saved saved ds)
      × (map (λ l. l.id_) (put_lines ds saved).0 ≡ map (λ l. l.id_) saved)
unfolding put_lines
put_lines-eq [] saved = (refl, refl)
put_lines-eq (d ∷ ds) saved = ground (
  arith,
  put_line-new d saved,
  put_line-ids d saved,
  not_saved-put_line d saved ds,
  put_lines-eq ds (put_line d saved).0,
)

put_lines-quantity_of :
    (ds : List CartLineDto) (saved : List CartLineModel) (store pid : ℕ)
    → quantity_of store pid (put_lines ds saved).0 ≡ (
        if is_some (quantity_of store pid saved)
        then or_else (last_asked store pid ds) (quantity_of store pid saved)
        else none)
unfolding put_lines
put_lines-quantity_of [] saved store pid = ground arith
put_lines-quantity_of (d ∷ ds) saved store pid = ground (
  arith,
  put_line-quantity_of d saved store pid,
  put_lines-quantity_of ds (put_line d saved).0 store pid,
)

-- A cart update sets the title, keeps the owner, the number and the products of the saved lines; a
-- saved line gets the quantity of the last request line for its product, and the request lines for
-- other products become the new lines, in their order.
pub update-quantity_of :
    (d : CartDto) (m : CartModel) (store pid : ℕ)
    → let m' = update d m in
      (m'.title ≡ d.title)
      × (m'.owner ≡ m.owner)
      × (m'.seq_num ≡ m.seq_num)
      × (map (λ l. l.id_) m'.saved_lines ≡ map (λ l. l.id_) m.saved_lines)
      × (m'.new_lines ≡ not_saved m.saved_lines d.lines)
      × (quantity_of store pid m'.saved_lines ≡ (
          if is_some (quantity_of store pid m.saved_lines)
          then or_else (last_asked store pid d.lines) (quantity_of store pid m.saved_lines)
          else none))
unfolding update
update-quantity_of d m store pid = ground (
  arith,
  put_lines-eq d.lines m.saved_lines,
  put_lines-quantity_of d.lines m.saved_lines store pid,
)
