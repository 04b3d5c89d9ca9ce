-- ===== src/Order/Cart.antt =====
-- Shopping carts: services/order/src/model/cart.rs.
pub mod Update
use e_commerce.Common.{
  ℕ, ◌≡◌, refl, ap, Bool, true, false, not, ◌&&◌, Option, none, some, List, [], ◌∷◌, ◌++◌, map,
  String, arith, ◌==◌, find, if◌then◌else◌, Bool-cases, inl, inr, ◌⊎◌,
}
use e_commerce.Order.Line.{BaseProductIdentity}

pub record CartLineModel : Type 0 where
  pub id_ : BaseProductIdentity
  pub qty_req : ℕ

pub record CartModel : Type 0 where
  pub owner : ℕ
  pub seq_num : ℕ
  pub title : String
  pub saved_lines : List CartLineModel
  pub new_lines : List CartLineModel

-- What a cart uses of `OrderLineRsvReqDto`: the chosen attributes are dropped.
pub record CartLineDto : Type 0 where
  pub seller_id : ℕ
  pub product_id : ℕ
  pub quantity : ℕ

pub record CartDto : Type 0 where
  pub title : String
  pub lines : List CartLineDto

-- `CartLineModel::from(CartLineDto)`
unfoldable pub line_of_dto : CartLineDto → CartLineModel
line_of_dto d = record {
  id_ = record { store_id = d.seller_id; product_id = d.product_id };
  qty_req = d.quantity;
}

-- `CartLineDto::from(CartLineModel)`
unfoldable pub dto_of_line : CartLineModel → CartLineDto
dto_of_line l = record {
  seller_id = l.id_.store_id;
  product_id = l.id_.product_id;
  quantity = l.qty_req;
}

-- `CartDto::from(CartModel)`: the new lines are not shown.
unfoldable pub present : CartModel → CartDto
present m = record { title = m.title; lines = map dto_of_line m.saved_lines }

-- The test of `get_line_mut`.
abbrev pub is_for : CartLineDto → CartLineModel → Bool
is_for d l = l.id_.store_id == d.seller_id && l.id_.product_id == d.product_id

-- One line of the request on the saved lines: it sets the quantity of a saved line, or is new.
unfoldable pub put_line : CartLineDto → List CartLineModel → List CartLineModel × Option CartLineDto
put_line d [] = ([], some d)
put_line d (l ∷ ls) =
    let rest = put_line d ls in
    if is_for d l then (record l { qty_req = d.quantity } ∷ ls, none) else (l ∷ rest.0, rest.1)

abbrev pub push_line : Option CartLineDto → List CartLineModel → List CartLineModel
push_line none ls = ls
push_line (some d) ls = line_of_dto d ∷ ls

-- The loop of `update`: the saved lines, and the new ones.
unfoldable pub put_lines :
    List CartLineDto → List CartLineModel → List CartLineModel × List CartLineModel
put_lines [] saved = (saved, [])
put_lines (d ∷ ds) saved =
    let (saved', is_new) = put_line d saved in
    let rest = put_lines ds saved' in (rest.0, push_line is_new rest.1)

-- `CartModel::update`
unfoldable pub update : CartDto → CartModel → CartModel
unfolding put_lines
update d m =
    let (saved, new) = put_lines d.lines m.saved_lines in
    record m { title = d.title; saved_lines = saved; new_lines = new }
