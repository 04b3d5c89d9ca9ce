-- ===== src/Order/Tests/Shipping.antt =====
-- A run of the checks of a recipient.
use e_commerce.Common.{some, [], ◌∷◌}
use e_commerce.Contact.Tests.{ascii, person, place}
use e_commerce.Order.Shipping.{
  ShippingDto, ups, shipping_try_from, AcceptsShipping, shipping_try_from-Accepts,
}

abbrev pub recipient : ShippingDto
recipient = record {
  contact = person;
  address = some place;
  option = record { seller_id = 7; method = ups } ∷ [];
}

shipping_try_from-Accepts_example :
    AcceptsShipping ascii recipient (shipping_try_from ascii recipient)
shipping_try_from-Accepts_example = shipping_try_from-Accepts ascii recipient
