-- ===== src/Examples/Updates.antt =====
-- The update of an order at the example shop.
use materials_management_sha.Prelude.{refl, arith}
use materials_management_sha.Database.Triples.{After}
use materials_management_sha.Database.Table.{find}
use materials_management_sha.Orders.Update.{update_order}
use materials_management_sha.Orders.Parts.{UpdatedFrom}
use materials_management_sha.Orders.Updated.{update_order-Updated}
use materials_management_sha.Shop.{shop, postponement}

update_order-Updated_example : After (UpdatedFrom 4 shop) (update_order 4 postponement shop)
unfolding find
update_order-Updated_example =
    update_order-Updated 4 postponement shop (refl, (refl, tt)) (omega arith, (omega arith, tt))
