-- ===== src/Shop/Allocations.antt =====
-- What the planning found for a project of the shop: stock, a part of an order, and an order that is
-- wholly the project's already.
use materials_management_sha.Prelude.{none, some, [], ◌∷◌}
use materials_management_sha.Text.{codes}
use materials_management_sha.Database.{Db}
use materials_management_sha.Planning.Allocate.{Target, Preview}
use materials_management_sha.Shop.{shop}

-- The shop with a project.
abbrev pub project_shop : Db
project_shop = record shop { projects = 1 ∷ [] }

abbrev pub target : Target
target = record {
  project_id = 1;
  target_date = some 40;
  purpose = codes "Confirmed allocation";
  note = codes "Workspace";
}

abbrev pub preview : Preview
preview = record {
  status = codes "CONFIRMED";
  signature = codes "rows";
  rows =
      (
        1,
        record {
          source_type = codes "stock";
          quantity = 3;
          label = codes "Stock";
          ref_id = none;
          project_id = none;
          date = none;
          status = none;
        }
            ∷ record {
              source_type = codes "generic_order";
              quantity = 2;
              label = codes "Order 4";
              ref_id = some 4;
              project_id = none;
              date = some 30;
              status = none;
            }
            ∷ [],
      )
      ∷ [];
}
