-- ===== src/Examples/Allocations.antt =====
-- A confirmed allocation at the example shop.
use materials_management_sha.Database.Table.{find}
use materials_management_sha.Prelude.{◌≡◌, refl, arith, false, true, some}
use materials_management_sha.Text.{codes, text_eq}
use materials_management_sha.Database.Triples.{After}
use materials_management_sha.Planning.Allocate.{confirm_project_allocation}
use materials_management_sha.Planning.Assigned.{Allots, confirm_project_allocation-Allots}
use materials_management_sha.Shop.Allocations.{preview, project_shop, target}

confirm_project_allocation-Allots_example :
    After
      (λ r t. Allots project_shop r t × (false ≡ true → t ≡ project_shop))
      (confirm_project_allocation text_eq false target
        (some preview)
        (some (codes "rows"))
        project_shop)
unfolding find
confirm_project_allocation-Allots_example =
    confirm_project_allocation-Allots text_eq false target (some preview) (some (codes "rows"))
      project_shop (refl, (refl, tt)) (omega arith, (omega arith, tt))
