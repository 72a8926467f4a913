-- ===== src/Undo/Once.antt =====
-- A transaction of backend/app/service.py that has been undone.
use materials_management_sha.Prelude.{ℕ, refl, true, Option, Option-cases, inl, inr}
use materials_management_sha.Text.{Text}
use materials_management_sha.Database.{Db, LogRow}
use materials_management_sha.Database.Triples.{After, After-continue, After-raise_if, After-trivial}
use materials_management_sha.Database.Table.{find, update}
use materials_management_sha.Database.Table.Laws.{find-update_self, find-update-none}
use materials_management_sha.Undo.{
  log_key, get_transaction, undo_row, mark_undone, undo_transaction,
}

abbrev marked : LogRow → LogRow
marked r = record r { is_undone = true }

-- The call does not return.
abbrev pub Refuses : {A : Type 0} → A → Db → Type 0
Refuses a s = ⊥

marked_refused :
    (id : ℕ) (again : Option Text) (t : Db)
    → After Refuses (undo_transaction id again (record t { log = update log_key id marked t.log }))
unfolding undo_transaction get_transaction
marked_refused id again t = elim (Option-cases (find log_key id t.log)) [
  | inl missing ↦ rw (find-update-none log_key id marked (λ r. refl) id t.log missing) tt
  | inr (row, found) ↦ rw (find-update_self log_key id marked (λ r. refl) t.log row found) tt
]

-- A transaction is undone at most once: after an undo of it that returns, no undo of it returns.
pub undo_transaction-undo_transaction :
    (id : ℕ) (note again : Option Text) (s : Db)
    → After (λ _ t. After Refuses (undo_transaction id again t)) (undo_transaction id note s)
unfolding undo_transaction mark_undone
undo_transaction-undo_transaction id _ again s =
    let Q : LogRow → Db → Type 0 = λ _ t. After Refuses (undo_transaction id again t) in
    After-continue (λ _ _. Unit {0}) Q (get_transaction id s) _
      (After-trivial (get_transaction id s))
      λ row t _. After-raise_if Q row.is_undone _ _ t λ _.
        After-continue (λ _ _. Unit {0}) Q (undo_row id row _ row.operation_type t) _
          (After-trivial (undo_row id row _ row.operation_type t))
          λ undone u _. marked_refused id again u
