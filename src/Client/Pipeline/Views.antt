-- ===== src/Client/Pipeline/Views.antt =====
-- The state of the task of src/client/pipeline.rs as Client/Pipeline/Spec sees it.
use rust_modbus.Prelude.{
  ℕ, ◌≡◌, refl, ap, ◌∙◌, subst, ◌≢◌, inl, inr, Option, none, List, [], ◌∷◌, arith, ◌==◌, Bool-cases,
  ok, err, fun_ext,
}
use rust_modbus.Error.{desynchronized}
use rust_modbus.Client.Pipeline.{
  Task, Command, Waiting, find, remove, fail_entries, issue, desynchronize, register,
}
use rust_modbus.Client.Pipeline.Table.{IsDistinct, find-remove, find-remove_other}
use rust_modbus.Client.Pipeline.Spec.{
  Spec, Answers, put, clear, forget, failed, submitted, lookup, HasNoRepeats, failures, AreFailures,
  reply_of, view, answers_of,
}

abbrev pub pending_of : List Waiting → ℕ → Option ℕ
pending_of entries transaction = reply_of (find transaction entries)

-- The table of the entries, in their order.
unfoldable table_of : List Waiting → List (ℕ × ℕ)
table_of [] = []
table_of (entry ∷ entries) = (entry.transaction, entry.reply) ∷ table_of entries

lookup-table_of :
    (entries : List Waiting) (transaction : ℕ)
    → lookup transaction (table_of entries) ≡ pending_of entries transaction
unfolding lookup table_of find reply_of
lookup-table_of [] transaction = refl
lookup-table_of (entry ∷ entries) transaction = ground (arith, lookup-table_of entries transaction)

table_of-HasNoRepeats :
    (entries : List Waiting) → IsDistinct entries → HasNoRepeats (table_of entries)
unfolding HasNoRepeats table_of IsDistinct reply_of
table_of-HasNoRepeats [] d = tt
table_of-HasNoRepeats (entry ∷ entries) (d, ds) =
    (lookup-table_of entries entry.transaction ∙ ap reply_of d, table_of-HasNoRepeats entries ds)

answers_of-fail_entries :
    (entries : List Waiting) → answers_of (fail_entries entries) ≡ failures (table_of entries)
unfolding answers_of fail_entries failures table_of
answers_of-fail_entries [] = refl
answers_of-fail_entries (entry ∷ entries) =
    ap (λ (l : Answers). (entry.reply, err desynchronized) ∷ l) (answers_of-fail_entries entries)

pub fail_entries-AreFailures :
    (entries : List Waiting)
    → IsDistinct entries
    → AreFailures (pending_of entries) (answers_of (fail_entries entries))
fail_entries-AreFailures entries d = record {
  table = table_of entries;
  once = table_of-HasNoRepeats entries d;
  lists = lookup-table_of entries;
  fails = answers_of-fail_entries entries;
}

pub pending-remove :
    (transaction : ℕ) (entries : List Waiting)
    → pending_of (remove transaction entries) ≡ clear transaction (pending_of entries)
unfolding reply_of
pending-remove transaction entries = fun_ext (λ i. elim (Bool-cases (transaction == i)) [
  | inl e ↦
      let same : transaction ≡ i = ground arith in
      rw e (
        ap reply_of (
          subst (λ (j : ℕ). find j (remove transaction entries) ≡ none) same
            (find-remove transaction entries)))
  | inr e ↦
      let other : i ≢ transaction = ground arith in
      rw e (ap reply_of (find-remove_other transaction i entries other))
])

pending-put :
    (entry : Waiting) (entries : List Waiting)
    → pending_of (entry ∷ remove entry.transaction entries)
      ≡ put entry.transaction entry.reply (pending_of entries)
unfolding reply_of find
pending-put entry entries = fun_ext (λ i. elim (Bool-cases (entry.transaction == i)) [
  | inl e ↦ rw e refl
  | inr e ↦
      let other : i ≢ entry.transaction = ground arith in
      rw e (ap reply_of (find-remove_other entry.transaction i entries other))
])

-- The state after the entry of an identifier is gone, after all are, and after one has come.
pub view-remove :
    (transaction : ℕ) (task : Task)
    → view (record task { in_flight = remove transaction task.in_flight })
      ≡ forget transaction (view task)
unfolding view
view-remove transaction task =
    ap
      (λ (pending : ℕ → Option ℕ).
        let s : Spec = record {
          broken = task.is_desynchronized;
          pending = pending;
          issued = task.issued;
        } in
        s)
      (pending-remove transaction task.in_flight)

pub view-desynchronize : (task : Task) → view (desynchronize task).0 ≡ failed (view task)
unfolding view desynchronize find reply_of
view-desynchronize task = refl

pub view-register :
    (c : Command) (key : ℕ) (task : Task)
    → view (register c (ok key) (record task { issued = issue task.issued c.transaction })).0
      ≡ submitted c (view task)
unfolding view register
view-register c key task =
    ap
      (λ (pending : ℕ → Option ℕ).
        let s : Spec = record {
          broken = task.is_desynchronized;
          pending = pending;
          issued = issue task.issued c.transaction;
        } in
        s)
      (pending-put (record { transaction = c.transaction; reply = c.reply; key = key })
        task.in_flight)
