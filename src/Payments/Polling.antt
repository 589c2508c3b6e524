-- ===== src/Payments/Polling.antt =====
-- The reconciler (src/services/payments/reconciler.py) keeps the invariant of the tables.
use atlasarb.Prelude.{
  ℕ, ◌+◌, String, false, Option, none, some, List, [], ◌∷◌, inl, inr, if◌then◌else◌, Bool-cases,
  Option-cases, string_eq, filter,
}
use atlasarb.Prelude.Dict
use atlasarb.Prelude.Dict.{Dict}
use atlasarb.Purchases.{is_paid, expired}
use atlasarb.Payments.Json.{Fields, get_or_null, is_text}
use atlasarb.Payments.Db.{
  Db, Row, Result, ok, raise, attribute_error, illegal_transition, integrity_error, provider_error,
  pure, session,
}
use atlasarb.Payments.Repo.{get_purchase, record_event}
use atlasarb.Payments.Service.{mark_expired}
use atlasarb.Payments.Callback.{Codec, asset_of}
use atlasarb.Payments.Webhook.{provider_name}
use atlasarb.Payments.Reconciler.{
  polled, settle_polled, record_poll, settle_unpaid, settle_invoice, expire_invoice, poll_one,
  poll_all, poll_answer, poll_pending, run_once, poll_event, pending_with_invoice, index_rows,
  limit_rows, sort_rows, is_polled,
}
use atlasarb.Payments.Sound.{IsSound}
use atlasarb.Payments.Writes.{Good, Good-refl, Good-trans, session-Good, bind-Good}
use atlasarb.Payments.Operations.{close-Good}
use atlasarb.Payments.Settling.{mark_paid-Good}
use atlasarb.Payments.CallbackSafety.{record_event-Good}

module _ (c : Codec) (now : ℕ) where
  polled-Good : (r : Result (Option Row)) (d : Db) → IsSound d → Good d (polled c now r d).1
  unfolding polled
  polled-Good (ok none) d s = Good-refl d s
  polled-Good (ok (some p)) d s = Good-refl d s
  polled-Good (raise (illegal_transition a b)) d s = Good-refl d s
  polled-Good (raise integrity_error) d s = Good-refl d s
  polled-Good (raise attribute_error) d s = Good-refl d s
  polled-Good (raise provider_error) d s = Good-refl d s

  settle_polled-Good :
      (p : Row) (invoice : Fields) (d : Db) → IsSound d → Good d (settle_polled c now p invoice d).1
  unfolding settle_polled
  settle_polled-Good p invoice d s =
      let good =
        mark_paid-Good now p.id p.external_payment_id (asset_of c invoice) (some invoice) d s in
      Good-trans d _ _ good (polled-Good _ _ good.0)

  record_poll-Good :
      (p : Row) (invoice : Fields) (d : Db) → IsSound d → Good d (record_poll c now p invoice d).1
  unfolding record_poll
  record_poll-Good p invoice d s =
      let logged =
        session-Good (record_event (poll_event p invoice)) d s
          (record_event-Good (poll_event p invoice) d s) in
      bind-Good (session (record_event (poll_event p invoice))) (λ _. settle_polled c now p invoice)
        d logged (λ _ _. settle_polled-Good p invoice _ logged.0)

  settle_invoice-Good :
      (p : Row) (invoice : Fields) (d : Db)
      → IsSound d
      → Good d (settle_invoice c now p invoice d).1
  unfolding settle_invoice get_purchase settle_unpaid
  settle_invoice-Good p invoice d s = elim (Option-cases (Dict.get p.id d.purchases)) [
    | inl missing ↦ rw (missing, settle_unpaid) (Good-refl d s)
    | inr (fresh, found) ↦
        rw (found, settle_unpaid)
          (elim (Bool-cases (is_paid fresh)) [
            | inl old ↦ rw old (Good-refl d s)
            | inr new ↦ rw new (record_poll-Good p invoice d s)
          ])
  ]

  expire_invoice-Good : (p : Row) (d : Db) → IsSound d → Good d (expire_invoice c now p d).1
  unfolding expire_invoice mark_expired
  expire_invoice-Good p d s =
      let closed = close-Good now p.id expired "invoice expired" d (λ e. cc) s in
      bind-Good (mark_expired now p.id "invoice expired") (λ _. pure false) d closed
        (λ _ _. Good-refl _ closed.0)

  poll_one-Good :
      (o : Option Row) (invoice : Fields) (d : Db)
      → IsSound d
      → Good d (poll_one c now o invoice d).1
  unfolding poll_one
  poll_one-Good none invoice d s = Good-refl d s
  poll_one-Good (some p) invoice d s =
      elim (Bool-cases (is_text "paid" (get_or_null "status" invoice))) [
        | inl settles ↦ rw settles (settle_invoice-Good p invoice d s)
        | inr other ↦
            rw other (elim (Bool-cases (is_text "expired" (get_or_null "status" invoice))) [
              | inl lapsed ↦ rw lapsed (expire_invoice-Good p d s)
              | inr waits ↦ rw waits (Good-refl d s)
            ])
      ]

  poll_all-Good :
      (m : Dict String Row) (invoices : List Fields) (settled : ℕ) (d : Db)
      → IsSound d
      → Good d (poll_all c now m invoices settled d).1
  unfolding poll_all
  poll_all-Good m [] settled d s = Good-refl d s
  poll_all-Good m (invoice ∷ more) settled d s =
      let o = Dict.get (c.str (get_or_null "invoice_id" invoice)) m in
      let good = poll_one-Good o invoice d s in
      bind-Good (poll_one c now o invoice)
        (λ paid_now. poll_all c now m more (if paid_now then settled + 1 else settled)) d good
        (λ paid_now _. poll_all-Good m more (if paid_now then settled + 1 else settled) _ good.0)

  poll_answer-Good :
      (m : Dict String Row) (a : Option (List Fields)) (d : Db)
      → IsSound d
      → Good d (poll_answer c now m a d).1
  unfolding poll_answer
  poll_answer-Good m none d s = Good-refl d s
  poll_answer-Good m (some invoices) d s = poll_all-Good m invoices 0 d s

  poll_pending-Good :
      (answer : List String → Option (List Fields)) (ps : List Row) (d : Db)
      → IsSound d
      → Good d (poll_pending c now answer ps d).1
  unfolding poll_pending
  poll_pending-Good answer [] d s = Good-refl d s
  poll_pending-Good answer (p ∷ ps) d s =
      poll_answer-Good (index_rows (p ∷ ps) []) (answer (Dict.keys (index_rows (p ∷ ps) []))) d s

  -- In tables that keep the invariant, whatever the provider answers to a poll, `run_once` keeps
  -- the invariant and lets the tables only evolve, also when it raises.
  pub run_once-Good :
      (batch : ℕ) (answer : List String → Option (List Fields)) (d : Db)
      → IsSound d
      → Good d (run_once c now batch answer d).1
  unfolding run_once pending_with_invoice
  run_once-Good batch answer d s =
      poll_pending-Good answer
        (limit_rows batch (sort_rows (filter (is_polled provider_name) (Dict.values d.purchases))))
        d s
