-- ===== src/Payments/Reconciler.antt =====
-- PaymentReconciler of src/services/payments/reconciler.py, which polls the open invoices. What the
-- provider answers to the list of invoice ids is an argument (none: the call raises).
use atlasarb.Prelude.{
  ℕ, zero, suc, ◌+◌, String, Bool, true, false, ◌&&◌, Option, none, some, is_some, List, [], ◌∷◌,
  ◌==◌, string_eq, if◌then◌else◌, filter,
}
use atlasarb.Prelude.Dict
use atlasarb.Prelude.Dict.{Dict}
use atlasarb.Purchases.{pending, is_paid, status_eq}
use atlasarb.Payments.Json.{Fields, get_or_null, is_text}
use atlasarb.Payments.Db.{
  M, Row, Result, ok, raise, attribute_error, illegal_transition, integrity_error, provider_error,
  pure, fail, gets, session, ◌>>=◌, ◌>>◌, PaymentEvent,
}
use atlasarb.Payments.Repo.{get_purchase, record_event, created_before}
use atlasarb.Payments.Service.{mark_paid, mark_expired}
use atlasarb.Payments.Callback.{Codec, asset_of}
use atlasarb.Payments.Webhook.{provider_name}

-- ORDER BY created_at
unfoldable pub insert_row : Row → List Row → List Row
unfolding created_before
insert_row p [] = p ∷ []
insert_row p (q ∷ qs) = if created_before q p then q ∷ insert_row p qs else p ∷ q ∷ qs

unfoldable pub sort_rows : List Row → List Row
unfolding insert_row
sort_rows [] = []
sort_rows (p ∷ ps) = insert_row p (sort_rows ps)

-- LIMIT
unfoldable pub limit_rows : ℕ → List Row → List Row
limit_rows zero ps = []
limit_rows (suc n) [] = []
limit_rows (suc n) (p ∷ ps) = p ∷ limit_rows n ps

unfoldable pub is_polled : String → Row → Bool
is_polled provider p =
    (p.status == pending) && (p.provider == provider) && is_some p.external_payment_id

unfoldable pub pending_with_invoice : String → ℕ → M (List Row)
unfolding is_polled sort_rows limit_rows
pending_with_invoice provider n =
    gets (λ d. limit_rows n (sort_rows (filter (is_polled provider) (Dict.values d.purchases))))

-- `by_invoice`; an empty id is left out, and the last purchase of an id counts
unfoldable pub index_rows : List Row → Dict String Row → Dict String Row
unfolding Dict.put
index_rows [] m = m
index_rows (p ∷ ps) m = elim p.external_payment_id [
  | none ↦ index_rows ps m
  | some ref ↦ index_rows ps (if ref == "" then m else Dict.put ref p m)
]

unfoldable pub poll_event : Row → Fields → PaymentEvent
poll_event p invoice = record {
  provider = provider_name;
  update_id = none;
  invoice_id = p.external_payment_id;
  purchase_id = some p.id;
  event_type = "reconcile_paid";
  signature_valid = true;
  processed = true;
  payload = invoice;
}

module _ (c : Codec) (now : ℕ) where
  -- behind `mark_paid` in `_settle`
  unfoldable pub polled : Result (Option Row) → M Bool
  unfolding is_paid
  polled (ok none) = pure false
  polled (ok (some p)) = pure (is_paid p)
  polled (raise (illegal_transition s t)) = pure false
  polled (raise integrity_error) = fail integrity_error
  polled (raise attribute_error) = fail attribute_error
  polled (raise provider_error) = fail provider_error

  unfoldable pub settle_polled : Row → Fields → M Bool
  unfolding polled mark_paid asset_of
  settle_polled p invoice d =
      let r = mark_paid now p.id p.external_payment_id (asset_of c invoice) (some invoice) d in
      polled r.0 r.1

  unfoldable pub record_poll : Row → Fields → M Bool
  unfolding record_event poll_event settle_polled
  record_poll p invoice = do session (record_event (poll_event p invoice)); settle_polled p invoice

  unfoldable pub settle_unpaid : Row → Fields → Option Row → M Bool
  unfolding record_poll is_paid
  settle_unpaid p invoice none = pure false
  settle_unpaid p invoice (some fresh) = if is_paid fresh then pure false else record_poll p invoice

  -- `_settle`
  unfoldable pub settle_invoice : Row → Fields → M Bool
  unfolding get_purchase settle_unpaid
  settle_invoice p invoice = do fresh ← session (get_purchase p.id); settle_unpaid p invoice fresh

  unfoldable pub expire_invoice : Row → M Bool
  unfolding mark_expired
  expire_invoice p = do mark_expired now p.id "invoice expired"; pure false

  -- one invoice of the answer, and whether it is settled now
  unfoldable pub poll_one : Option Row → Fields → M Bool
  unfolding settle_invoice expire_invoice is_text get_or_null
  poll_one none invoice = pure false
  poll_one (some p) invoice =
      if is_text "paid" (get_or_null "status" invoice)
      then settle_invoice p invoice
      else if is_text "expired" (get_or_null "status" invoice)
      then expire_invoice p
      else pure false

  -- the `for` loop, with the number settled so far
  unfoldable pub poll_all : Dict String Row → List Fields → ℕ → M ℕ
  unfolding poll_one Dict.get
  poll_all by_invoice [] settled = pure settled
  poll_all by_invoice (invoice ∷ more) settled = do
    paid_now ← poll_one (Dict.get (c.str (get_or_null "invoice_id" invoice)) by_invoice) invoice
    poll_all by_invoice more (if paid_now then settled + 1 else settled)

  unfoldable pub poll_answer : Dict String Row → Option (List Fields) → M ℕ
  unfolding poll_all
  poll_answer by_invoice none = pure 0
  poll_answer by_invoice (some invoices) = poll_all by_invoice invoices 0

  unfoldable pub poll_pending : (List String → Option (List Fields)) → List Row → M ℕ
  unfolding poll_answer index_rows Dict.keys
  poll_pending answer [] = pure 0
  poll_pending answer (p ∷ ps) =
      poll_answer (index_rows (p ∷ ps) []) (answer (Dict.keys (index_rows (p ∷ ps) [])))

  unfoldable pub run_once : ℕ → (List String → Option (List Fields)) → M ℕ
  unfolding pending_with_invoice poll_pending
  run_once batch answer = do
    rows ← session (pending_with_invoice provider_name batch)
    poll_pending answer rows
