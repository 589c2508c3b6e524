-- ===== src/Payments/Webhook.antt =====
-- CryptoPayWebhookHandler of src/services/payments/webhook.py. What Python and the provider's client
-- do with a body is a parameter (`Codec`).
use atlasarb.Prelude.{
  ℕ, String, Bool, true, false, not, Option, none, some, string_eq, nat_eq, if◌then◌else◌,
}
use atlasarb.Payments.Json.{Json, Fields, null, bool, int, float, text, arr, obj, end, field}
use atlasarb.Payments.Callback.{Codec, Update, read_update, amount_matches, asset_of, is_paid_event}
use atlasarb.Payments.Db.{
  M, Row, Result, ok, raise, attribute_error, illegal_transition, integrity_error, provider_error,
  pure, fail, session, ◌>>=◌, ◌>>◌, PaymentEvent,
}
use atlasarb.Payments.Repo.{already_seen, record_event, mark_processed, get_purchase}
use atlasarb.Payments.Service.{mark_paid}
use atlasarb.Purchases.{is_paid}

pub data Status : Type 0 where
  activated duplicate invalid_signature malformed ignored unknown_purchase : Status
  amount_mismatch already_paid : Status

-- `confirmed` is the purchase that `on_paid` is called with.
pub record WebhookResult : Type 0 where
  pub accepted : Bool
  pub status : Status
  pub purchase : Option Row
  pub confirmed : Option Row

abbrev pub provider_name : String
provider_name = "cryptobot"

abbrev pub plain : Bool → Status → WebhookResult
plain accepted status = record {
  accepted = accepted;
  status = status;
  purchase = none;
  confirmed = none;
}

module _ (c : Codec) where
  -- the result once `mark_paid` has returned
  unfoldable pub settled_result : Option Row → WebhookResult
  unfolding is_paid
  settled_result none = plain true activated
  settled_result (some p) = record {
    accepted = true;
    status = activated;
    purchase = some p;
    confirmed = if is_paid p then some p else none;
  }

  -- `except IllegalPurchaseTransition`, and the end of `handle`
  unfoldable pub finish : ℕ → Row → Result (Option Row) → M WebhookResult
  unfolding settled_result mark_processed
  finish event p (ok settled) = do session (mark_processed event); pure (settled_result settled)
  finish event p (raise (illegal_transition s t)) =
      pure (record { accepted = false; status = ignored; purchase = some p; confirmed = none })
  finish event p (raise integrity_error) = fail integrity_error
  finish event p (raise attribute_error) = fail attribute_error
  finish event p (raise provider_error) = fail provider_error

  -- from the amount check on
  unfoldable pub settle_callback : ℕ → ℕ → Update → ℕ → Row → M WebhookResult
  unfolding amount_matches asset_of finish mark_paid is_paid
  settle_callback price now u event p =
      if not (amount_matches c price u.invoice)
      then pure (plain false amount_mismatch)
      else if is_paid p
      then pure
          (record { accepted = true; status = already_paid; purchase = some p; confirmed = none })
      else λ d.
          let r = mark_paid now p.id u.invoice_id (asset_of c u.invoice) (some u.invoice) d in
          finish event p r.0 r.1

  unfoldable pub find_purchase : ℕ → ℕ → Update → ℕ → Option String → M WebhookResult
  unfolding settle_callback get_purchase
  find_purchase price now u event none = pure (plain true unknown_purchase)
  find_purchase price now u event (some id) = do
    found ← session (get_purchase id)
    elim found [
      | none ↦ pure (plain true unknown_purchase)
      | some p ↦ settle_callback price now u event p
    ]

  unfoldable pub event_of : Bool → Fields → Update → PaymentEvent
  event_of valid payload u = record {
    provider = provider_name;
    update_id = u.update_id;
    invoice_id = u.invoice_id;
    purchase_id = u.purchase_id;
    event_type = u.event_type;
    signature_valid = valid;
    processed = false;
    payload = payload;
  }

  -- the duplicate guard
  unfoldable pub is_duplicate : Bool → Option (Bool × ℕ) → M Bool
  unfolding already_seen
  is_duplicate false update_id = pure false
  is_duplicate true none = pure false
  is_duplicate true (some n) = session (already_seen provider_name n)

  -- behind the record of the event
  unfoldable pub act_on : ℕ → ℕ → Bool → Update → ℕ → M WebhookResult
  unfolding is_paid_event find_purchase
  act_on price now valid u event =
      if not valid
      then pure (plain false invalid_signature)
      else if not (is_paid_event u)
      then pure (plain true ignored)
      else find_purchase price now u event u.purchase_id

  unfoldable pub log_and_act : ℕ → ℕ → Bool → Fields → Update → M WebhookResult
  unfolding event_of record_event act_on
  log_and_act price now valid payload u = do
    event ← session (record_event (event_of valid payload u))
    act_on price now valid u event

  unfoldable pub handle_update : ℕ → ℕ → Bool → Fields → Update → M WebhookResult
  unfolding is_duplicate log_and_act
  handle_update price now valid payload u = do
    seen ← is_duplicate valid u.update_id
    if seen then pure (plain true duplicate) else log_and_act price now valid payload u

  unfoldable pub handle_json : ℕ → ℕ → Bool → Json → M WebhookResult
  unfolding handle_update read_update
  handle_json price now valid (obj fs) = handle_update price now valid fs (read_update c fs)
  handle_json price now valid null = fail attribute_error
  handle_json price now valid (bool b) = fail attribute_error
  handle_json price now valid (int minus n) = fail attribute_error
  handle_json price now valid (float nonzero t) = fail attribute_error
  handle_json price now valid (text t) = fail attribute_error
  handle_json price now valid (arr xs) = fail attribute_error

  unfoldable pub malformed_event : Bool → String → PaymentEvent
  malformed_event valid body = record {
    provider = provider_name;
    update_id = none;
    invoice_id = none;
    purchase_id = none;
    event_type = "";
    signature_valid = valid;
    processed = false;
    payload = field "raw" (text (c.clip body)) end;
  }

  unfoldable pub handle_malformed : Bool → String → M WebhookResult
  unfolding record_event malformed_event
  handle_malformed valid body = do
    session (record_event (malformed_event valid body))
    pure (plain false malformed)

  unfoldable pub handle : ℕ → ℕ → String → String → M WebhookResult
  unfolding handle_json handle_malformed
  handle price now body signature = elim (c.loads body) [
    | none ↦ handle_malformed (c.verify body signature) body
    | some j ↦ handle_json price now (c.verify body signature) j
  ]
