-- ===== src/Payments/CallbackEffects.antt =====
-- What an unauthorised callback (src/services/payments/webhook.py) may change: the log of events.
use atlasarb.Prelude.{
  ℕ, String, Bool, true, false, ◌&&◌, Option, none, some, [], ◌∷◌, ◌++◌, ◌≡◌, ◌⊎◌, inl, inr, refl,
  arith, string_eq, nat_eq, bool_eq, option_eq, pair_eq, Bool-cases, Option-cases, length,
}
use atlasarb.Prelude.Dict
use atlasarb.Prelude.Dict.{Dict}
use atlasarb.Payments.Json.{Json, Fields, null, bool, int, float, text, arr, obj}
use atlasarb.Payments.Db.{Db, ok, raise, integrity_error, session, PaymentEvent}
use atlasarb.Payments.Repo.{record_event, get_purchase, update_taken}
use atlasarb.Payments.Callback.{Codec, Update, read_update, amount_matches, is_paid_event}
use atlasarb.Payments.Webhook.{
  settle_callback, find_purchase, event_of, act_on, log_and_act, handle_update, handle_json,
  handle_malformed, handle, malformed_event,
}
use atlasarb.Payments.CallbackSafety.{guard_hit, is_duplicate_lem}

-- Only the log of events may differ.
pub record OnlyEvents (d d' : Db) : Type 0 where
  pub users_same : d'.users ≡ d.users
  pub billing_same : d'.billing ≡ d.billing
  pub purchases_same : d'.purchases ≡ d.purchases
  pub favorites_same : d'.favorites ≡ d.favorites

OnlyEvents-refl : (d : Db) → OnlyEvents d d
OnlyEvents-refl d = record {
  users_same = refl;
  billing_same = refl;
  purchases_same = refl;
  favorites_same = refl;
}

-- An event is logged, or refused and nothing changes.
pub record_event_cases :
    (e : PaymentEvent) (d : Db)
    → ((session (record_event e) d ≡ (raise integrity_error, d))
        × (update_taken e e.update_id d.events ≡ true))
      ⊎ (session (record_event e) d
          ≡ (ok (length d.events), record d { events = d.events ++ e ∷ [] }))
unfolding record_event
record_event_cases e d = elim (Bool-cases (update_taken e e.update_id d.events)) [
  | inl taken ↦ inl (rw taken, taken)
  | inr free ↦ inr (rw free)
]

module _ (c : Codec) where
  -- Whether a decoded update may settle a purchase.
  abbrev pub authorises : ℕ → Bool → Update → Bool
  authorises price valid u = valid && is_paid_event u && amount_matches c price u.invoice

  find_purchase_refused :
      (price now : ℕ) (u : Update) (event : ℕ) (id : Option String) (d : Db)
      → amount_matches c price u.invoice ≡ false
      → (find_purchase c price now u event id d).1 ≡ d
  unfolding find_purchase settle_callback get_purchase
  find_purchase_refused price now u event none d h = refl
  find_purchase_refused price now u event (some id) d h =
      elim (Option-cases (Dict.get id d.purchases)) [
        | inl missing ↦ rw missing
        | inr (p, found) ↦ rw (found, h)
      ]

  act_on_refused :
      (price now : ℕ) (valid : Bool) (u : Update) (event : ℕ) (d : Db)
      → authorises price valid u ≡ false
      → (act_on c price now valid u event d).1 ≡ d
  unfolding act_on
  act_on_refused price now false u event d h = refl
  act_on_refused price now true u event d h = elim (Bool-cases (is_paid_event u)) [
    | inr other ↦ rw other
    | inl right ↦ rw right (find_purchase_refused price now u event u.purchase_id d (ground arith))
  ]

  -- Whether a decoded body is an authorised update.
  abbrev pub authorises_json : ℕ → Bool → Json → Bool
  authorises_json price valid (obj fs) = authorises price valid (read_update c fs)
  authorises_json price valid null = false
  authorises_json price valid (bool b) = false
  authorises_json price valid (int minus n) = false
  authorises_json price valid (float nonzero t) = false
  authorises_json price valid (text t) = false
  authorises_json price valid (arr xs) = false

  log_and_act-OnlyEvents :
      (price now : ℕ) (valid : Bool) (payload : Fields) (u : Update) (d : Db)
      → authorises price valid u ≡ false
      → OnlyEvents d (log_and_act c price now valid payload u d).1
  unfolding log_and_act
  log_and_act-OnlyEvents price now valid payload u d h =
      elim (record_event_cases (event_of c valid payload u) d) [
        | inl (ran, _) ↦ rw ran (OnlyEvents-refl d)
        | inr ran ↦ rw ran (
            rw
              (act_on_refused price now valid u (length d.events)
                (record d { events = d.events ++ event_of c valid payload u ∷ [] }) h)
              (record {
                users_same = refl;
                billing_same = refl;
                purchases_same = refl;
                favorites_same = refl;
              }))
      ]

  handle_json-OnlyEvents :
      (price now : ℕ) (valid : Bool) (j : Json) (d : Db)
      → authorises_json price valid j ≡ false
      → OnlyEvents d (handle_json c price now valid j d).1
  unfolding handle_json handle_update
  handle_json-OnlyEvents price now valid (obj fs) d h =
      let n = (read_update c fs).update_id in
      rw (is_duplicate_lem c valid n d) (elim (Bool-cases (guard_hit c valid n d)) [
        | inl hit ↦ rw hit (OnlyEvents-refl d)
        | inr new ↦ rw new (log_and_act-OnlyEvents price now valid fs (read_update c fs) d h)
      ])
  handle_json-OnlyEvents price now valid null d h = OnlyEvents-refl d
  handle_json-OnlyEvents price now valid (bool b) d h = OnlyEvents-refl d
  handle_json-OnlyEvents price now valid (int minus n) d h = OnlyEvents-refl d
  handle_json-OnlyEvents price now valid (float nonzero t) d h = OnlyEvents-refl d
  handle_json-OnlyEvents price now valid (text t) d h = OnlyEvents-refl d
  handle_json-OnlyEvents price now valid (arr xs) d h = OnlyEvents-refl d

  handle_malformed-OnlyEvents :
      (valid : Bool) (body : String) (d : Db) → OnlyEvents d (handle_malformed c valid body d).1
  unfolding handle_malformed record_event malformed_event
  handle_malformed-OnlyEvents valid body d = record {
    users_same = refl;
    billing_same = refl;
    purchases_same = refl;
    favorites_same = refl;
  }

  -- Whether a request is an authorised callback: its body decodes to an object, its signature
  -- verifies, it reports a payment, and its invoice has the right amount.
  abbrev pub authorises_body : ℕ → String → String → Bool
  authorises_body price body signature = elim (c.loads body) [
    | none ↦ false
    | some j ↦ authorises_json price (c.verify body signature) j
  ]

  -- A request that is not an authorised callback changes no user, billing event, purchase or favourite,
  -- whatever it carries and also when `handle` raises.
  pub handle-OnlyEvents :
      (price now : ℕ) (body signature : String) (d : Db)
      → authorises_body price body signature ≡ false
      → OnlyEvents d (handle c price now body signature d).1
  unfolding handle
  handle-OnlyEvents price now body signature d h = elim (Option-cases (c.loads body)) [
    | inl unreadable ↦
        rw (unreadable, handle) (handle_malformed-OnlyEvents (c.verify body signature) body d)
    | inr (j, decoded) ↦
        rw (decoded, handle)
          (handle_json-OnlyEvents price now (c.verify body signature) j d
            (rw (decoded, authorises_body) at h))
  ]
