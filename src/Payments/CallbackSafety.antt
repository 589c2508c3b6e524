-- ===== src/Payments/CallbackSafety.antt =====
-- The webhook handler (src/services/payments/webhook.py) keeps the invariant of the tables, and only
-- an authorised callback can change anything but the log of events.
use atlasarb.Prelude.{
  ℕ, zero, suc, String, Bool, true, false, ◌&&◌, ◌||◌, Option, none, some, List, [], ◌∷◌, ◌++◌, ◌≡◌,
  inl, inr, refl, arith, ◌==◌, string_eq, nat_eq, bool_eq, option_eq, pair_eq, Bool-cases,
  Option-cases, any,
}
use atlasarb.Prelude.Dict
use atlasarb.Purchases.{is_paid}
use atlasarb.Payments.Json.{Json, Fields, null, bool, int, float, text, arr, obj}
use atlasarb.Payments.Db.{
  Db, Row, Result, ok, raise, attribute_error, illegal_transition, integrity_error, provider_error,
  pure, session, PaymentEvent,
}
use atlasarb.Payments.Repo.{
  already_seen, record_event, mark_processed, set_processed, get_purchase, seen_in, update_taken,
}
use atlasarb.Payments.Callback.{Codec, Update, read_update, amount_matches, asset_of, is_paid_event}
use atlasarb.Payments.Webhook.{
  plain, malformed, provider_name, finish, settle_callback, find_purchase, event_of, is_duplicate,
  act_on, log_and_act, malformed_event, handle_update, handle_json, handle_malformed, handle,
}
use atlasarb.Payments.Evolution.{Moves-refl}
use atlasarb.Payments.Sound.{IsSound}
use atlasarb.Payments.Writes.{Good, Good-refl, Good-trans, session-Good, bind-Good}
use atlasarb.Payments.Settling.{mark_paid-Good}

events-Good :
    (d : Db) (es : List PaymentEvent)
    → IsSound d
    → ((provider : String) (n : Bool × ℕ)
        → seen_in provider n d.events ≡ true
        → seen_in provider n es ≡ true)
    → Good d (record d { events = es })
events-Good d es s seen = (
  record {
    keyed = s.keyed;
    users_keyed = s.users_keyed;
    paid_billed = s.paid_billed;
    billed_known = s.billed_known;
  },
  record {
    rows = λ id p h. (p, h, Moves-refl p);
    bills = λ ref h. h;
    once = λ h. h;
    seen = seen;
    pros = λ n h. h;
  },
)

pub seen_in-append :
    (provider : String) (n : Bool × ℕ) (es : List PaymentEvent) (e : PaymentEvent)
    → seen_in provider n (es ++ e ∷ [])
      ≡ (seen_in provider n es || ((e.provider == provider) && e.update_id == some n))
unfolding seen_in any
seen_in-append provider n [] e = ground arith
seen_in-append provider n (x ∷ es) e = ground (arith, seen_in-append provider n es e)

seen_in-set_processed :
    (provider : String) (n : Bool × ℕ) (k : ℕ) (es : List PaymentEvent)
    → seen_in provider n (set_processed k es) ≡ seen_in provider n es
unfolding seen_in any set_processed
seen_in-set_processed provider n k [] = refl
seen_in-set_processed provider n zero (e ∷ es) = refl
seen_in-set_processed provider n (suc k) (e ∷ es) =
    ground (arith, seen_in-set_processed provider n k es)

pub record_event-Good : (e : PaymentEvent) (d : Db) → IsSound d → Good d (record_event e d).1
unfolding record_event
record_event-Good e d s = elim (Bool-cases (update_taken e e.update_id d.events)) [
  | inl taken ↦ rw taken (Good-refl d s)
  | inr free ↦ rw free (
      events-Good d (d.events ++ e ∷ []) s
        (λ provider n h. rw (seen_in-append provider n d.events e, h)))
]

mark_processed-Good : (k : ℕ) (d : Db) → IsSound d → Good d (mark_processed k d).1
unfolding mark_processed
mark_processed-Good k d s =
    events-Good d (set_processed k d.events) s
      (λ provider n h. rw (seen_in-set_processed provider n k d.events) h)

module _ (c : Codec) where
  finish-Good :
      (event : ℕ) (p : Row) (r : Result (Option Row)) (d : Db)
      → IsSound d
      → Good d (finish c event p r d).1
  unfolding finish
  finish-Good event p (ok settled) d s =
      session-Good (mark_processed event) d s (mark_processed-Good event d s)
  finish-Good event p (raise (illegal_transition a b)) d s = Good-refl d s
  finish-Good event p (raise integrity_error) d s = Good-refl d s
  finish-Good event p (raise attribute_error) d s = Good-refl d s
  finish-Good event p (raise provider_error) d s = Good-refl d s

  settle_callback-Good :
      (price now : ℕ) (u : Update) (event : ℕ) (p : Row) (d : Db)
      → IsSound d
      → Good d (settle_callback c price now u event p d).1
  unfolding settle_callback
  settle_callback-Good price now u event p d s =
      elim (Bool-cases (amount_matches c price u.invoice)) [
        | inr other ↦ rw other (Good-refl d s)
        | inl same ↦ rw same (elim (Bool-cases (is_paid p)) [
          | inl old ↦ rw old (Good-refl d s)
          | inr new ↦
              let good =
                mark_paid-Good now p.id u.invoice_id (asset_of c u.invoice) (some u.invoice) d s in
              rw new (Good-trans d _ _ good (finish-Good event p _ _ good.0))
        ])
      ]

  find_purchase-Good :
      (price now : ℕ) (u : Update) (event : ℕ) (id : Option String) (d : Db)
      → IsSound d
      → Good d (find_purchase c price now u event id d).1
  unfolding find_purchase get_purchase
  find_purchase-Good price now u event none d s = Good-refl d s
  find_purchase-Good price now u event (some id) d s =
      elim (Option-cases (Dict.get id d.purchases)) [
        | inl missing ↦ rw missing (Good-refl d s)
        | inr (p, found) ↦ rw found (settle_callback-Good price now u event p d s)
      ]

  pub act_on-Good :
      (price now : ℕ) (valid : Bool) (u : Update) (event : ℕ) (d : Db)
      → IsSound d
      → Good d (act_on c price now valid u event d).1
  unfolding act_on
  act_on-Good price now false u event d s = Good-refl d s
  act_on-Good price now true u event d s = elim (Bool-cases (is_paid_event u)) [
    | inr other ↦ rw other (Good-refl d s)
    | inl right ↦ rw right (find_purchase-Good price now u event u.purchase_id d s)
  ]

  -- whether the duplicate guard stops an update
  abbrev pub guard_hit : Bool → Option (Bool × ℕ) → Db → Bool
  guard_hit false n d = false
  guard_hit true none d = false
  guard_hit true (some n) d = seen_in provider_name n d.events

  pub is_duplicate_lem :
      (valid : Bool) (n : Option (Bool × ℕ)) (d : Db)
      → is_duplicate c valid n d ≡ (ok (guard_hit valid n d), d)
  unfolding is_duplicate already_seen
  is_duplicate_lem false n d = refl
  is_duplicate_lem true none d = refl
  is_duplicate_lem true (some n) d = refl

  log_and_act-Good :
      (price now : ℕ) (valid : Bool) (payload : Fields) (u : Update) (d : Db)
      → IsSound d
      → Good d (log_and_act c price now valid payload u d).1
  unfolding log_and_act
  log_and_act-Good price now valid payload u d s =
      let logged =
        session-Good (record_event (event_of c valid payload u)) d s
          (record_event-Good (event_of c valid payload u) d s) in
      bind-Good (session (record_event (event_of c valid payload u)))
        (λ event. act_on c price now valid u event) d logged
        (λ event _. act_on-Good price now valid u event _ logged.0)

  handle_update-Good :
      (price now : ℕ) (valid : Bool) (payload : Fields) (u : Update) (d : Db)
      → IsSound d
      → Good d (handle_update c price now valid payload u d).1
  unfolding handle_update
  handle_update-Good price now valid payload u d s =
      rw (is_duplicate_lem valid u.update_id d) (elim (Bool-cases (guard_hit valid u.update_id d)) [
        | inl hit ↦ rw hit (Good-refl d s)
        | inr new ↦ rw new (log_and_act-Good price now valid payload u d s)
      ])

  handle_json-Good :
      (price now : ℕ) (valid : Bool) (j : Json) (d : Db)
      → IsSound d
      → Good d (handle_json c price now valid j d).1
  unfolding handle_json
  handle_json-Good price now valid (obj fs) d s =
      handle_update-Good price now valid fs (read_update c fs) d s
  handle_json-Good price now valid null d s = Good-refl d s
  handle_json-Good price now valid (bool b) d s = Good-refl d s
  handle_json-Good price now valid (int minus n) d s = Good-refl d s
  handle_json-Good price now valid (float nonzero t) d s = Good-refl d s
  handle_json-Good price now valid (text t) d s = Good-refl d s
  handle_json-Good price now valid (arr xs) d s = Good-refl d s

  handle_malformed-Good :
      (valid : Bool) (body : String) (d : Db)
      → IsSound d
      → Good d (handle_malformed c valid body d).1
  unfolding handle_malformed
  handle_malformed-Good valid body d s =
      let e = malformed_event c valid body in
      let logged = session-Good (record_event e) d s (record_event-Good e d s) in
      bind-Good (session (record_event e)) (λ _. pure (plain false malformed)) d logged
        (λ _ _. Good-refl _ logged.0)

  -- In tables that keep the invariant, whatever body and signature arrive, `handle` keeps the
  -- invariant and lets the tables only evolve, also when it raises.
  pub handle-Good :
      (price now : ℕ) (body signature : String) (d : Db)
      → IsSound d
      → Good d (handle c price now body signature d).1
  unfolding handle
  handle-Good price now body signature d s = elim (Option-cases (c.loads body)) [
    | inl unreadable ↦
        rw (unreadable, handle) (handle_malformed-Good (c.verify body signature) body d s)
    | inr (j, decoded) ↦
        rw (decoded, handle) (handle_json-Good price now (c.verify body signature) j d s)
  ]
