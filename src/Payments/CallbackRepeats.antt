-- ===== src/Payments/CallbackRepeats.antt =====
-- A callback whose update id is in the log (src/services/payments/webhook.py).
use atlasarb.Prelude.{
  ℕ, String, Bool, true, false, some, List, [], ◌∷◌, ◌++◌, ◌≡◌, inl, inr, refl, arith, string_eq,
  nat_eq, bool_eq, option_eq, pair_eq, ==_refl, Bool-cases, length,
}
use atlasarb.Payments.Json.{Fields, obj}
use atlasarb.Payments.Db.{Db, ok, PaymentEvent}
use atlasarb.Payments.Repo.{record_event, seen_in, update_taken}
use atlasarb.Payments.Callback.{Codec, Update, read_update}
use atlasarb.Payments.Webhook.{
  plain, duplicate, provider_name, event_of, log_and_act, handle_update, handle_json, handle,
}
use atlasarb.Payments.Sound.{IsSound}
use atlasarb.Payments.Writes.{session-Good}
use atlasarb.Payments.CallbackSafety.{
  guard_hit, is_duplicate_lem, act_on-Good, record_event-Good, seen_in-append,
}
use atlasarb.Payments.CallbackEffects.{
  OnlyEvents, record_event_cases, handle-OnlyEvents, authorises_body,
}

module _ (c : Codec) where
  pub handle_lem :
      (price now : ℕ) (body signature : String) (fs : Fields) (d : Db)
      → c.loads body ≡ some (obj fs)
      → handle c price now body signature d
        ≡ handle_update c price now (c.verify body signature) fs (read_update c fs) d
  unfolding handle handle_json
  handle_lem price now body signature fs d decoded = rw (decoded, handle)

  handle_update_seen :
      (price now : ℕ) (payload : Fields) (u : Update) (d : Db)
      → guard_hit c true u.update_id d ≡ true
      → handle_update c price now true payload u d ≡ (ok (plain true duplicate), d)
  unfolding handle_update
  handle_update_seen price now payload u d seen =
      rw (is_duplicate_lem c true u.update_id d) (rw seen)

  guard_seen :
      (valid : Bool) (n : Bool × ℕ) (d : Db)
      → guard_hit c valid (some n) d ≡ true
      → seen_in provider_name n d.events ≡ true
  guard_seen false n d h = cc
  guard_seen true n d h = h

  logged_seen :
      (valid : Bool) (payload : Fields) (u : Update) (n : Bool × ℕ) (es : List PaymentEvent)
      → u.update_id ≡ some n
      → seen_in provider_name n (es ++ event_of c valid payload u ∷ []) ≡ true
  unfolding event_of
  logged_seen valid payload u n es numbered =
      rw (seen_in-append provider_name n es (event_of c valid payload u))
        (rw numbered (ground (arith, ==_refl (some n))))

  log_and_act_logs :
      (price now : ℕ) (valid : Bool) (payload : Fields) (u : Update) (n : Bool × ℕ) (d : Db)
      → IsSound d
      → u.update_id ≡ some n
      → seen_in provider_name n (log_and_act c price now valid payload u d).1.events ≡ true
  unfolding log_and_act event_of update_taken
  log_and_act_logs price now valid payload u n d s numbered =
      elim (record_event_cases (event_of c valid payload u) d) [
        | inl (ran, taken) ↦ rw ran (rw numbered at taken)
        | inr ran ↦
            (let e = event_of c valid payload u in
              let logged = session-Good (record_event e) d s (record_event-Good e d s) in
              let sound = (rw ran at logged).0 in
              rw ran (
                (act_on-Good c price now valid u (length d.events) _ sound).1.seen provider_name n
                  (logged_seen valid payload u n d.events numbered)))
      ]

  handle_update_logs :
      (price now : ℕ) (valid : Bool) (payload : Fields) (u : Update) (n : Bool × ℕ) (d : Db)
      → IsSound d
      → u.update_id ≡ some n
      → seen_in provider_name n (handle_update c price now valid payload u d).1.events ≡ true
  unfolding handle_update
  handle_update_logs price now valid payload u n d s numbered =
      rw (is_duplicate_lem c valid u.update_id d)
        (elim (Bool-cases (guard_hit c valid u.update_id d)) [
          | inl hit ↦ rw hit (guard_seen valid n d (rw numbered at hit))
          | inr new ↦ rw new (log_and_act_logs price now valid payload u n d s numbered)
        ])

  -- In tables that keep the invariant, two requests whose bodies decode to objects with the same
  -- update id, of which the second is verified: the second is answered as a duplicate and writes
  -- nothing, whatever came of the first, be it forged or refused.
  pub handle_repeated :
      (price now now' : ℕ) (body signature body' signature' : String) (fs fs' : Fields)
      (n : Bool × ℕ) (d : Db)
      → IsSound d
      → c.loads body ≡ some (obj fs)
      → (read_update c fs).update_id ≡ some n
      → c.loads body' ≡ some (obj fs')
      → (read_update c fs').update_id ≡ some n
      → c.verify body' signature' ≡ true
      → handle c price now' body' signature' (handle c price now body signature d).1
        ≡ (ok (plain true duplicate), (handle c price now body signature d).1)
  handle_repeated price now now' body signature body' signature' fs fs' n d s first numbered second
        same verified =
      let logged =
        handle_update_logs price now (c.verify body signature) fs (read_update c fs) n d s
          numbered in
      let e = (handle_update c price now (c.verify body signature) fs (read_update c fs) d).1 in
      rw (handle_lem price now body signature fs d first) (
        rw (handle_lem price now' body' signature' fs' e second)
          (rw verified (handle_update_seen price now' fs' (read_update c fs') e (rw same logged))))

  -- In tables that keep the invariant, a request that is not verified, then a verified one, whose
  -- bodies decode to objects with the same update id: the verified one is answered as a duplicate,
  -- and the two change no user, billing event, purchase or favourite, also when the second reports
  -- a payment of the right amount.
  pub handle_hidden :
      (price now now' : ℕ) (body signature body' signature' : String) (fs fs' : Fields)
      (n : Bool × ℕ) (d : Db)
      → IsSound d
      → c.loads body ≡ some (obj fs)
      → (read_update c fs).update_id ≡ some n
      → c.verify body signature ≡ false
      → c.loads body' ≡ some (obj fs')
      → (read_update c fs').update_id ≡ some n
      → c.verify body' signature' ≡ true
      → ((handle c price now' body' signature' (handle c price now body signature d).1).0
          ≡ ok (plain true duplicate))
        × OnlyEvents d
            (handle c price now' body' signature' (handle c price now body signature d).1).1
  handle_hidden price now now' body signature body' signature' fs fs' n d s first numbered forged
        second same verified =
      rw
        (handle_repeated price now now' body signature body' signature' fs fs' n d s first numbered
          second same verified)
        (
          refl,
          handle-OnlyEvents c price now body signature d (rw (first, authorises_body) (rw forged)),
        )
