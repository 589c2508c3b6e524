-- ===== src/Payments/Traces.antt =====
-- Any sequence of calls of PurchaseService (src/services/purchase_service.py), those that raise
-- included: each call is one of its methods with the answers of the outside.
use atlasarb.Prelude.{ℕ, String, Option, some, List, [], ◌∷◌, ◌≡◌, arith, string_eq, nat_eq}
use atlasarb.Prelude.Dict
use atlasarb.Purchases.{Product, failed, cancelled, expired, paid}
use atlasarb.Payments.Json.{Fields}
use atlasarb.Payments.Db.{Db, Row}
use atlasarb.Payments.Service.{
  start_checkout, mark_pending, settle, mark_paid, mark_failed, mark_cancelled, mark_expired,
  Answer, Receipt, product_ref,
}
use atlasarb.Payments.Evolution.{HasPro, BilledOnce, bill_count, bill_count_pos}
use atlasarb.Payments.Sound.{IsSound}
use atlasarb.Payments.Writes.{Good, Good-refl, Good-trans}
use atlasarb.Payments.Operations.{close-Good, mark_pending-Good}
use atlasarb.Payments.Settling.{mark_paid-Good, settle-Good, start_checkout-Good}

pub data Call : Type 0 where
  checkout : (new_id provider_id : String) → (Row → Answer) → ℕ → Product → Call
  pend : (purchase_id external_payment_id : String) → Call
  settled : Receipt → Call
  pay : String → Option String → Option String → Option Fields → Call
  fail : String → String → Call
  cancel : String → String → Call
  expire : String → String → Call

-- the tables after a call at a time
unfoldable pub perform : ℕ → Call → Db → Db
perform now (checkout new_id provider_id answer user_id product) d =
    (start_checkout now new_id provider_id answer user_id product d).1
perform now (pend purchase_id ref) d = (mark_pending now purchase_id ref d).1
perform now (settled receipt) d = (settle now receipt d).1
perform now (pay purchase_id ref asset payload) d =
    (mark_paid now purchase_id ref asset payload d).1
perform now (fail purchase_id detail) d = (mark_failed now purchase_id detail d).1
perform now (cancel purchase_id detail) d = (mark_cancelled now purchase_id detail d).1
perform now (expire purchase_id detail) d = (mark_expired now purchase_id detail d).1

unfoldable pub run : List (ℕ × Call) → Db → Db
run [] d = d
run ((now, call) ∷ calls) d = run calls (perform now call d)

perform-Good : (now : ℕ) (call : Call) (d : Db) → IsSound d → Good d (perform now call d)
unfolding perform mark_failed mark_cancelled mark_expired
perform-Good now (checkout n q a u p) d s = start_checkout-Good now n q a u p d s
perform-Good now (pend i r) d s = mark_pending-Good now i r d s
perform-Good now (settled r) d s = settle-Good now r d s
perform-Good now (pay i r a f) d s = mark_paid-Good now i r a f d s
perform-Good now (fail i t) d s = close-Good now i failed t d (λ e. cc) s
perform-Good now (cancel i t) d s = close-Good now i cancelled t d (λ e. cc) s
perform-Good now (expire i t) d s = close-Good now i expired t d (λ e. cc) s

-- From tables that keep the invariant, every sequence of calls, also of those that raise, keeps it
-- and lets the tables only evolve: no purchase is lost or changes its order data, its status only
-- follows the lifecycle, billing events stay, no payment reference comes to be billed twice, and
-- nobody loses Pro.
pub run-Good : (calls : List (ℕ × Call)) (d : Db) → IsSound d → Good d (run calls d)
unfolding run
run-Good [] d s = Good-refl d s
run-Good ((now, call) ∷ calls) d s =
    let g = perform-Good now call d s in
    Good-trans d (perform now call d) _ g (run-Good calls (perform now call d) g.0)

-- From tables that keep the invariant and in which no reference is billed twice, after any
-- sequence of calls whoever owns a purchase that is paid has Pro, and the purchase is billed
-- exactly once.
pub run-paid :
    (calls : List (ℕ × Call)) (d : Db) (id : String) (p : Row)
    → IsSound d
    → BilledOnce d.billing
    → Dict.get id (run calls d).purchases ≡ some p
    → p.status ≡ paid
    → HasPro p.user_id (run calls d) × (bill_count (product_ref id) (run calls d).billing ≡ 1)
run-paid calls d id p s once found e =
    let (sound, evolves) = run-Good calls d s in
    let billed = sound.paid_billed id p found e in
    let (q, found_q, pro) = sound.billed_known id billed in
    let same : q.user_id ≡ p.user_id = ground (arith, found_q, found) in
    (
      rw same at pro,
      omega (
        arith,
        bill_count_pos (product_ref id) (run calls d).billing billed,
        evolves.once once (product_ref id),
      ),
    )
