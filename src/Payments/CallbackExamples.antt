-- ===== src/Payments/CallbackExamples.antt =====
-- Concrete instances of the theorems about callbacks, with a provider's client and a JSON decoder
-- that know three bodies.
use atlasarb.Prelude.{
  String, true, false, none, some, ◌≡◌, refl, string_eq, nat_eq, bool_eq, option_eq, pair_eq, ◌==◌,
  if◌then◌else◌, any, List, Option, [], ◌∷◌,
}
use atlasarb.Prelude.Dict
use atlasarb.Payments.Json.{
  Json, Fields, null, bool, int, float, text, arr, obj, end, field, get_or_null, or_else, is_text,
  truthy,
}
use atlasarb.Payments.Db.{ok}
use atlasarb.Payments.Repo.{seen_in, reference_taken}
use atlasarb.Payments.Service.{paid_row, text_or, payload_or}
use atlasarb.Payments.Callback.{
  Codec, read_update, is_paid_event, amount_matches, as_int, opt_str, str_or_empty, dict_or_empty,
  asset_of,
}
use atlasarb.Payments.Webhook.{handle, plain, duplicate, provider_name}
use atlasarb.Payments.CallbackEffects.{OnlyEvents, authorises_body, handle-OnlyEvents}
use atlasarb.Payments.CallbackRepeats.{handle_hidden}
use atlasarb.Payments.CallbackSettles.{Settles, paid_by, handle-Settles}
use atlasarb.Payments.Examples.{shop, order, ann, shop-IsSound, ann_found, order_found, order_open}

-- The invoice of the order, paid.
abbrev invoice_fields : Fields
invoice_fields = field "status" (text "paid") (
    field "payload" (text "p1") (
      field "invoice_id" (text "inv1")
        (field "fiat" (text "USD") (field "amount" (text "20") (field "asset" (text "USDT") end)))))

abbrev paid_fields : Fields
paid_fields =
    field "update_id" (int false 5)
      (field "update_type" (text "invoice_paid") (field "payload" (obj invoice_fields) end))

abbrev forged_fields : Fields
forged_fields = field "update_id" (int false 5) end

unfoldable str_of : Json → String
str_of (text t) = t
str_of null = "None"
str_of (bool b) = if b then "True" else "False"
str_of (int minus n) = ""
str_of (float nonzero t) = t
str_of (arr xs) = ""
str_of (obj fs) = ""

abbrev codec : Codec
codec = record {
  verify = λ body signature. signature == "signed";
  loads = λ body.
      if body == "paid"
      then some (obj paid_fields)
      else if body == "forged"
      then some (obj forged_fields)
      else none;
  str = str_of;
  digits = λ t. none;
  upper = λ t. t;
  decimal = λ t. if t == "20" then some 2000 else none;
  clip = λ t. t;
}

unsigned_refused : authorises_body codec 2000 "paid" "wrong" ≡ false
unsigned_refused = refl

handle-OnlyEvents_example : OnlyEvents shop (handle codec 2000 20 "paid" "wrong" shop).1
handle-OnlyEvents_example = handle-OnlyEvents codec 2000 20 "paid" "wrong" shop unsigned_refused

paid_numbered : (read_update codec paid_fields).update_id ≡ some (false, 5)
unfolding read_update as_int get_or_null
paid_numbered = refl

forged_numbered : (read_update codec forged_fields).update_id ≡ some (false, 5)
unfolding read_update as_int get_or_null
forged_numbered = refl

handle_hidden_example :
    ((handle codec 2000 21 "paid" "signed" (handle codec 2000 20 "forged" "wrong" shop).1).0
      ≡ ok (plain true duplicate))
    × OnlyEvents shop
        (handle codec 2000 21 "paid" "signed" (handle codec 2000 20 "forged" "wrong" shop).1).1
handle_hidden_example =
    handle_hidden codec 2000 20 21 "forged" "wrong" "paid" "signed" forged_fields paid_fields
      (false, 5) shop shop-IsSound refl forged_numbered refl refl paid_numbered refl

not_seen : seen_in provider_name (false, 5) shop.events ≡ false
unfolding seen_in any
not_seen = refl

reports_payment : is_paid_event (read_update codec paid_fields) ≡ true
unfolding read_update is_paid_event str_or_empty dict_or_empty get_or_null is_text truthy str_of
reports_payment = refl

amount_right : amount_matches codec 2000 (read_update codec paid_fields).invoice ≡ true
unfolding read_update amount_matches str_or_empty dict_or_empty get_or_null or_else truthy str_of
amount_right = refl

names_order : (read_update codec paid_fields).purchase_id ≡ some "p1"
unfolding read_update opt_str dict_or_empty get_or_null str_of
names_order = refl

reference_free :
    reference_taken
      (paid_by codec 2000 20 (read_update codec paid_fields) order)
      (Dict.values shop.purchases)
    ≡ false
unfolding Dict.values reference_taken paid_row any text_or payload_or read_update opt_str
    dict_or_empty get_or_null str_of asset_of
reference_free = refl

handle-Settles_example :
    Settles codec 2000 20
      (read_update codec paid_fields)
      order
      (handle codec 2000 20 "paid" "signed" shop)
handle-Settles_example =
    handle-Settles codec 2000 20 "paid" "signed" paid_fields (false, 5) order ann shop shop-IsSound
      refl refl paid_numbered not_seen reports_payment amount_right names_order order_found
      order_open ann_found reference_free

-- The provider answers that the invoice is paid.
abbrev paid_answer : List String → Option (List Fields)
paid_answer ids = some (invoice_fields ∷ [])
