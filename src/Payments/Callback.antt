-- ===== src/Payments/Callback.antt =====
-- The reading of a callback's body: the helpers of src/services/payments/webhook.py. What Python and
-- the provider's client do with a body is a parameter.
use atlasarb.Prelude.{
  ℕ, String, Bool, false, ◌&&◌, Option, none, some, ◌==◌, string_eq, nat_eq, if◌then◌else◌,
}
use atlasarb.Payments.Json.{
  Json, Fields, null, bool, int, float, text, arr, obj, end, get_or_null, truthy, or_else, is_text,
}

-- `verify` is the client's verify_signature, `loads` is json.loads (none: it raises), `str` is str(),
-- `digits` is int() of a text that is digits behind minus signs, `upper` is str.upper(), `decimal`
-- is Decimal(), in the price's unit, and `clip` decodes and cuts a body.
pub record Codec : Type 0 where
  pub verify : String → String → Bool
  pub loads : String → Option Json
  pub str : Json → String
  pub digits : String → Option (Bool × ℕ)
  pub upper : String → String
  pub decimal : String → Option ℕ
  pub clip : String → String

-- The fields that `handle` takes from a decoded update.
pub record Update : Type 0 where
  pub update_id : Option (Bool × ℕ)
  pub event_type : String
  pub invoice : Fields
  pub invoice_id : Option String
  pub purchase_id : Option String

unfoldable pub is_paid_event : Update → Bool
unfolding is_text get_or_null
is_paid_event u =
    (u.event_type == "invoice_paid") && is_text "paid" (get_or_null "status" u.invoice)

module _ (c : Codec) where
  unfoldable pub as_int : Json → Option (Bool × ℕ)
  as_int (int minus n) = some (minus, n)
  as_int (text t) = c.digits t
  as_int null = none
  as_int (bool b) = none
  as_int (float nonzero t) = none
  as_int (arr xs) = none
  as_int (obj fs) = none

  unfoldable pub opt_str : Json → Option String
  opt_str null = none
  opt_str (text t) = if t == "" then none else some (c.str (text t))
  opt_str (bool b) = some (c.str (bool b))
  opt_str (int minus n) = some (c.str (int minus n))
  opt_str (float nonzero t) = some (c.str (float nonzero t))
  opt_str (arr xs) = some (c.str (arr xs))
  opt_str (obj fs) = some (c.str (obj fs))

  -- `str(v or "")`
  unfoldable pub str_or_empty : Json → String
  unfolding truthy
  str_or_empty v = if truthy v then c.str v else ""

  unfoldable pub dict_or_empty : Json → Fields
  dict_or_empty (obj fs) = fs
  dict_or_empty null = end
  dict_or_empty (bool b) = end
  dict_or_empty (int minus n) = end
  dict_or_empty (float nonzero t) = end
  dict_or_empty (text t) = end
  dict_or_empty (arr xs) = end

  unfoldable pub read_update : Fields → Update
  unfolding as_int opt_str str_or_empty dict_or_empty get_or_null
  read_update fs =
      let invoice = dict_or_empty (get_or_null "payload" fs) in
      record {
        update_id = as_int (get_or_null "update_id" fs);
        event_type = str_or_empty (get_or_null "update_type" fs);
        invoice = invoice;
        invoice_id = opt_str (get_or_null "invoice_id" invoice);
        purchase_id = opt_str (get_or_null "payload" invoice);
      }

  -- `_amount_matches`
  unfoldable pub amount_matches : ℕ → Fields → Bool
  unfolding get_or_null or_else str_or_empty
  amount_matches price invoice =
      (c.upper
          (str_or_empty (or_else (get_or_null "fiat" invoice) (get_or_null "currency" invoice)))
        == "USD")
      && elim (c.decimal (c.str (get_or_null "amount" invoice))) [
        | none ↦ false
        | some amount ↦ amount == price
      ]

  -- the asset that was paid; one that is no text is taken by its str()
  unfoldable pub asset_of : Fields → Option String
  unfolding opt_str or_else get_or_null
  asset_of invoice =
      opt_str (or_else (get_or_null "paid_asset" invoice) (get_or_null "asset" invoice))
