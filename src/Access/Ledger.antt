-- ===== src/Access/Ledger.antt =====
-- The ledger of delivered signals: src/database/repositories/delivery_repo.py.
use atlasarb.Prelude.{
  ℕ, String, Bool, true, false, ◌&&◌, List, [], ◌∷◌, ◌++◌, if◌then◌else◌, ◌==◌, nat_eq, string_eq,
  any, count,
}

-- A row of `signal_deliveries`; the rows stand in the order of insertion.
pub record Delivery : Type 0 where
  pub user_id : ℕ
  pub signal_id : String
  pub channel : String

abbrev pub Ledger : Type 0
Ledger = List Delivery

-- `count`
unfoldable pub delivered_count : ℕ → Ledger → ℕ
unfolding count
delivered_count uid l = count (λ r. r.user_id == uid) l

unfoldable pub mentions : String → List String → Bool
unfolding any
mentions id ids = any (λ i. i == id) ids

unfoldable pub ids_of : ℕ → List String → Ledger → List String
unfolding mentions
ids_of uid ids [] = []
ids_of uid ids (r ∷ l) =
    if (r.user_id == uid) && mentions r.signal_id ids
    then r.signal_id ∷ ids_of uid ids l
    else ids_of uid ids l

unfoldable pub delivered_ids : ℕ → List String → Ledger → List String
unfolding ids_of
delivered_ids uid [] l = []
delivered_ids uid (i ∷ ids) l = ids_of uid (i ∷ ids) l

-- `uq_signal_delivery`: whether the user has a row of the signal
unfoldable pub charged : ℕ → String → Ledger → Bool
unfolding any
charged uid id l = any (λ r. (r.user_id == uid) && r.signal_id == id) l

-- INSERT ... ON CONFLICT DO NOTHING, and whether it inserted
unfoldable pub record_row : ℕ → String → String → Ledger → Bool × Ledger
unfolding charged
record_row uid id channel l =
    if charged uid id l
    then (false, l)
    else (true, l ++ record { user_id = uid; signal_id = id; channel = channel } ∷ [])
