-- ===== src/Access/Charging.antt =====
-- What charging deliveries does to the ledger of src/database/repositories/delivery_repo.py.
use atlasarb.Prelude.{
  ℕ, ◌+◌, ◌≤◌, String, not, ◌&&◌, ◌||◌, List, [], ◌∷◌, ◌++◌, ◌≡◌, refl, inl, inr, arith,
  if◌then◌else◌, ◌==◌, ==_iff, nat_eq, string_eq, any, count, Bool-cases,
}
use atlasarb.Access.Ledger.{
  Delivery, Ledger, delivered_count, mentions, ids_of, delivered_ids, charged, record_row,
}
use atlasarb.Access.Service.{record_each}

pub mentions-cons :
    (id x : String) (xs : List String) → mentions id (x ∷ xs) ≡ (x == id) || mentions id xs
unfolding mentions any
mentions-cons id x xs = refl

charged-cons :
    (uid : ℕ) (id : String) (r : Delivery) (l : Ledger)
    → charged uid id (r ∷ l) ≡ (r.user_id == uid) && r.signal_id == id || charged uid id l
unfolding charged any
charged-cons uid id r l = refl

mentions-ids_of :
    (uid : ℕ) (id : String) (ids : List String) (l : Ledger)
    → mentions id (ids_of uid ids l) ≡ mentions id ids && charged uid id l
unfolding ids_of
mentions-ids_of uid id ids [] = unfold mentions charged any in ground arith
mentions-ids_of uid id ids (r ∷ l) = ground (
  arith,
  mentions-cons id r.signal_id (ids_of uid ids l),
  charged-cons uid id r l,
  mentions-ids_of uid id ids l,
  ==_iff r.signal_id id,
)

pub mentions-delivered_ids :
    (uid : ℕ) (id : String) (ids : List String) (l : Ledger)
    → mentions id (delivered_ids uid ids l) ≡ mentions id ids && charged uid id l
unfolding delivered_ids
mentions-delivered_ids uid id [] l = unfold mentions any in refl
mentions-delivered_ids uid id (i ∷ ids) l = mentions-ids_of uid id (i ∷ ids) l

charged-append :
    (uid : ℕ) (id : String) (l : Ledger) (r : Delivery)
    → charged uid id (l ++ r ∷ []) ≡ charged uid id l || ((r.user_id == uid) && r.signal_id == id)
unfolding charged any
charged-append uid id [] r = ground arith
charged-append uid id (q ∷ l) r = ground (arith, charged-append uid id l r)

pub charged-record_row :
    (uid v : ℕ) (id j channel : String) (l : Ledger)
    → charged v j (record_row uid id channel l).1 ≡ charged v j l || ((uid == v) && id == j)
unfolding record_row
charged-record_row uid v id j channel l = elim (Bool-cases (charged uid id l)) [
  | inl known ↦ rw known (ground (arith, ==_iff uid v, ==_iff id j))
  | inr new ↦
      rw new (charged-append v j l (record { user_id = uid; signal_id = id; channel = channel }))
]

count-append :
    (uid : ℕ) (l : Ledger) (r : Delivery)
    → delivered_count uid (l ++ r ∷ [])
      ≡ delivered_count uid l + (if r.user_id == uid then 1 else 0)
unfolding delivered_count count
count-append uid [] r = ground arith
count-append uid (q ∷ l) r = ground (arith, count-append uid l r)

pub count-record_row :
    (uid v : ℕ) (id channel : String) (l : Ledger)
    → delivered_count v (record_row uid id channel l).1
      ≡ delivered_count v l + (if (record_row uid id channel l).0 && uid == v then 1 else 0)
unfolding record_row
count-record_row uid v id channel l = elim (Bool-cases (charged uid id l)) [
  | inl known ↦ rw known (ground arith)
  | inr new ↦
      rw new (count-append v l (record { user_id = uid; signal_id = id; channel = channel }))
]

-- A batch charges each of its signals.
pub charged-record_each :
    (uid v : ℕ) (j channel : String) (ids : List String) (l : Ledger)
    → charged v j (record_each uid channel ids l).1
      ≡ charged v j l || ((uid == v) && mentions j ids)
unfolding record_each
charged-record_each uid v j channel [] l = unfold mentions any in ground arith
charged-record_each uid v j channel (id ∷ ids) l = ground (
  arith,
  charged-record_each uid v j channel ids (record_row uid id channel l).1,
  charged-record_row uid v id j channel l,
  mentions-cons j id ids,
)

-- The number it returns is by how many the user's count grows, and no other count grows.
pub count-record_each :
    (uid v : ℕ) (channel : String) (ids : List String) (l : Ledger)
    → delivered_count v (record_each uid channel ids l).1
      ≡ delivered_count v l + (if uid == v then (record_each uid channel ids l).0 else 0)
unfolding record_each
count-record_each uid v channel [] l = ground arith
count-record_each uid v channel (id ∷ ids) l = ground (
  arith,
  count-record_each uid v channel ids (record_row uid id channel l).1,
  count-record_row uid v id channel l,
)

-- How many of the signals are not charged.
unfoldable pub fresh : ℕ → Ledger → List String → ℕ
unfolding count
fresh uid l ids = count (λ id. not (charged uid id l)) ids

fresh-record_row :
    (uid : ℕ) (id channel : String) (l : Ledger) (ids : List String)
    → fresh uid (record_row uid id channel l).1 ids ≤ fresh uid l ids
unfolding fresh count
fresh-record_row uid id channel l [] = omega arith
fresh-record_row uid id channel l (j ∷ ids) =
    ground (arith, fresh-record_row uid id channel l ids, charged-record_row uid uid id j channel l)

pub record_row_new :
    (uid : ℕ) (id channel : String) (l : Ledger)
    → (record_row uid id channel l).0 ≡ not (charged uid id l)
unfolding record_row
record_row_new uid id channel l = ground arith

pub fresh-cons :
    (uid : ℕ) (l : Ledger) (id : String) (ids : List String)
    → fresh uid l (id ∷ ids) ≡ (if charged uid id l then 0 else 1) + fresh uid l ids
unfolding fresh count
fresh-cons uid l id ids = ground arith

-- A batch charges at most the signals that were not charged.
pub record_each-le-fresh :
    (uid : ℕ) (channel : String) (ids : List String) (l : Ledger)
    → (record_each uid channel ids l).0 ≤ fresh uid l ids
unfolding record_each
record_each-le-fresh uid channel [] l = unfold fresh count in omega arith
record_each-le-fresh uid channel (id ∷ ids) l = ground (
  arith,
  record_each-le-fresh uid channel ids (record_row uid id channel l).1,
  fresh-record_row uid id channel l ids,
  record_row_new uid id channel l,
  fresh-cons uid l id ids,
)
