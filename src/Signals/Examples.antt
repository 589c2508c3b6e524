-- ===== src/Signals/Examples.antt =====
-- Runs of the signal lifecycle at concrete inputs: profits are whole numbers, times small ticks.
use Prim.Native.String.{compare}
use Prim.Native.Nat.{Ordering}
use atlasarb.Prelude.{
  ℕ, ◌+◌, ◌-◌, ◌*◌, ◌/◌, String, true, false, none, List, [], ◌∷◌, ◌≡◌, refl, arith, if◌then◌else◌,
  ◌==◌, nat_eq, string_eq, pair_eq, option_eq, nat_beq, leb,
}
use atlasarb.Prelude.Dict
use atlasarb.Prelude.Dict.{Dict}
use atlasarb.Signals.{
  cex_cex, funding, arb_eq, level_eq, Settings, Key, Signal, dedup_key, sorted_pair, active, top,
  low_risk,
}
use atlasarb.Signals.Cooldown.{significant_change}
use atlasarb.Signals.Bridge.{new_signal, update, suppressed, Bridge, publish}
use atlasarb.Signals.Lifecycle.{World, set_ttl, continued, is_significant, admit}
use atlasarb.Signals.Window.{
  Op, ended, asked, cleared, store_answers, deadline_answers, cooldowns_refine,
}
use atlasarb.Signals.Accounts.{
  BridgeOp, published, archived, taken, Run, IsAccounted, bridge_run, bridge_run-IsAccounted,
}
use atlasarb.Signals.Runs.{Step, admitted, swept, venue_down, world_run, world_run-IsTracked}
use atlasarb.Signals.Tracking.{IsTracked}
use atlasarb.Signals.Notices.{Announces, admit-Announces, cooldown_bypassed}

abbrev pub sample_settings : Settings ℕ
sample_settings = record {
  zero_dec = 0;
  hundred = 100;
  dec_same = nat_beq;
  dec_leb = leb;
  dec_sub = λ a b. a - b;
  dec_mul = λ a b. a * b;
  dec_div = λ a b. a / b;
  dec_abs = λ a. a;
  text_lt = λ a b. elim (compare a b) [ Ordering.lt ↦ true | _ ↦ false ];
  last_part = λ s. if s == "BTC/USDT" then "USDT" else s;
  ttl_by_type = (cex_cex, 120) ∷ [];
  cooldown_by_type = (cex_cex, 60) ∷ (funding, 0) ∷ [];
  significant_profit_change_pct = 10;
}

abbrev pub sample_signal : String → ℕ → Signal ℕ ℕ
sample_signal id profit = record {
  id = id;
  arb_type = cex_cex;
  coin = "BTC";
  trading_pair = "BTC/USDT";
  network = none;
  buy_exchange = "okx";
  sell_exchange = "bybit";
  net_profit_pct = profit;
  net_profit_usd = profit;
  liquidity_usd = 1000;
  risk_score = low_risk;
  confidence_score = 80;
  ranking = top;
  signal_lifetime = (false, 0);
  status = active;
  timestamp = 1;
  last_updated = 1;
  expires_at = 0;
  expired_at = none;
  expiry_reason = none;
  funding_next_time = none;
  details = 0;
}

abbrev sample_key : Key
sample_key = (cex_cex, ("BTC", ("USDT", (("bybit", "okx"), none))))

key_of_sample : dedup_key sample_settings (sample_signal "r" 5) ≡ sample_key
unfolding dedup_key sorted_pair
key_of_sample = refl

abbrev idle_bridge : Bridge ℕ ℕ
idle_bridge = record {
  registry = record { active = []; recent_expired = [] };
  queue = [];
  dropped_full = 0;
  dropped_stale = 0;
  history = [];
}

abbrev idle_world : World ℕ ℕ
idle_world = record { signals = []; cooldowns = []; bridge = idle_bridge }

abbrev some_ops : List Op
some_ops =
    ended 5 sample_key cex_cex
    ∷ asked 20 sample_key
    ∷ asked 70 sample_key
    ∷ cleared sample_key
    ∷ asked 71 sample_key
    ∷ []

cooldowns_refine_example :
    store_answers sample_settings some_ops [] ≡ deadline_answers sample_settings some_ops (λ k. 0)
cooldowns_refine_example = cooldowns_refine sample_settings some_ops (omega arith)

answered : store_answers sample_settings some_ops [] ≡ true ∷ false ∷ false ∷ []
unfolding store_answers
answered = refl

abbrev sample_run : Run ℕ ℕ
sample_run = record { bridge = idle_bridge; offered = 0; delivered = 0 }

abbrev bridge_ops : List (BridgeOp ℕ ℕ)
bridge_ops =
    published 3 (sample_signal "r" 5) new_signal
    ∷ published 9 (sample_signal "q" 7) new_signal
    ∷ archived true (sample_signal "r" 5)
    ∷ taken (λ i. 28 + i) 20
    ∷ []

bridge_run-IsAccounted_example : IsAccounted (bridge_run bridge_ops sample_run)
bridge_run-IsAccounted_example =
    bridge_run-IsAccounted bridge_ops sample_run
      (record { total = omega arith; within = omega arith })

abbrev world_ops : List (Step ℕ ℕ)
world_ops =
    admitted 1 1 (sample_signal "r" 5)
    ∷ admitted 2 2 (sample_signal "r" 50)
    ∷ venue_down (λ k. true) 7 "okx"
    ∷ admitted 9 9 (sample_signal "r" 6)
    ∷ swept (λ k. false) 200 none
    ∷ []

world_run-IsTracked_example :
    IsTracked sample_settings (λ k. "r") (world_run sample_settings world_ops idle_world)
world_run-IsTracked_example =
    world_run-IsTracked sample_settings (λ k. "r") world_ops idle_world (refl, (refl, (refl, tt)))
      (record {
        unique = tt;
        filed = λ k s h. unfold Dict.get in cc;
        shown = λ i s h. unfold Dict.get in cc;
      })

abbrev busy_world : World ℕ ℕ
busy_world = record idle_world { signals = (sample_key, sample_signal "r" 5) ∷ [] }

admit-Announces_example :
    Announces sample_settings 2
      (sample_signal "r" 50)
      busy_world
      (admit sample_settings 2 2 (sample_signal "r" 50) busy_world)
    × ((admit sample_settings 2 2 (sample_signal "r" 50) busy_world).0.0 ≡ true)
unfolding is_significant significant_change Dict.get dedup_key sorted_pair
admit-Announces_example = admit-Announces sample_settings 2 2 (sample_signal "r" 50) busy_world

abbrev cooling_world : World ℕ ℕ
cooling_world = record idle_world {
  cooldowns = (sample_key, record { until = 60; arb_type = cex_cex }) ∷ [];
}

cooldown_bypassed_example :
    let first = admit sample_settings 5 5 (sample_signal "r" 5) cooling_world in
    let second = admit sample_settings 6 6 (sample_signal "r" 50) first.1 in
    (first.0 ≡ (false, suppressed))
    × (first.1.bridge ≡ cooling_world.bridge)
    × (second.0 ≡ (true, update))
    × (second.1.bridge
        ≡ publish 6
            (continued sample_settings 6
              (set_ttl sample_settings (sample_signal "r" 5))
              (sample_signal "r" 50))
            update
            cooling_world.bridge)
    × (second.1.cooldowns ≡ cooling_world.cooldowns)
unfolding dedup_key sorted_pair Dict.get is_significant significant_change
cooldown_bypassed_example =
    cooldown_bypassed sample_settings 5 6 5 6 (sample_signal "r" 5) (sample_signal "r" 50)
      (record { until = 60; arb_type = cex_cex }) cooling_world refl refl refl (omega arith) refl
