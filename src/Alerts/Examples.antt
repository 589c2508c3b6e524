-- ===== src/Alerts/Examples.antt =====
-- Evaluations of alerts at concrete inputs.
use atlasarb.Prelude.{ℕ, true, false, none, List, [], ◌∷◌, ◌≡◌, refl, arith, inl, inr}
use atlasarb.Signals.Examples.{sample_settings, sample_signal}
use atlasarb.Access.Examples.{sample_user, four_rows}
use atlasarb.Access.Service.{may_deliver}
use atlasarb.Alerts.{Member, AlertSettings, AlertDb}
use atlasarb.Alerts.Tables.{is_muted, mute_pair}
use atlasarb.Alerts.Eligible.{passes_filter, fav_trigger, cooling, route_of}
use atlasarb.Alerts.Evaluate.{evaluate_user}
use atlasarb.Alerts.Gates.{Wanted}
use atlasarb.Alerts.Delivered.{Ends, evaluate_user-Ends}
use atlasarb.Alerts.Quiet.{Between, evaluated, edited, between, Wanted-sent, repeat_held}
use atlasarb.Alerts.Paywall.{Evaluation}
use atlasarb.Alerts.Mutes.{both_mutes_raise}

abbrev alert_settings : AlertSettings ℕ
alert_settings = record {
  decimals = sample_settings;
  dev = false;
  confidence_threshold = 60;
  profit_override = 3;
  stored_pct = λ n. n;
  route_text = λ k. "route";
  bound = true;
  metered = true;
}

abbrev sample_member : Member ℕ
sample_member = record {
  profile = sample_user;
  filter = record {
    min_profit_pct = 1;
    coins = [];
    exchanges = "okx" ∷ [];
    networks = [];
    min_liquidity_usd = 0;
    max_risk_numeric = 5;
    max_signal_age_sec = 0;
    arb_types = [];
  };
}

abbrev sample_db : AlertDb ℕ
sample_db = record {
  favorites = [];
  mutes = [];
  cooldowns = [];
  logs = [];
  ledger = four_rows;
  outbox = [];
  sent = 0;
}

evaluate_user-Ends_example :
    Ends alert_settings 5 6 true sample_member
      (sample_signal "e" 5)
      sample_db
      (evaluate_user alert_settings 5 6 true sample_member (sample_signal "e" 5) sample_db)
evaluate_user-Ends_example =
    evaluate_user-Ends alert_settings 5 6 true sample_member (sample_signal "e" 5) sample_db

sample-Wanted : Wanted alert_settings 5 sample_member (sample_signal "e" 5) sample_db
unfolding passes_filter fav_trigger is_muted cooling may_deliver
sample-Wanted = (refl, refl, refl, refl, refl, refl)

abbrev evaluations : List (Evaluation ℕ ℕ)
evaluations =
    record {
      now = 5;
      later = 6;
      arrives = true;
      member = sample_member;
      signal = sample_signal "e" 5;
    }
    ∷ record {
      now = 90;
      later = 91;
      arrives = true;
      member = sample_member;
      signal = sample_signal "f" 5;
    }
    ∷ []

-- In between another user gets an alert of the route and a coin becomes a favourite.
abbrev other_member : Member ℕ
other_member = record sample_member { profile = record sample_user { telegram_user_id = 8 } }

abbrev meanwhile : List (Between ℕ ℕ)
meanwhile =
    evaluated (record {
      now = 8;
      later = 9;
      arrives = true;
      member = other_member;
      signal = sample_signal "e" 9;
    })
    ∷ edited (record { user_id = 7; kind = "coin"; value = "BTC"; frozen = false } ∷ []) [] [] []
    ∷ evaluated (record {
      now = 15;
      later = 16;
      arrives = true;
      member = sample_member;
      signal = sample_signal "e" 6;
    })
    ∷ []

repeat_held_example :
    (evaluate_user alert_settings 20 21 true sample_member (sample_signal "e" 6) (
      between alert_settings meanwhile
        (evaluate_user alert_settings 5 6 true sample_member (sample_signal "e" 5) sample_db).1)).0
    ≡ false
repeat_held_example =
    repeat_held alert_settings 5 6 20 21 true true sample_member sample_member (sample_signal "e" 5)
      (sample_signal "e" 6) meanwhile sample_db
      (Wanted-sent alert_settings 5 6 sample_member (sample_signal "e" 5) sample_db sample-Wanted)
      (inl refl, (tt, (inr (refl, unfold route_of in refl, omega arith, refl), tt))) refl
      (unfold route_of in refl) (omega arith) refl

both_mutes_raise_example :
    (is_muted 7 "BTC/USDT" 5 (mute_pair 7 "*ALL*" 50 (mute_pair 7 "BTC/USDT" 9 [])) ≡ none)
    × (is_muted 7 "BTC/USDT" 5 (mute_pair 7 "BTC/USDT" 9 (mute_pair 7 "*ALL*" 50 [])) ≡ none)
both_mutes_raise_example = both_mutes_raise 7 "BTC/USDT" 9 50 5 [] refl (omega arith) (omega arith)
