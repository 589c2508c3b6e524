-- ===== src/Signals/Cooldown.antt =====
-- CooldownStore of src/scanner/lifecycle/cooldown.py, and the two tables of
-- src/config/scanner_config.py that the lifecycle of signals reads.
use atlasarb.Prelude.{
  ℕ, ◌+◌, Bool, true, false, not, Option, none, some, [], ◌∷◌, if◌then◌else◌, ◌==◌, nat_eq,
  string_eq, pair_eq, option_eq, ltb, leb, length,
}
use atlasarb.Prelude.Dict
use atlasarb.Prelude.Dict.{Dict}
use atlasarb.Signals.{ArbitrageType, arb_eq, Settings, Key}

pub record CooldownEntry : Type 0 where
  pub until : ℕ
  pub arb_type : ArbitrageType

abbrev pub Cooldowns : Type 0
Cooldowns = Dict Key CooldownEntry

unfoldable pub get_or : Option ℕ → ℕ → ℕ
get_or none n = n
get_or (some m) n = m

-- `{k: e for k, e in ... if e.until > now}`
unfoldable pub purge : ℕ → Cooldowns → Cooldowns
purge now [] = []
purge now ((k, e) ∷ m) = if ltb now e.until then (k, e) ∷ purge now m else purge now m

module _ {D : Type 0} (c : Settings D) where
  unfoldable pub ttl_for : ArbitrageType → ℕ
  unfolding get_or Dict.get
  ttl_for t = get_or (Dict.get t c.ttl_by_type) 120

  unfoldable pub cooldown_for : ArbitrageType → ℕ
  unfolding get_or Dict.get
  cooldown_for t = get_or (Dict.get t c.cooldown_by_type) 60

  -- `on_expired`, where `now` is the time it uses
  unfoldable pub on_expired : ℕ → Key → ArbitrageType → Cooldowns → Cooldowns
  unfolding cooldown_for purge Dict.put
  on_expired now key t m =
      if cooldown_for t == 0
      then m
      else Dict.put key (record { until = now + cooldown_for t; arb_type = t })
          (if ltb 1024 (length m) then purge now m else m)

  unfoldable pub significant_change : D → D → Bool
  significant_change old_net new_net =
      if c.dec_same old_net c.zero_dec
      then not (c.dec_same new_net c.zero_dec)
      else c.dec_leb c.significant_profit_change_pct (
          c.dec_mul (c.dec_div (c.dec_abs (c.dec_sub new_net old_net)) (c.dec_abs old_net))
            c.hundred)

unfoldable pub check_entry : ℕ → Key → Cooldowns → Option CooldownEntry → Bool × Cooldowns
unfolding Dict.pop
check_entry now key m none = (false, m)
check_entry now key m (some e) = if leb e.until now then (false, Dict.pop key m) else (true, m)

unfoldable pub in_cooldown : ℕ → Key → Cooldowns → Bool × Cooldowns
unfolding check_entry Dict.get
in_cooldown now key m = check_entry now key m (Dict.get key m)

unfoldable pub clear : Key → Cooldowns → Cooldowns
unfolding Dict.pop
clear key m = Dict.pop key m
