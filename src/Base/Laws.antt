-- ===== src/Base/Laws.antt =====
-- src/base: sequences of setters of one object.
use crypto_shloma.Prelude.{
  String, Bool, true, false, not, ◌&&◌, [], ◌≡◌, arith, str_eq, is_empty_text, eq_iff, eq_refl,
  Option, bool_eq,
}
use crypto_shloma.Qt.{Qt}
use crypto_shloma.Base.Method.{assign}
use crypto_shloma.Base.Market.Data as Market
use crypto_shloma.Base.Market.Setters as Setters
use crypto_shloma.Base.Market.UserConfig as User
use crypto_shloma.Base.Currency

-- The second run of `if (field != value && value is set) field = value;` finds nothing to change.
settle :
    {A : Type 0} (eq : A → A → Bool) (null : A → Bool)
    → ((v : A) → eq v v ≡ true)
    → (old v : A)
    → (not (eq (assign (not (eq old v) && not (null v)) old v) v) && not (null v)) ≡ false
settle eq null same old v = ground (arith, same v)

settle_text :
    (old v : String)
    → (not (str_eq (assign (not (str_eq old v) && not (is_empty_text v)) old v) v)
        && not (is_empty_text v))
      ≡ false
settle_text old v = settle str_eq is_empty_text eq_refl old v

status_refl : (s : Market.Status) → Market.status_eq s s ≡ true
status_refl s = ground arith

settle_status :
    (old v : Market.Status)
    → not (Market.status_eq (assign (not (Market.status_eq old v)) old v) v) ≡ false
settle_status old v = ground arith

pub assign_text : (old v : String) → assign (not (str_eq old v)) old v ≡ v
assign_text old v = ground (arith, eq_iff old v)

assign_listing :
    (old v : Currency.StatusListing) → assign (not (Currency.listing_eq old v)) old v ≡ v
assign_listing old v = ground arith

assign_status : (old v : Currency.Status) → assign (not (Currency.status_eq old v)) old v ≡ v
assign_status old v = ground arith

-- The constructor of `Currency` keeps the whole configuration.
pub create-config : (config : Currency.Config) → (Currency.create config).config ≡ config
unfolding Currency.create
create-config config = simp (assign_text, assign_listing, assign_status)

-- A new configuration with the id of the old one replaces the whole configuration of a currency.
pub set_config-config :
    (config : Currency.Config) (c : Currency.Currency)
    → c.config.id ≡ config.id
    → (Currency.set_config config c).0.config ≡ config
unfolding Currency.set_config
set_config-config config c h = simp (assign_text, assign_listing, assign_status, h)

module _ ⦃q : Qt⦄ (same : (v : q.Qreal) → q.fuzzy_compare v v ≡ true) where
  open q use {fuzzy_compare, fuzzy_is_null}

  -- If comparing a number with itself succeeds, a market configuration that is set a second time
  -- changes nothing and emits nothing.
  pub set_config-settles :
      (c : Market.Config) (m : Market.Market)
      → Setters.set_config c (Setters.set_config c m).0 ≡ ((Setters.set_config c m).0, [])
  unfolding Setters.set_config
  set_config-settles c m =
      simp (settle fuzzy_compare fuzzy_is_null same, settle_text, settle_status)

  -- So does the configuration that a new market was made from.
  pub create-settles :
      (c : Market.Config) (trade base : Option String)
      → let m = Setters.set_base_currency base (Setters.set_currency trade (Setters.create c)) in
        (Setters.set_config c m).0 ≡ m
  unfolding Setters.create Setters.set_currency Setters.set_base_currency Setters.set_config
  create-settles c trade base =
      simp (settle fuzzy_compare fuzzy_is_null same, settle_text, settle_status)

-- The setters with no test but the difference arrive at the value.
arrives :
    {A : Type 0} (eq : A → A → Bool) (old v : A)
    → eq v v ≡ true
    → eq (assign (not (eq old v)) old v) v ≡ true
arrives eq old v same = ground arith

-- Those that refuse a null value arrive at any other.
arrives_unless :
    {A : Type 0} (eq : A → A → Bool) (null : A → Bool) (old v : A)
    → eq v v ≡ true
    → null v ≡ false
    → eq (assign (not (eq old v) && not (null v)) old v) v ≡ true
arrives_unless eq null old v same h = ground arith

arrives_bool : (old v : Bool) → bool_eq (assign (not (bool_eq old v)) old v) v ≡ true
arrives_bool old v = ground arith

module _ ⦃q : Qt⦄ where
  -- The values of a user configuration compare as equal to themselves: none of its numbers is an
  -- infinity or no number.
  pub record SameAsItself (c : Market.UserConfig) : Type 0 where
    pub min_trend : q.fuzzy_compare c.min_trend c.min_trend ≡ true
    pub current_trend_rate : q.fuzzy_compare c.current_trend_rate c.current_trend_rate ≡ true
    pub percentage_profit : q.fuzzy_compare c.percentage_profit c.percentage_profit ≡ true
    pub trade_summ : q.fuzzy_compare c.trade_summ c.trade_summ ≡ true
    pub date : q.date_eq c.last_rate_update_time c.last_rate_update_time ≡ true
    pub meta_config : q.object_eq c.meta_config c.meta_config ≡ true

  -- If the numbers, the date and the object of a user configuration compare as equal to themselves,
  -- then a configuration with a date and a sum is taken over whole, as UserConfig::operator== sees
  -- it; one whose sum is null leaves the market the sum it had.
  pub set_user_config_lem :
      (c : Market.UserConfig) (m : Market.Market)
      → SameAsItself c
      → (q.date_is_null c.last_rate_update_time ≡ false
          → q.fuzzy_is_null c.trade_summ ≡ false
          → User.user_config_eq (User.set_user_config c m).0.user_config c ≡ true)
        × (q.fuzzy_is_null c.trade_summ ≡ true
            → (User.set_user_config c m).0.user_config.trade_summ ≡ m.user_config.trade_summ)
  unfolding User.set_user_config User.user_config_eq
  set_user_config_lem c m s = (
    (λ dated summed. simp (
      User.user_config_eq,
      arrives q.fuzzy_compare _ _ s.min_trend,
      arrives q.fuzzy_compare _ _ s.current_trend_rate,
      arrives q.fuzzy_compare _ _ s.percentage_profit,
      arrives q.object_eq _ _ s.meta_config,
      arrives_bool,
      arrives_unless q.date_eq q.date_is_null _ _ s.date dated,
      arrives_unless q.fuzzy_compare q.fuzzy_is_null _ _ s.trade_summ summed,
    )),
    (λ h. ground arith),
  )
