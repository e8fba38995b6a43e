-- ===== src/Tests/Data.antt =====
-- The concrete markets, reports and orders of the examples.
use crypto_shloma.Prelude.{ℕ, true, [], ◌∷◌, some}
use crypto_shloma.Base.Currency
use crypto_shloma.Base.Balance as Balance
use crypto_shloma.Base.Order as Order
use crypto_shloma.Base.Order.{Order, OrderType}
use crypto_shloma.Base.Market.Data as Market
use crypto_shloma.Base.Market.Data.{Market}
use crypto_shloma.Api.Entry.{MarketEntry, OrderEntry, BalanceEntry}
use crypto_shloma.Storage.Markets.{MarketsStorage}
use crypto_shloma.Api.Hub.{Storages}
use crypto_shloma.Tests.Platform.{platform}

abbrev pub bitcoin : Currency.Config
bitcoin = record Currency.default_config { id = "BTC"; name = "Bitcoin" }

abbrev pub dollar : Currency.Config
dollar = record Currency.default_config { id = "USD"; name = "Dollar" }

abbrev pub market_config : Market.Config
market_config = record Market.default_config {
  id = "BTCUSD";
  status_message = "open";
  ask_price = platform.literal 101 0;
  bid_price = platform.literal 99 0;
}

abbrev pub user_config : Market.UserConfig
user_config = record Market.default_user_config {
  last_rate_update_time = 7;
  is_tradable = true;
  trade_summ = platform.literal 5 0;
}

abbrev pub market : Market
market = record {
  trade_currency = some "BTC";
  base_currency = some "USD";
  user_config = user_config;
  config = market_config;
}

abbrev pub old_market : Market
old_market = record market { config = record market_config { id = "ETHUSD" } }

abbrev pub market_entry : MarketEntry
market_entry = record {
  trade_currency_id = "BTC";
  base_currency_id = "USD";
  params = record market_config { ask_price = platform.literal 102 0 };
}

abbrev pub markets : MarketsStorage
markets = record {
  currencys = record { config = bitcoin } ∷ record { config = dollar } ∷ [];
  markets = old_market ∷ market ∷ [];
}

abbrev pub order_config : ℕ → OrderType → ℕ → Order.Config
order_config id type time = record Order.default_config {
  order_id = id;
  type = type;
  time_stamp = time;
  updated_time_stamp = time;
  price = platform.literal 100 0;
  currency_volume = platform.literal 2 0;
  base_volume = platform.literal 200 0;
  fee = platform.literal 1 1;
}

abbrev pub order : ℕ → OrderType → ℕ → Order
order id type time = record { config = order_config id type time; market = some "BTCUSD" }

abbrev pub order_entry : ℕ → OrderType → ℕ → OrderEntry
order_entry id type time = record { market_id = "BTCUSD"; params = order_config id type time }

abbrev pub balance_entry : BalanceEntry
balance_entry = record {
  currency_id = "BTC";
  params = record Balance.default_config { timestamp = 3; total = platform.literal 2 0 };
}

abbrev pub storages : Storages
storages = record {
  markets = markets;
  market_orders = record { orders = []; filters = [] };
  open_orders = record { orders = [] };
  balances = record { balances = [] };
  history = record { orders = []; filters = [] };
}
