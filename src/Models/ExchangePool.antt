-- ===== src/Models/ExchangePool.antt =====
-- src/models/exchange_pool.cpp: the exchanges in use, and the table markets_cache, which keeps the
-- settings of the traded markets from one run to the next.
pub mod Laws
pub mod Saved
use crypto_shloma.Prelude.{
  ℕ, String, Bool, true, false, not, List, [], ◌∷◌, ◌++◌, Option, none, some, ◌==◌, any, find,
  filter, map, modify_first, erase_first, is_empty, str_eq, if◌then◌else◌,
}
use crypto_shloma.Qt.{Qt}
use crypto_shloma.Base.Market.Data as Market
use crypto_shloma.Base.Market.Data.{Market, UserConfig}
use crypto_shloma.Storage.Keyed.{upsert_all, has}
use crypto_shloma.Storage.Markets.{MarketsStorage, filter_trading_pairs}
use crypto_shloma.Algo.Action.{CacheRow}

module _ ⦃q : Qt⦄ where
  open q use {date_of_iso, date_to_iso, stored_double, stored_object}

  -- An exchange: its type, `isLoaded` of its API, and the markets of its API.
  pub record Entry : Type 0 where
    pub type : ℕ
    pub is_loaded : Bool
    pub markets : MarketsStorage

  -- `m_storage`, and the rows of `markets_cache`.
  pub record Pool : Type 0 where
    pub entries : List Entry
    pub rows : List CacheRow

  abbrev pub has_type : ℕ → Entry → Bool
  has_type type e = e.type == type

  unfoldable pub find_by_type : ℕ → Pool → Option Entry
  unfolding find
  find_by_type type p = find (has_type type) p.entries

  -- `createEntry`: a new exchange has no markets yet.
  unfoldable pub create_entry : ℕ → Pool → Pool
  create_entry type p = record p {
    entries =
        p.entries
        ++ record {
          type = type;
          is_loaded = false;
          markets = record { currencys = []; markets = [] };
        }
          ∷ [];
  }

  -- An exchange that is in use already only reloads its settings.
  unfoldable pub append : ℕ → Pool → Pool
  unfolding create_entry
  append type p = if any (has_type type) p.entries then p else create_entry type p

  -- The statement `INSERT INTO markets_cache` for a market.
  unfoldable pub row_of : ℕ → Market → CacheRow
  row_of type m = record {
    min_trend = m.user_config.min_trend;
    cur_trend_rate = m.user_config.current_trend_rate;
    sell_mode = m.user_config.sell_mode;
    pause_mode = m.user_config.pause_mode;
    percentage_profit = m.user_config.percentage_profit;
    is_volume_trading = m.user_config.is_volume_trading;
    meta_config = m.user_config.meta_config;
    timestamp = m.user_config.last_rate_update_time;
    trade_summ = m.user_config.trade_summ;
    exchange = type;
    market_id = m.config.id;
  }

  abbrev pub is_row_of : ℕ → CacheRow → Bool
  is_row_of type r = r.exchange == type

  abbrev pub row_key : CacheRow → String
  row_key r = r.market_id

  -- `INSERT INTO markets_cache`: the column market_id is UNIQUE, also across exchanges, and a
  -- statement that fails is only logged.
  unfoldable pub insert_unique : CacheRow → List CacheRow → List CacheRow
  insert_unique r rows = if has row_key str_eq r.market_id rows then rows else rows ++ r ∷ []

  unfoldable pub insert_all : List CacheRow → List CacheRow → List CacheRow
  unfolding insert_unique
  insert_all [] rows = rows
  insert_all (r ∷ rs) rows = insert_all rs (insert_unique r rows)

  -- The rows of the other exchanges.
  abbrev pub other_rows : ℕ → List CacheRow → List CacheRow
  other_rows type rows = filter (λ r. not (is_row_of type r)) rows

  -- The rows after `saveState` for an exchange with these markets.
  unfoldable pub saved_rows : ℕ → MarketsStorage → List CacheRow → List CacheRow
  unfolding filter row_of filter_trading_pairs insert_all
  saved_rows type markets rows =
      insert_all (map (row_of type) (filter_trading_pairs markets)) (other_rows type rows)

  abbrev save_found : ℕ → Pool → Option Entry → Pool
  save_found type p none = p
  save_found type p (some e) = record p { rows = saved_rows type e.markets p.rows }

  -- It is called for an exchange that is in the pool.
  unfoldable pub save_state : ℕ → Pool → Pool
  unfolding saved_rows find_by_type
  save_state type p = save_found type p (find_by_type type p)

  unfoldable pub remove_entry : ℕ → Pool → Pool
  unfolding erase_first
  remove_entry type p = record p { entries = erase_first (has_type type) p.entries }

  unfoldable pub remove : ℕ → Bool → Pool → Pool
  unfolding save_state remove_entry
  remove type do_save_state p =
      if any (has_type type) p.entries
      then remove_entry type (if do_save_state then save_state type p else p)
      else p

  -- A row as a user configuration. The time is read back from its text, and the numbers and the object
  -- from theirs.
  unfoldable pub config_of : CacheRow → UserConfig
  config_of r = record Market.default_user_config {
    min_trend = stored_double r.min_trend;
    current_trend_rate = stored_double r.cur_trend_rate;
    last_rate_update_time = date_of_iso (date_to_iso r.timestamp);
    sell_mode = r.sell_mode;
    pause_mode = r.pause_mode;
    percentage_profit = stored_double r.percentage_profit;
    is_volume_trading = r.is_volume_trading;
    is_tradable = true;
    meta_config = stored_object r.meta_config;
    trade_summ = stored_double r.trade_summ;
  }

  -- `MarketsGroup`, a hash map from market ids. The order of its keys is that of the rows.
  abbrev pub MarketsGroup : Type 0
  MarketsGroup = List (String × UserConfig)

  abbrev pub group_key : String × UserConfig → String
  group_key p = p.0

  -- `QHash::insert` replaces the value of a key.
  abbrev pub replace : CacheRow → String × UserConfig → String × UserConfig
  replace r p = (p.0, config_of r)

  abbrev pub new_pair : CacheRow → Option (String × UserConfig)
  new_pair r = some (r.market_id, config_of r)

  -- The group that `loadState` reads from the rows of an exchange.
  unfoldable pub loaded_group : ℕ → List CacheRow → MarketsGroup
  unfolding filter upsert_all config_of
  loaded_group type rows =
      upsert_all group_key row_key str_eq replace new_pair (filter (is_row_of type) rows) []

  abbrev emit_group : MarketsGroup → List MarketsGroup
  emit_group g = if is_empty g then [] else g ∷ []

  abbrev load_found : ℕ → Pool → Option Entry → Pool × List MarketsGroup
  load_found type p none = (p, [])
  load_found type p (some e) = if e.is_loaded then (p, []) else (
    record p {
      entries = modify_first (has_type type) (λ x. record x { is_loaded = true }) p.entries;
    },
    emit_group (loaded_group type p.rows),
  )

  -- `loadState`, with the groups that it emits by `addMarket`.
  unfoldable pub load_state : ℕ → Pool → Pool × List MarketsGroup
  unfolding loaded_group find_by_type modify_first
  load_state type p = load_found type p (find_by_type type p)

  -- The destructor.
  unfoldable pub save_all : List Entry → Pool → Pool
  unfolding save_state
  save_all [] p = p
  save_all (e ∷ es) p = save_all es (save_state e.type p)
