-- ===== src/Api/Binance/Submit/Guards.antt =====
-- src/api/binance_api.cpp: the guards of submitOrder.
use crypto_shloma.Prelude.{String, true, false, some, ◌≡◌, refl, is_empty_text}
use crypto_shloma.Qt.{Qt}
use crypto_shloma.Base.Order.{OrderType}
use crypto_shloma.Base.Market.Data.{Market}
use crypto_shloma.Storage.Markets.{MarketsStorage, find_market_by_id}
use crypto_shloma.Api.Binance.Session.{Channel, Env}
use crypto_shloma.Api.Binance.Submit.{submit_to, submit_order}

module _ ⦃q : Qt⦄ where
  open q use {Qreal}

  pub passes_guards :
      (env : Env) (markets : MarketsStorage) (m : Market) (id : String) (side : OrderType)
      (price base_volume volume : Qreal)
      → env.is_open Channel.user_channel ≡ true
      → is_empty_text id ≡ false
      → find_market_by_id markets id ≡ some m
      → submit_order env markets id side price base_volume volume
        ≡ submit_to env m id side price volume
  unfolding submit_order
  passes_guards env markets m id side price base_volume volume o n f = rw (o, n, f) refl
