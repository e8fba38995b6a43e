-- ===== src/Api/Signals.antt =====
-- src/api/i_exchange_api.h: the signals of an exchange API.
use crypto_shloma.Prelude.{ℕ, String, List}
use crypto_shloma.Qt.{Qt}
use crypto_shloma.Base.Currency as Currency
use crypto_shloma.Base.Order.{OrderType}
use crypto_shloma.Api.Entry.{MarketEntry, OrderEntry, BalanceEntry}

-- `IExchangeAPI::CancellationOrderType`.
pub data CancellationOrderType : Type 0 where
  all order_id market_id : CancellationOrderType

module _ ⦃q : Qt⦄ where
  pub data Signal : Type 0 where
    receive_currencies : List Currency.Config → Signal
    receive_market_info receive_market_data : List MarketEntry → Signal
    receive_market_orders receive_user_open_orders receive_user_trade_history :
        List OrderEntry → Signal
    receive_canceled_orders : List ℕ → Signal
    receive_balance : List BalanceEntry → Signal
    is_online_changed disconnected_public_api disconnected_private_api : Signal
    -- The market, the order id, the side, the price, the base volume and the volume.
    emul_submit_order : String → ℕ → OrderType → q.Qreal → q.Qreal → q.Qreal → Signal
    emul_cancel_order : ℕ → String → Signal
