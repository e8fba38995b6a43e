-- ===== src/Api/Controller/Laws.antt =====
-- src/api/binance_api_controller.cpp and binance_api.cpp: what the API does for removeMarket.
use crypto_shloma.Prelude.{
  ℕ, String, Bool, true, false, List, [], ◌∷◌, Option, none, some, ◌≡◌, refl, arith, inl, inr,
  Bool-cases,
}
use crypto_shloma.Qt.{Qt}
use crypto_shloma.Base.Order.{Order, OrderType, type_eq}
use crypto_shloma.Base.Market.Data.{Market}
use crypto_shloma.Storage.Markets.{find_market_by_id}
use crypto_shloma.Storage.OpenOrders.{orders_by_market_id}
use crypto_shloma.Api.Signals.{CancellationOrderType}
use crypto_shloma.Api.Hub.{Storages}
use crypto_shloma.Api.Controller.{
  Command, cancel_purchases, retire, remove_market, cancel_all_orders,
}
use crypto_shloma.Api.Binance.Session.{Env, BinanceApi, Call, nothing, ◌>>◌}
use crypto_shloma.Api.Binance.Submit.{cancel_order, may_trade}

module _ ⦃q : Qt⦄ where
  -- The calls of `cancelOrder` among the commands, one after the other.
  unfoldable pub cancellations : Env → List Command → Call
  unfolding cancel_order nothing ◌>>◌
  cancellations env [] = nothing
  cancellations env (Command.cancel_order type order_id id ∷ cs) =
      cancel_order type env order_id id >> cancellations env cs
  cancellations env (_ ∷ cs) = cancellations env cs

  never_without_market : (env : Env) → may_trade env "" ≡ false
  never_without_market env = ground arith

  cancel_nothing :
      (type : CancellationOrderType) (env : Env) (order_id : ℕ) (a : BinanceApi)
      → cancel_order type env order_id "" a ≡ (a, [])
  unfolding cancel_order nothing
  cancel_nothing type env order_id a = rw (never_without_market env) refl

  purchases_stay :
      (env : Env) (os : List Order) (a : BinanceApi)
      → cancellations env (cancel_purchases os) a ≡ (a, [])
  unfolding cancellations nothing ◌>>◌
  purchases_stay env [] a = refl
  purchases_stay env (o ∷ os) a = elim (Bool-cases (type_eq o.config.type OrderType.buy)) [
    | inl e ↦
        rw (e, cancel_nothing CancellationOrderType.order_id env o.config.order_id a)
          (purchases_stay env os a)
    | inr e ↦ rw e (purchases_stay env os a)
  ]

  retire_cancels_nothing :
      (env : Env) (test_data : Bool) (now : q.QDateTime) (s : Storages) (id : String)
      (m : Option Market) (a : BinanceApi)
      → cancellations env (retire test_data now s id m) a ≡ (a, [])
  unfolding cancellations nothing
  retire_cancels_nothing env test_data now s id none a = refl
  retire_cancels_nothing env true now s id (some m) a = refl
  retire_cancels_nothing env false now s id (some m) a =
      purchases_stay env (orders_by_market_id id s.open_orders) a

  -- The cancellations that removing a market or cancelling all orders asks the API of Binance for
  -- send nothing and change nothing.
  pub remove_market_cancels_nothing :
      (env : Env) (test_data : Bool) (now : q.QDateTime) (s : Storages) (id : String)
      (a : BinanceApi)
      → (cancellations env (remove_market test_data now s id) a ≡ (a, []))
        × (cancellations env cancel_all_orders a ≡ (a, []))
  unfolding cancellations remove_market cancel_all_orders nothing
  remove_market_cancels_nothing env test_data now s id a = (
    retire_cancels_nothing env test_data now s id (find_market_by_id s.markets id) a,
    rw (cancel_nothing CancellationOrderType.all env 0 a) refl,
  )
