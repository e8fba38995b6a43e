-- ===== src/Api/Binance/Submit.antt =====
-- src/api/binance_api.cpp and src/common/utils.h: sending and canceling orders.
pub mod Guards
pub mod Laws
pub mod Frees
use crypto_shloma.Prelude.{
  ℕ, pos, String, Bool, not, ◌&&◌, ◌||◌, [], ◌∷◌, Option, none, some, is_empty_text, text_of,
  if◌then◌else◌,
}
use crypto_shloma.Qt.{Qt}
use crypto_shloma.Base.Order.{OrderType, type_eq}
use crypto_shloma.Base.Market.Data.{Market}
use crypto_shloma.Api.Signals.{Signal, CancellationOrderType}
use crypto_shloma.Api.TemporaryOrders.{
  OrderRecord, Table, new_record, known_record, update_place_order, erase_record,
}
use crypto_shloma.Api.TemporaryOrders as Temporary
use crypto_shloma.Storage.Markets.{MarketsStorage, find_market_by_id}
use crypto_shloma.Algo.Average.{rounding}
use crypto_shloma.Api.Binance.Codes.{OrderKind, TimeInForce, order_kind_text, time_in_force_text}
use crypto_shloma.Api.Binance.EndPoints.{BinanceUrl}
use crypto_shloma.Api.Binance.Read.{order_type_to_string}
use crypto_shloma.Api.Binance.Session.{
  does, nothing, send, Verb, Channel, Effect, Env, Call, nothing, does, send, rest, signed_params,
  prepare_mbx_request, signed_request,
}
use crypto_shloma.Api.Binance.Receive.{with_table}

module _ ⦃q : Qt⦄ where
  open q use {Qreal, literal, add, mul, div, ceil, le, fuzzy_is_null, number, number8, to_lower}

  -- `CryptoShloma::Utils::roundingCeil`.
  unfoldable pub rounding_ceil : Qreal → Qreal → Qreal
  rounding_ceil value amount = mul (ceil (div amount value)) value

  -- `tickSize`, `stepSize` and `baseStepSize`: the price and the volumes of a new order.
  pub record Size : Type 0 where
    pub price : Qreal
    pub volume : Qreal
    pub base_volume : Qreal

  abbrev sized : Qreal → Qreal → Size
  sized price volume = record { price = price; volume = volume; base_volume = mul price volume }

  abbrev round_volume : OrderType → Qreal → Qreal → Qreal
  round_volume OrderType.buy step volume = rounding_ceil step volume
  round_volume _ step volume = rounding step volume

  abbrev is_buy : OrderType → Bool
  is_buy side = type_eq side OrderType.buy

  -- A purchase below the least value is made as large as that value and the fee.
  unfoldable pub order_size : Market → OrderType → Qreal → Qreal → Size
  unfolding rounding rounding_ceil
  order_size market side price volume =
      let c = market.config in
      let tick_size = rounding c.price_tick_size price in
      let size = sized tick_size (round_volume side c.volume_step_size volume) in
      let least = mul c.min_notional (add (literal 1 0) c.trade_fee) in
      if le size.base_volume c.min_notional && is_buy side
      then sized tick_size (rounding c.volume_step_size (div least tick_size))
      else size

  -- The parameters of the request for a new order.
  unfoldable pub order_params : String → OrderType → Size → Bool → String
  unfolding order_type_to_string order_kind_text time_in_force_text
  order_params id side size by_value = text_of (
      "symbol="
      ∷ id
      ∷ "&side="
      ∷ order_type_to_string side
      ∷ "&price="
      ∷ number8 size.price
      ∷ "&newOrderRespType=RESULT"
      ∷ (if by_value
          then "&quoteOrderQty="
            ∷ number8 size.base_volume
            ∷ "&type="
            ∷ order_kind_text OrderKind.market
            ∷ []
          else "&quantity="
            ∷ number8 size.volume
            ∷ "&type="
            ∷ order_kind_text OrderKind.limit
            ∷ "&timeInForce="
            ∷ time_in_force_text
                (if type_eq side OrderType.sell then TimeInForce.gtc else TimeInForce.fok)
            ∷ []))

  -- The order goes to the emulator, and is confirmed and erased at once.
  abbrev pub emulate : Env → String → OrderType → Size → Call
  emulate env id side size a =
      let record' =
        known_record id env.random_ids.0 env.now size.price size.base_volume side size.volume in
      (
        record a { temp_orders = erase_record record' (update_place_order record' a.temp_orders) },
        Effect.emits (
              Signal.emul_submit_order id env.random_ids.1 side size.price size.base_volume
                size.volume)
            ∷ [],
      )

  -- The request carries its signed parameters in the body.
  abbrev pub post_order : Env → String → Call
  post_order env params a =
      let signed = signed_params env a params in
      send
        (prepare_mbx_request Verb.post env (rest BinanceUrl.url_new_order) signed Bool.true signed)
        a

  abbrev pub submit_accepted : Env → String → OrderType → Size → Bool → Call
  submit_accepted env id side size by_value =
      if env.test_data
      then emulate env id side size
      else post_order env (order_params id side size by_value)

  abbrev pub after_table : Call → Table × Bool → Call
  after_table next (t, accepted) a =
      if accepted then next (record a { temp_orders = t }) else (a, [])

  -- `submitOrder` behind its guards.
  unfoldable pub submit_to : Env → Market → String → OrderType → Qreal → Qreal → Call
  unfolding send order_size order_params new_record erase_record update_place_order
      Temporary.submit_order signed_params prepare_mbx_request
  submit_to env market id side price volume a =
      let size = order_size market side price volume in
      after_table (submit_accepted env id side size (fuzzy_is_null volume))
        (Temporary.submit_order (new_record env.now id side size.price size.base_volume size.volume)
          a.temp_orders)
        a

  -- An order or a cancellation is let through if the user's stream is open, or is only emulated.
  abbrev pub may_trade : Env → String → Bool
  may_trade env id = (env.is_open Channel.user_channel || env.test_data) && not (is_empty_text id)

  abbrev with_market : Option Market → (Market → Call) → Call
  with_market none next = nothing
  with_market (some m) next = next m

  unfoldable pub submit_order :
      Env → MarketsStorage → String → OrderType → Qreal → Qreal → Qreal → Call
  unfolding nothing submit_to
  submit_order env markets id side price base_volume volume =
      if may_trade env id
      then with_market (find_market_by_id markets id) (λ m. submit_to env m id side price volume)
      else nothing

  -- The answer to a new order is an error. The handler captures the variables of `submitOrder` by
  -- reference, and that call has returned: the record is whatever the handler finds there.
  unfoldable pub new_order_failed : OrderRecord → Call
  unfolding with_table erase_record
  new_order_failed r = with_table (erase_record r)

  abbrev cancel_request : CancellationOrderType → Env → ℕ → String → Call
  cancel_request CancellationOrderType.order_id env order_id id a =
      signed_request Verb.del env BinanceUrl.url_cancel_order
        (text_of ("symbol=" ∷ id ∷ "&orderId=" ∷ number (pos order_id) ∷ [])) a
  cancel_request _ env order_id id a = (a, [])

  unfoldable pub cancel_order : CancellationOrderType → Env → ℕ → String → Call
  unfolding does nothing signed_request
  cancel_order type env order_id id =
      if may_trade env id
      then if env.test_data
        then does (Effect.emits (Signal.emul_cancel_order order_id id) ∷ [])
        else cancel_request type env order_id id
      else nothing
