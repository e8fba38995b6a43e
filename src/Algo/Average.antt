-- ===== src/Algo/Average.antt =====
-- src/algo/hanukkah: the sums over the trade history and the sell price.
pub mod Cycle
use crypto_shloma.Prelude.{
  ℕ, ◌+◌, ◌%◌, Bool, true, false, ◌&&◌, ◌||◌, List, [], ◌∷◌, ◌==◌, if◌then◌else◌,
}
use crypto_shloma.Qt.{Qt}
use crypto_shloma.Base.Order.{Order, OrderType, type_eq}

module _ ⦃q : Qt⦄ where
  open q use {Qreal, QDateTime, literal, add, mul, div, floor, date_le}

  -- `IStep::AverageData`; `orders_count` is a `quint16`.
  pub record AverageData : Type 0 where
    pub base_volume : Qreal
    pub price : Qreal
    pub fee : Qreal
    pub volume : Qreal
    pub orders_count : ℕ

  abbrev pub no_data : AverageData
  no_data = record {
    base_volume = literal 0 0;
    price = literal 0 0;
    fee = literal 0 0;
    volume = literal 0 0;
    orders_count = 0;
  }

  -- A buy of the running cycle.
  abbrev pub counts : QDateTime → Order → Bool
  counts cycle_start o =
      type_eq o.config.type OrderType.buy && date_le cycle_start o.config.updated_time_stamp

  abbrev pub is_sell : Order → Bool
  is_sell o = type_eq o.config.type OrderType.sell

  abbrev pub add_order : AverageData → Order → AverageData
  add_order d o = record {
    base_volume = add d.base_volume o.config.base_volume;
    price = add d.price o.config.price;
    fee = add d.fee o.config.fee;
    volume = add d.volume o.config.currency_volume;
    orders_count = (d.orders_count + 1) % 65536;
  }

  -- The loop of `calculateAverate`, with its variables `ret` and `find`.
  unfoldable pub average_loop : QDateTime → AverageData → Bool → List Order → AverageData
  average_loop cycle_start ret found [] = ret
  average_loop cycle_start ret found (o ∷ os) =
      let ret' = if counts cycle_start o then add_order ret o else ret in
      let found' = counts cycle_start o || found in
      let rest = average_loop cycle_start ret' found' os in
      if is_sell o && found' then ret' else rest

  -- `std::floor(x * std::pow(10, 8)) * PRECISSION`.
  abbrev pub round8 : Qreal → Qreal
  round8 x = mul (floor (mul x (literal 100000000 0))) (literal 1 8)

  unfoldable pub calculate_average : List Order → QDateTime → AverageData
  unfolding average_loop
  calculate_average container cycle_start =
      let ret = average_loop cycle_start no_data false container in
      if ret.orders_count == 0
      then ret
      else record ret { price = round8 (div ret.price (literal ret.orders_count 0)) }

  -- `calculateStopLoss`; its `price` is not used.
  unfoldable pub calculate_stop_loss : Qreal → Qreal → Qreal → Qreal → Qreal → Qreal → Qreal
  calculate_stop_loss price old_fee base_volume fee volume profit =
      let cost = add base_volume old_fee in
      round8 (div (add (mul cost (add (literal 1 0) profit)) (mul cost fee)) volume)

  -- The loop of `calculatePrevVolume`.
  unfoldable pub prev_volume_loop : Qreal → List Order → Qreal
  prev_volume_loop ret [] = ret
  prev_volume_loop ret (o ∷ os) =
      let ret' =
        if type_eq o.config.type OrderType.buy then add ret o.config.currency_volume else ret in
      let rest = prev_volume_loop ret' os in if is_sell o then ret' else rest

  -- The loop starts behind the first order. On an empty container the source reads past the end; it
  -- is called only where a buy was counted, so that there is a first order.
  unfoldable pub calculate_prev_volume : List Order → Qreal
  unfolding prev_volume_loop
  calculate_prev_volume [] = round8 (literal 0 0)
  calculate_prev_volume (o ∷ os) = round8 (prev_volume_loop (literal 0 0) os)

  -- `CryptoShloma::Utils::rounding` with `10^8` as `std::pow(10, 8)`.
  unfoldable pub rounding : Qreal → Qreal → Qreal
  rounding value amount =
      mul (q.truncate (div (mul amount (literal 100000000 0)) (mul value (literal 100000000 0))))
        value
