-- ===== src/Api/Binance/Calls/Laws.antt =====
-- src/api/binance_api.cpp: sequences of calls.
use crypto_shloma.Prelude.{Bool, true, false, List, [], ◌∷◌, ◌≡◌, refl, All}
use crypto_shloma.Qt.{Qt}
use crypto_shloma.Api.TemporaryOrders.Laws as Temporary
use crypto_shloma.Api.Binance.Session.{Request, Effect, Env, BinanceApi, send}
use crypto_shloma.Api.Binance.Lifecycle.{break_timeout}
use crypto_shloma.Api.Binance.Calls.{ApiCall, perform, perform_all}
use crypto_shloma.Api.Binance.Calls.Steps.{
  IsStable, is_sent, Keeps, Good, All-append, Keeps-set_online, Keeps-set_offline,
}
use crypto_shloma.Api.Binance.Calls.Living.{
  Keeps-start, Keeps-stop, Keeps-log_out, Keeps-server_time, Keeps-user_auth, Keeps-timer_event,
  Keeps-http_error, Keeps-process_user_auth,
}
use crypto_shloma.Api.Binance.Calls.Receiving.{
  Keeps-exchange_info, Keeps-market_data, Keeps-balance, Keeps-trade_history, Keeps-open_orders,
  Keeps-cancel_orders, Keeps-new_orders, Keeps-streams, Keeps-user_streams,
}
use crypto_shloma.Api.Binance.Calls.Sending.{
  Keeps-cancel_order, Keeps-list_market_data, Keeps-list_market_info,
  Keeps-list_market_order_groups, Keeps-list_market_orders, Keeps-remove_list_market_orders,
  Keeps-new_order_failed, Keeps-submit_order, Keeps-user_balance, Keeps-user_open_orders,
  Keeps-user_trade_history,
}

module _ ⦃q : Qt⦄ where
  -- The call is not the end of the break.
  abbrev pub waits : ApiCall → Bool
  waits ApiCall.break_timeout = false
  waits _ = true

  module _ (I : BinanceApi → Type 0) (E : Effect → Type 0) (st : IsStable I E) where
    Keeps-perform :
        (env : Env) (c : ApiCall)
        → (waits c ≡ false → Keeps I E break_timeout)
        → Keeps I E (perform env c)
    unfolding perform
    Keeps-perform env ApiCall.start break = Keeps-start I E st env
    Keeps-perform env ApiCall.stop break = Keeps-stop I E st env
    Keeps-perform env ApiCall.log_out break = Keeps-log_out I E st
    Keeps-perform env ApiCall.set_online break = Keeps-set_online I E st
    Keeps-perform env ApiCall.set_offline break = Keeps-set_offline I E st
    Keeps-perform env ApiCall.server_time break = Keeps-server_time I E st env
    Keeps-perform env ApiCall.user_auth break = Keeps-user_auth I E st env
    Keeps-perform env ApiCall.list_market_info break = Keeps-list_market_info I E st env
    Keeps-perform env ApiCall.list_market_data break = Keeps-list_market_data I E st env
    Keeps-perform env ApiCall.user_balance break = Keeps-user_balance I E st env
    Keeps-perform env (ApiCall.timer_event id) break = Keeps-timer_event I E st env id
    Keeps-perform env (ApiCall.http_error e) break = Keeps-http_error I E st env e
    Keeps-perform env (ApiCall.process_user_auth r) break = Keeps-process_user_auth I E st env r
    Keeps-perform env (ApiCall.process_exchange_info r) break = Keeps-exchange_info I E st env r
    Keeps-perform env (ApiCall.process_market_data r) break = Keeps-market_data I E st env r
    Keeps-perform env (ApiCall.process_balance r) break = Keeps-balance I E st env r
    Keeps-perform env (ApiCall.process_user_trade_history r) break =
        Keeps-trade_history I E st env r
    Keeps-perform env (ApiCall.process_user_open_orders r) break = Keeps-open_orders I E st env r
    Keeps-perform env (ApiCall.process_cancel_orders r) break = Keeps-cancel_orders I E st r
    Keeps-perform env (ApiCall.process_new_orders r) break = Keeps-new_orders I E st r
    Keeps-perform env (ApiCall.process_streams root) break = Keeps-streams I E st env root
    Keeps-perform env (ApiCall.process_user_streams root) break = Keeps-user_streams I E st root
    Keeps-perform env (ApiCall.submit_order markets id side price base_volume volume) break =
        Keeps-submit_order I E st env markets id side price base_volume volume
    Keeps-perform env (ApiCall.new_order_failed r) break = Keeps-new_order_failed I E st r
    Keeps-perform env (ApiCall.cancel_order type order_id id) break =
        Keeps-cancel_order I E st type env order_id id
    Keeps-perform env (ApiCall.list_market_orders id n) break = Keeps-list_market_orders I E st id n
    Keeps-perform env (ApiCall.remove_list_market_orders id) break =
        Keeps-remove_list_market_orders I E st id
    Keeps-perform env (ApiCall.user_open_orders id) break = Keeps-user_open_orders I E st env id
    Keeps-perform env (ApiCall.user_trade_history id) break = Keeps-user_trade_history I E st env id
    Keeps-perform env (ApiCall.list_market_order_groups ids n) break =
        Keeps-list_market_order_groups I E st ids n
    Keeps-perform env ApiCall.break_timeout break = break refl

  abbrev Anything : Effect → Type 0
  Anything e = Unit {0}

  abbrev NotSent : Effect → Type 0
  NotSent e = is_sent e ≡ false

  All-Anything : (es : List Effect) → All Anything es
  All-Anything [] = tt
  All-Anything (e ∷ es) = (tt, All-Anything es)

  abbrev TableIsValid : BinanceApi → Type 0
  TableIsValid a = Temporary.IsValid a.temp_orders

  valid_stable : IsStable TableIsValid Anything
  valid_stable = record {
    silent = λ e h. tt;
    sent = λ r a i. All-Anything (send r a).1;
    online = λ b a i. i;
    token = λ s a i. i;
    ping_timer = λ n a i. i;
    key_timer = λ n a i. i;
    offset = λ n a i. i;
    blocked = λ a i. i;
    table = λ c a i. Temporary.step-IsValid a.temp_orders c i;
  }

  break_valid : Keeps TableIsValid Anything break_timeout
  unfolding Keeps Good break_timeout
  break_valid a i = (All-Anything (break_timeout a).1, i)

  call-IsValid :
      (env : Env) (c : ApiCall) (a : BinanceApi) → TableIsValid a → TableIsValid (perform env c a).0
  unfolding Keeps Good
  call-IsValid env c a v =
      (Keeps-perform TableIsValid Anything valid_stable env c (λ w. break_valid) a v).1

  -- Whatever methods of the API of Binance are called, in whatever order and with whatever answers,
  -- errors of new orders and times, no two waiting orders of its temporary table are of one type
  -- and one market, if none were before.
  pub perform_all-IsValid :
      (cs : List (Env × ApiCall)) (a : BinanceApi)
      → Temporary.IsValid a.temp_orders
      → Temporary.IsValid (perform_all cs a).0.temp_orders
  unfolding perform_all
  perform_all-IsValid [] a v = v
  perform_all-IsValid ((env, c) ∷ cs) a v =
      perform_all-IsValid cs (perform env c a).0 (call-IsValid env c a v)

  abbrev IsBlocked : BinanceApi → Type 0
  IsBlocked a = a.requests_is_block ≡ true

  send_blocked : (r : Request) (a : BinanceApi) → IsBlocked a → All NotSent (send r a).1
  unfolding send
  send_blocked r a b = rw b tt

  IsBlocked-stable : IsStable IsBlocked NotSent
  IsBlocked-stable = record {
    silent = λ e h. h;
    sent = send_blocked;
    online = λ b a i. i;
    token = λ s a i. i;
    ping_timer = λ n a i. i;
    key_timer = λ n a i. i;
    offset = λ n a i. i;
    blocked = λ a i. refl;
    table = λ c a i. i;
  }

  abbrev AllWait : List (Env × ApiCall) → Type 0
  AllWait = All λ p. waits p.1 ≡ true

  call-IsBlocked :
      (env : Env) (c : ApiCall) (a : BinanceApi)
      → waits c ≡ true
      → IsBlocked a
      → All NotSent (perform env c a).1 × IsBlocked (perform env c a).0
  unfolding Keeps Good
  call-IsBlocked env c a w b =
      Keeps-perform IsBlocked NotSent IsBlocked-stable env c (λ n. absurd (cc)) a b

  -- While requests are blocked, no sequence of calls and answers sends a request, and the block
  -- stays, if the end of the break is not among them.
  pub perform_all_blocked :
      (cs : List (Env × ApiCall)) (a : BinanceApi)
      → AllWait cs
      → a.requests_is_block ≡ true
      → All NotSent (perform_all cs a).1 × ((perform_all cs a).0.requests_is_block ≡ true)
  unfolding perform_all
  perform_all_blocked [] a w b = (tt, b)
  perform_all_blocked ((env, c) ∷ cs) a w b =
      let (quiet, blocked) = call-IsBlocked env c a w.0 b in
      let (quiet', blocked') = perform_all_blocked cs (perform env c a).0 w.1 blocked in
      (All-append IsBlocked NotSent (perform env c a).1 _ quiet quiet', blocked')
