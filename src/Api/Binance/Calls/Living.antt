-- ===== src/Api/Binance/Calls/Living.antt =====
-- src/api/binance_api.cpp: the session, as calls.
use crypto_shloma.Prelude.{ℕ}
use crypto_shloma.Qt.{Qt}
use crypto_shloma.Api.Binance.Session.{Effect, Reply, Env, BinanceApi}
use crypto_shloma.Api.Binance.Lifecycle.{
  HttpError, timer_event, start, log_out, delete_token, stop, user_auth, process_user_auth,
  take_token, server_time, react, http_error,
}
use crypto_shloma.Api.Binance.Calls.Steps.{IsStable, Keeps, keeps, Good-pair}

module _ ⦃q : Qt⦄ (I : BinanceApi → Type 0) (E : Effect → Type 0) (st : IsStable I E) where
  open q use {Qreal, QJsonObject}

  pub Keeps-timer_event : (env : Env) (id : ℕ) → Keeps I E (timer_event env id)
  unfolding timer_event Keeps
  Keeps-timer_event env id a i = search keeps depth 9

  pub Keeps-start : (env : Env) → Keeps I E (start env)
  unfolding start Keeps
  Keeps-start env a i = search (keeps, st.ping_timer) depth 9

  pub Keeps-log_out : Keeps I E log_out
  unfolding log_out Keeps
  Keeps-log_out a i =
      let state : I (record a { put_key_timer_id = 0; ping_timer_id = 0 }) =
        st.ping_timer 0 _ (st.key_timer 0 a i) in
      Good-pair I E _ _ (search keeps depth 9) state

  Keeps-delete_token : (env : Env) → Keeps I E (delete_token env)
  unfolding delete_token Keeps
  Keeps-delete_token env a i = search (keeps, st.token) depth 9

  pub Keeps-stop : (env : Env) → Keeps I E (stop env)
  unfolding stop
  Keeps-stop env = search (keeps, Keeps-log_out, Keeps-delete_token) depth 9

  pub Keeps-user_auth : (env : Env) → Keeps I E (user_auth env)
  unfolding user_auth Keeps
  Keeps-user_auth env a i = search keeps depth 9

  Keeps-take_token : (env : Env) (object : QJsonObject) → Keeps I E (take_token env object)
  unfolding Keeps
  Keeps-take_token env object a i =
      let token = st.token (q.to_string (q.value object "listenKey")) a i in
      search (keeps, token, st.key_timer env.timer_id _ token) depth 9

  pub Keeps-process_user_auth : (env : Env) (r : Reply) → Keeps I E (process_user_auth env r)
  unfolding process_user_auth
  Keeps-process_user_auth env r = search (keeps, Keeps-take_token) depth 9

  pub Keeps-server_time : (env : Env) → Keeps I E (server_time env)
  unfolding server_time Keeps
  Keeps-server_time env a i = search (keeps, st.offset) depth 9

  Keeps-react : (env : Env) (e : HttpError) → Keeps I E (react env e)
  unfolding react Keeps
  Keeps-react env e =
      search (keeps, Keeps-server_time, Keeps-log_out, Keeps-user_auth, st.blocked) depth 9

  pub Keeps-http_error : (env : Env) (e : HttpError) → Keeps I E (http_error env e)
  unfolding http_error Keeps
  Keeps-http_error env e = search (keeps, Keeps-react, st.blocked) depth 9
