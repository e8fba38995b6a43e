-- ===== src/Api/Binance/Lifecycle.antt =====
-- src/api/binance_api.cpp: starting, logging in and out, and what follows an error.
use crypto_shloma.Prelude.{
  ℕ, ℤ, pos, pos_part, neg_part, sub_ℕ, eq_ℤ, ◌*◌, ◌-ℤ◌, String, Bool, not, ◌&&◌, ◌||◌, ◌==◌, List,
  [], ◌∷◌, ◌++◌, is_empty_text, text_of, if◌then◌else◌,
}
use crypto_shloma.Qt.{Qt}
use crypto_shloma.Api.Signals.{Signal}
use crypto_shloma.Api.Binance.EndPoints.{BinanceUrl}
use crypto_shloma.Api.Binance.Read.{text_at}
use crypto_shloma.Api.Binance.Session.{
  ◌>>◌, does, nothing, send, Verb, Channel, Effect, Reply, Env, BinanceApi, Call, nothing, does,
  send, rest, signed_params, prepare_mbx_request, plain_request, set_offline, processing_reply,
  reply_document,
}

module _ ⦃q : Qt⦄ where
  open q use {QJsonObject, value, to_i64, to_i32, text_to_int, object_is_empty}

  -- The request that belongs to the token of the user: to keep it, or to delete it.
  abbrev token_request : Verb → Env → BinanceApi → Call
  token_request verb env a = send (
      prepare_mbx_request verb env (rest BinanceUrl.url_user_data_stream)
        (text_of ("?listenKey=" ∷ a.user_token ∷ [])) Bool.false "")

  abbrev ping : Env → Channel → List Effect
  ping env c = if env.is_open c then Effect.pings c ∷ [] else []

  unfoldable pub timer_event : Env → ℕ → Call
  unfolding send prepare_mbx_request
  timer_event env id a =
      if id == a.put_key_timer_id && (not (is_empty_text a.user_token) && not a.requests_is_block)
      then token_request Verb.put env a a
      else if id == a.ping_timer_id
      then (a, ping env Channel.user_channel ++ ping env Channel.markets_channel)
      else (a, [])

  -- The timer that ends a break of the requests.
  unfoldable pub break_timeout : Call
  break_timeout a = (
    record a { requests_is_block = Bool.false },
    Effect.emits Signal.disconnected_public_api ∷ Effect.emits Signal.disconnected_private_api ∷ [],
  )

  abbrev pub when : Bool → List Effect → List Effect
  when b es = if b then es else []

  unfoldable pub start : Env → Call
  start env a =
      let opens =
        when (not (env.is_connected Channel.markets_channel))
          (Effect.opens Channel.markets_channel ∷ []) in
      if a.ping_timer_id == 0
      then (record a { ping_timer_id = env.timer_id }, opens ++ Effect.starts_timer 10000 ∷ [])
      else (a, opens)

  unfoldable pub log_out : Call
  log_out a = (
    record a { put_key_timer_id = 0; ping_timer_id = 0 },
    when (not (a.put_key_timer_id == 0)) (Effect.kills_timer a.put_key_timer_id ∷ [])
        ++ when (not (a.ping_timer_id == 0)) (Effect.kills_timer a.ping_timer_id ∷ [])
        ++ Effect.removes_stream Channel.user_channel (text_of ("listenKey=" ∷ a.user_token ∷ []))
            Bool.false
          ∷ [],
  )

  -- `deleteToken`, which waits for the answer and then clears the token.
  unfoldable pub delete_token : Env → Call
  unfolding send prepare_mbx_request
  delete_token env a =
      if is_empty_text a.user_token || a.requests_is_block
      then (a, [])
      else (record a { user_token = "" }, (token_request Verb.del env a a).1)

  unfoldable pub stop : Env → Call
  unfolding ◌>>◌ does log_out delete_token
  stop env = do
    does (
        when (env.is_connected Channel.markets_channel)
          (Effect.closes Channel.markets_channel ∷ []))
    log_out
    does (when (env.is_connected Channel.user_channel) (Effect.closes Channel.user_channel ∷ []))
    delete_token env

  -- The request of `userAuth`; its parameters are signed but stand neither in the address nor in the
  -- body.
  unfoldable pub user_auth : Env → Call
  unfolding send prepare_mbx_request signed_params
  user_auth env a =
      send
        (prepare_mbx_request Verb.post env (rest BinanceUrl.url_user_data_stream)
          (signed_params env a "") Bool.true "")
        a

  abbrev follow_token : Env → Call
  follow_token env a =
      let es =
        Effect.adds_stream Channel.user_channel a.user_token
        ∷ when (not (env.is_connected Channel.user_channel))
            (Effect.opens Channel.user_channel ∷ []) in
      if a.put_key_timer_id == 0
      then (record a { put_key_timer_id = env.timer_id }, es ++ Effect.starts_timer 180000 ∷ [])
      else (a, es)

  abbrev pub take_token : Env → QJsonObject → Call
  take_token env object a =
      if object_is_empty object
      then (a, [])
      else let token = text_at object "listenKey" in
        let a' = record a { user_token = token } in
        if is_empty_text token then (a', []) else follow_token env a'

  unfoldable pub process_user_auth : Env → Reply → Call
  unfolding ◌>>◌ processing_reply reply_document
  process_user_auth env reply = do
    processing_reply reply
    take_token env (reply_document reply).object

  -- `serverTime`, which waits for the answer.
  unfoldable pub server_time : Env → Call
  unfolding plain_request
  server_time env a = if a.requests_is_block then (a, []) else (
    record a { server_time_offset = env.now_msecs -ℤ to_i64 (value env.time_answer "serverTime") },
    (plain_request BinanceUrl.url_server_time a).1,
  )

  -- An answer with an error: whether the host was not found, the header `Retry-After`, the answer
  -- and the name of the method that asked.
  pub record HttpError : Type 0 where
    pub host_not_found : Bool
    pub retry_after : String
    pub root : QJsonObject
    pub method_name : String

  abbrev block : ℤ → Call
  block msecs a = (record a { requests_is_block = Bool.true }, Effect.starts_break msecs ∷ [])

  -- An `int` in the source, where a product of 2 ^ 31 or more is undefined behaviour; here it is exact.
  abbrev times_1000 : ℤ → ℤ
  times_1000 i = sub_ℕ (pos_part i * 1000) (neg_part i * 1000)

  abbrev pub error_code : HttpError → ℤ
  error_code e = to_i32 (value e.root "code")

  -- The second `switch` of `httpError`, by the exchange's number of the error.
  unfoldable pub react : Env → HttpError → Call
  unfolding ◌>>◌ does nothing server_time log_out user_auth
  react env e =
      if eq_ℤ (error_code e) (pos 0 -ℤ pos 1021)
      then (server_time env
          >> does (when (not (is_empty_text e.method_name)) (Effect.invokes e.method_name ∷ [])))
      else if eq_ℤ (error_code e) (pos 0 -ℤ pos 1003)
      then block (times_1000 (text_to_int e.retry_after))
      else if eq_ℤ (error_code e) (pos 0 -ℤ pos 1125)
      then (log_out >> user_auth env)
      else nothing

  -- The statement that stores the error is left out.
  unfoldable pub http_error : Env → HttpError → Call
  unfolding ◌>>◌ nothing react set_offline
  http_error env e = do
    if e.host_not_found then block (pos 3000) else nothing
    react env e
    set_offline
