-- ===== src/Api/Binance/Session.antt =====
-- src/api/binance_api.h and binance_api.cpp: the state of the API and the requests it makes.
use crypto_shloma.Prelude.{
  ℕ, ℤ, ◌-ℤ◌, String, Bool, List, [], ◌∷◌, ◌++◌, is_empty_text, text_of, if◌then◌else◌,
}
use crypto_shloma.Qt.{Qt}
use crypto_shloma.Base.Method.{Method}
use crypto_shloma.Api.Signals.{Signal}
use crypto_shloma.Api.TemporaryOrders.{Table}
use crypto_shloma.Api.Binance.EndPoints.{BinanceUrl, end_point}

pub data Verb : Type 0 where
  get post put del : Verb

-- A request with the header of the API key; `form` says that it has the content type of a form.
pub record Request : Type 0 where
  pub verb : Verb
  pub url : String
  pub api_key : String
  pub form : Bool
  pub body : String

-- The two web sockets.
pub data Channel : Type 0 where
  markets_channel user_channel : Channel

module _ ⦃q : Qt⦄ where
  open q use {Qreal, QDateTime, QJsonObject, QJsonValue, empty_object, number, signature}

  -- What a call does outside of the object.
  pub data Effect : Type 0 where
    emits : Signal → Effect
    sends : Request → Effect
    adds_stream : Channel → String → Effect
    removes_stream : Channel → String → Bool → Effect
    opens closes pings : Channel → Effect
    -- `startTimer`, `killTimer`, and the start of the timer that ends a break of the requests.
    starts_timer : ℕ → Effect
    kills_timer : ℕ → Effect
    starts_break : ℤ → Effect
    -- `QMetaObject::invokeMethod` by name.
    invokes : String → Effect

  -- A `QJsonDocument` with its two readings.
  pub record Document : Type 0 where
    pub object : QJsonObject
    pub array : List QJsonValue

  abbrev pub no_document : Document
  no_document = record { object = empty_object; array = [] }

  pub data Reply : Type 0 where
    -- The null pointer, a reply with an error, and one without.
    missing failed : Reply
    finished : Document → Reply

  -- What a call reads besides the object: settings, clocks, the web sockets, the file of test data,
  -- the number that `startTimer` returns, and the answer of the server's clock.
  pub record Env : Type 0 where
    pub test_data : Bool
    pub test_document : Document
    pub api_key : String
    pub secret_key : String
    pub trade_base_summ : Qreal
    pub trade_difference : Qreal
    pub now : QDateTime
    pub now_msecs : ℤ
    pub is_open : Channel → Bool
    pub is_connected : Channel → Bool
    pub timer_id : ℕ
    pub time_answer : QJsonObject
    -- The two random numbers of an emulated order.
    pub random_ids : ℕ × ℕ

  pub record BinanceApi : Type 0 where
    pub server_time_offset : ℤ
    pub put_key_timer_id : ℕ
    pub ping_timer_id : ℕ
    pub user_token : String
    pub requests_is_block : Bool
    pub is_online : Bool
    pub temp_orders : Table

  abbrev pub Call : Type 0
  Call = Method BinanceApi Effect

  unfoldable pub nothing : Call
  nothing a = (a, [])

  unfoldable pub does : List Effect → Call
  does es a = (a, es)

  -- One call after the other.
  infixl 5 ◌>>◌
  unfoldable pub ◌>>◌ : Call → Call → Call
  ◌>>◌ f g a = ((g (f a).0).0, (f a).1 ++ (g (f a).0).1)

  -- What `prepareMbxRequest` makes of the parameters.
  unfoldable pub signed_params : Env → BinanceApi → String → String
  signed_params env a params =
      let sep = if is_empty_text params then "" else "&" in
      let all =
        text_of
          (params ∷ sep ∷ "timestamp=" ∷ number (env.now_msecs -ℤ a.server_time_offset) ∷ []) in
      text_of (all ∷ "&signature=" ∷ signature all env.secret_key ∷ [])

  -- `prepareMbxRequest` for parameters that are signed or need no signature.
  unfoldable pub prepare_mbx_request : Verb → Env → String → String → Bool → String → Request
  prepare_mbx_request verb env url params request_body body = record {
    verb = verb;
    url = if request_body then url else text_of (url ∷ params ∷ []);
    api_key = env.api_key;
    form = request_body;
    body = body;
  }

  abbrev pub rest : BinanceUrl → String
  rest url = text_of (end_point BinanceUrl.url_rest ∷ end_point url ∷ [])

  -- `!m_requestsIsBlock ? m_webClient->… : nullptr`.
  unfoldable pub send : Request → Call
  send r a = (a, if a.requests_is_block then [] else sends r ∷ [])

  -- A signed request whose parameters stand in the address.
  unfoldable pub signed_request : Verb → Env → BinanceUrl → String → Call
  unfolding send signed_params prepare_mbx_request end_point
  signed_request verb env url params a =
      send (prepare_mbx_request verb env (rest url) (signed_params env a params) Bool.false "") a

  -- A request without a signature, and without a key.
  unfoldable pub plain_request : BinanceUrl → Call
  unfolding send end_point
  plain_request url =
      send (record { verb = Verb.get; url = rest url; api_key = ""; form = Bool.false; body = "" })

  unfoldable pub set_online : Call
  set_online a =
      if a.is_online
      then (a, [])
      else (record a { is_online = Bool.true }, emits Signal.is_online_changed ∷ [])

  unfoldable pub set_offline : Call
  set_offline a =
      if a.is_online
      then (record a { is_online = Bool.false }, emits Signal.is_online_changed ∷ [])
      else (a, [])

  -- `processingReply`: what it returns and what it does.
  unfoldable pub reply_document : Reply → Document
  reply_document (Reply.finished d) = d
  reply_document _ = no_document

  unfoldable pub processing_reply : Reply → Call
  unfolding nothing set_online
  processing_reply (Reply.finished d) = set_online
  processing_reply _ = nothing

  -- `getData` of the handlers: the file of test data, or the reply.
  unfoldable pub data_of : Env → Reply → Document
  unfolding reply_document
  data_of env reply = if env.test_data then env.test_document else reply_document reply

  unfoldable pub get_data : Env → Reply → Call
  unfolding nothing processing_reply
  get_data env reply = if env.test_data then nothing else processing_reply reply
