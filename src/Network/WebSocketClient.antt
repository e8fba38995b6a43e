-- ===== src/Network/WebSocketClient.antt =====
-- src/network/websocket_client.h and websocket_client.cpp: the streams that a web socket subscribes to
-- by its address. The slots of the socket that only log are left out.
pub mod Laws
pub mod Addresses
pub mod Session
use crypto_shloma.Prelude.{
  ℕ, String, Bool, true, false, not, ◌&&◌, ◌||◌, List, [], ◌∷◌, ◌++◌, any, erase_first, str_eq,
  text_of, join, if◌then◌else◌,
}
use crypto_shloma.Qt.{Qt}
use crypto_shloma.Base.Method.{Method, ◌>>◌}

-- The states of QAbstractSocket.
pub data SocketState : Type 0 where
  unconnected host_lookup connecting connected bound listening closing : SocketState

-- What a call reads: the state of the socket, and whether the network session is open.
pub record Network : Type 0 where
  pub socket_state : SocketState
  pub session_is_open : Bool

-- `m_url`, `m_streamTemplates` and `m_baseWebSocketTemplate`.
pub record WebSocketClient : Type 0 where
  pub url : String
  pub stream_templates : List String
  pub base_template : String

-- What is asked of the socket, whose thread takes it from a queue, and of the timer for a pong.
pub data Effect : Type 0 where
  opens_socket : String → Effect
  closes_socket pings_socket : Effect
  starts_pong_timer : ℕ → Effect
  stops_pong_timer : Effect

abbrev pub ClientMethod : Type 0
ClientMethod = Method WebSocketClient Effect

abbrev pub new_client : WebSocketClient
new_client = record { url = ""; stream_templates = []; base_template = "" }

abbrev pub is_connected : Network → Bool
is_connected n = elim n.socket_state [
  | SocketState.connected ↦ true
  | SocketState.connecting ↦ true
  | _ ↦ false
]

abbrev pub is_open : Network → Bool
is_open n = elim n.socket_state [ SocketState.connected ↦ true | _ ↦ false ]

abbrev pub is_online : Network → Bool
is_online n = n.session_is_open

-- `QStringList::contains`.
abbrev pub is_template : String → List String → Bool
is_template templ = any (λ t. str_eq t templ)

-- `m_baseWebSocketTemplate + m_streamTemplates.join("/")`.
abbrev pub address : WebSocketClient → String
address c = text_of (c.base_template ∷ join "/" c.stream_templates ∷ [])

module _ ⦃q : Qt⦄ where
  open q use {url_is_valid, url_is_empty}

  unfoldable pub open_socket : Network → ClientMethod
  open_socket n c = (
    c,
    if url_is_valid c.url && not (url_is_empty c.url) && is_online n
        then opens_socket c.url ∷ []
        else [],
  )

  unfoldable pub set_base_template : String → ClientMethod
  set_base_template base c = (record c { base_template = base }, [])

  unfoldable pub close_socket : ClientMethod
  close_socket c = (c, closes_socket ∷ [])

  unfoldable pub ping : ClientMethod
  ping c = (c, pings_socket ∷ starts_pong_timer 5000 ∷ [])

  unfoldable pub reconnect : Network → ClientMethod
  unfolding open_socket close_socket
  reconnect n c = if is_connected n then (close_socket >> open_socket n) c else open_socket n c

  abbrev with_templates : List String → WebSocketClient → WebSocketClient
  with_templates ts c =
      let c' = record c { stream_templates = ts } in record c' { url = address c' }

  unfoldable pub add_stream_template : Network → String → ClientMethod
  unfolding reconnect
  add_stream_template n templ c =
      if not (is_template templ c.stream_templates)
      then reconnect n (with_templates (c.stream_templates ++ templ ∷ []) c)
      else (c, [])

  abbrev after_removal : Network → Bool → ClientMethod
  after_removal n try_reconnect c =
      if try_reconnect then reconnect n c else if is_connected n then close_socket c else (c, [])

  unfoldable pub remove_stream_template : Network → String → Bool → ClientMethod
  unfolding reconnect close_socket erase_first
  remove_stream_template n templ try_reconnect c =
      if is_template templ c.stream_templates
      then after_removal n try_reconnect
          (with_templates (erase_first (λ t. str_eq t templ) c.stream_templates) c)
      else (c, [])

  unfoldable pub on_pong : ClientMethod
  on_pong c = (c, stops_pong_timer ∷ [])

  unfoldable pub on_error : ClientMethod
  on_error c = (c, starts_pong_timer 1000 ∷ [])

  -- The calls of a client: its slots, those of its socket and of its session, and the end of the timer
  -- for a pong.
  pub data Call : Type 0 where
    adds sets_base : String → Call
    removes : String → Bool → Call
    opens closes pings pong error session_opened pong_timeout : Call

  unfoldable pub perform : Network → Call → ClientMethod
  unfolding add_stream_template remove_stream_template set_base_template open_socket close_socket
      ping on_pong on_error reconnect
  perform n (adds t) = add_stream_template n t
  perform n (removes t try_reconnect) = remove_stream_template n t try_reconnect
  perform n (sets_base base) = set_base_template base
  perform n opens = open_socket n
  perform n closes = close_socket
  perform n pings = ping
  perform n pong = on_pong
  perform n error = on_error
  perform n session_opened = reconnect n
  perform n pong_timeout = reconnect n

  -- The client after each of the calls, with what the call asked for.
  unfoldable pub perform_all :
      List (Network × Call) → WebSocketClient → List (Network × (WebSocketClient × List Effect))
  unfolding perform
  perform_all [] c = []
  perform_all ((n, k) ∷ ks) c = let r = perform n k c in (n, r) ∷ perform_all ks r.0
