-- ===== src/Tests/NetworkExamples.antt =====
-- The theorems on src/network at concrete inputs.
use crypto_shloma.Prelude.{true, false, List, [], ◌∷◌, ◌≡◌, ◌<◌, ◌%◌, ◌^◌, refl, All, arith, inr}
use crypto_shloma.Api.Binance.Session.{Channel}
use crypto_shloma.Api.Binance.Lifecycle.{log_out, take_token}
use crypto_shloma.Network.WebSocketClient as Socket
use crypto_shloma.Network.WebSocketClient.{WebSocketClient, Network, SocketState, Call}
use crypto_shloma.Network.WebSocketClient.Laws.{wanted, after, after-wanted}
use crypto_shloma.Network.WebSocketClient.Addresses.{Careful, perform_all-Careful}
use crypto_shloma.Network.WebSocketClient.Session.{receive_all, relogin_keeps_stream}
use crypto_shloma.Network.WebClient as Web
use crypto_shloma.Network.WebClient.{WebClient, Operation, Event}
use crypto_shloma.Network.WebClient.Laws.{requests_since, handle_all-counts}
use crypto_shloma.Tests.Platform.{Json, Fields, platform}
use crypto_shloma.Tests.ApiExamples.{env, api}

abbrev online : Network
online = record { socket_state = SocketState.connected; session_is_open = true }

abbrev offline : Network
offline = record { socket_state = SocketState.unconnected; session_is_open = false }

abbrev client : WebSocketClient
client = record Socket.new_client { base_template = "wss://stream/" }

abbrev calls : List (Network × Call)
calls =
    (offline, Call.opens)
    ∷ (online, Call.adds "ticker")
    ∷ (online, Call.adds "depth")
    ∷ (offline, Call.error)
    ∷ (online, Call.session_opened)
    ∷ (online, Call.removes "ticker" false)
    ∷ (online, Call.pong_timeout)
    ∷ []

abbrev calls_after_base : List (Network × Call)
calls_after_base = (offline, Call.sets_base "wss://other/") ∷ calls

after-wanted_example :
    Socket.is_template "depth" (after calls_after_base client).stream_templates
    ≡ wanted "depth" calls_after_base (Socket.is_template "depth" [])
after-wanted_example = after-wanted "depth" calls_after_base client tt

perform_all-Careful_example : All Careful (Socket.perform_all calls client)
perform_all-Careful_example =
    perform_all-Careful refl calls client (refl, (refl, (refl, (refl, (refl, (refl, (refl, tt)))))))
      (inr refl)

abbrev user_client : WebSocketClient
user_client = record {
  url = "wss://stream/ws/token";
  stream_templates = "token" ∷ [];
  base_template = "wss://stream/ws/";
}

abbrev answer : Fields
answer = Fields.field "listenKey" (Json.text "fresh") Fields.end

relogin_keeps_stream_example :
    (receive_all Channel.user_channel online
      (take_token env answer (log_out api).0).1
      (receive_all Channel.user_channel online (log_out api).1 user_client).0).0.stream_templates
    ≡ "token" ∷ "fresh" ∷ []
unfolding crypto_shloma.Tests.Platform.value_of
relogin_keeps_stream_example =
    relogin_keeps_stream env online answer api user_client refl refl refl refl

abbrev busy : WebClient
busy = record (Web.new_client 7 true) { request_count = 4294967295 }

abbrev events : List Event
events =
    Event.requests Operation.get
    ∷ Event.closes
    ∷ Event.requests Operation.post
    ∷ Event.ticks 8 true
    ∷ []

handle_all-counts_example :
    ((Web.handle_all events busy).request_count ≡ requests_since 7 4294967295 events % 2 ^ 32)
    × ((Web.handle_all events busy).request_count < 2 ^ 32)
handle_all-counts_example = handle_all-counts events busy (omega arith)
