-- ===== src/Network/WebSocketClient/Session.antt =====
-- src/network/websocket_client.cpp under src/api/binance_api.cpp: what the calls of the API do to one of
-- its two web sockets.
use crypto_shloma.Prelude.{
  ℕ, String, Bool, true, false, not, ◌==◌, List, [], ◌∷◌, ◌++◌, ◌≡◌, ◌≢◌, refl, sym, ap, ◌∙◌, arith,
  Bool-cases, inl, inr, str_eq, eq_iff, is_empty_text, text_of, if◌then◌else◌,
}
use Prim.Native.String.{◌++◌ as append_text, count}
use text.Mathlib.TextLemmas.{length-append}
use crypto_shloma.Qt.{Qt}
use crypto_shloma.Api.Binance.Session as Api
use crypto_shloma.Api.Binance.Session.{BinanceApi, Channel, Env}
use crypto_shloma.Api.Binance.Read.{text_at}
use crypto_shloma.Api.Binance.Lifecycle.{when, log_out, take_token}
use crypto_shloma.Network.WebSocketClient.{
  WebSocketClient, Network, ClientMethod, open_socket, close_socket, ping, add_stream_template,
  remove_stream_template,
}
use crypto_shloma.Network.WebSocketClient.Laws.{add-templates}

abbrev is_for : Channel → Channel → Bool
is_for Channel.markets_channel Channel.markets_channel = true
is_for Channel.user_channel Channel.user_channel = true
is_for _ _ = false

abbrev skip : ClientMethod
skip c = (c, [])

module _ ⦃q : Qt⦄ where
  -- The socket's part in what a call of the API does.
  unfoldable pub receive : Channel → Network → Api.Effect → ClientMethod
  unfolding add_stream_template remove_stream_template open_socket close_socket ping
  receive me n (Api.Effect.adds_stream ch t) =
      if is_for me ch then add_stream_template n t else skip
  receive me n (Api.Effect.removes_stream ch t try_reconnect) =
      if is_for me ch then remove_stream_template n t try_reconnect else skip
  receive me n (Api.Effect.opens ch) = if is_for me ch then open_socket n else skip
  receive me n (Api.Effect.closes ch) = if is_for me ch then close_socket else skip
  receive me n (Api.Effect.pings ch) = if is_for me ch then ping else skip
  receive me n _ = skip

  unfoldable pub receive_all : Channel → Network → List Api.Effect → ClientMethod
  unfolding receive
  receive_all me n [] c = (c, [])
  receive_all me n (e ∷ es) c =
      let r = receive me n e c in let s = receive_all me n es r.0 in (s.0, r.1 ++ s.1)

  kills_keep :
      (me : Channel) (n : Network) (b d : Bool) (i j : ℕ) (es : List Api.Effect)
      (c : WebSocketClient)
      → receive_all me n
          (when b (Api.Effect.kills_timer i ∷ []) ++ when d (Api.Effect.kills_timer j ∷ []) ++ es)
          c
        ≡ receive_all me n es c
  unfolding receive_all receive
  kills_keep me n true true i j es c = refl
  kills_keep me n true false i j es c = refl
  kills_keep me n false true i j es c = refl
  kills_keep me n false false i j es c = refl

  other_text : (t : String) → text_of ("listenKey=" ∷ t ∷ []) ≢ t
  other_text t h =
      omega (arith, ap count h, length-append "listenKey=" (append_text t ""), length-append t "")

  other_template : (t : String) → str_eq t (text_of ("listenKey=" ∷ t ∷ [])) ≡ false
  other_template t = elim (Bool-cases (str_eq t (text_of ("listenKey=" ∷ t ∷ [])))) [
    | inl e ↦ elim (other_text t (sym ((eq_iff t (text_of ("listenKey=" ∷ t ∷ []))).0 e))) [ ]
    | inr e ↦ e
  ]

  log_out-keeps :
      (n : Network) (a : BinanceApi) (c : WebSocketClient)
      → c.stream_templates ≡ a.user_token ∷ []
      → (receive_all Channel.user_channel n (log_out a).1 c).0 ≡ c
  unfolding receive_all receive log_out remove_stream_template
  log_out-keeps n a c h =
      ap (λ r. r.0)
        (kills_keep Channel.user_channel n (not (a.put_key_timer_id == 0))
          (not (a.ping_timer_id == 0)) a.put_key_timer_id a.ping_timer_id _ c)
      ∙ rw (h, other_template a.user_token) refl

  take_token-adds :
      (env : Env) (n : Network) (object : q.QJsonObject) (a : BinanceApi) (c : WebSocketClient)
      → q.object_is_empty object ≡ false
      → is_empty_text (text_at object "listenKey") ≡ false
      → (receive_all Channel.user_channel n (take_token env object a).1 c).0
        ≡ (add_stream_template n (text_at object "listenKey") c).0
  unfolding receive_all receive open_socket
  take_token-adds env n object a c h k = elim (Bool-cases (a.put_key_timer_id == 0)) [
    | inl e ↦ elim (Bool-cases (env.is_connected Channel.user_channel)) [
      | inl f ↦ rw (h, k, e, f) refl
      | inr f ↦ rw (h, k, e, f) refl
    ]
    | inr e ↦ elim (Bool-cases (env.is_connected Channel.user_channel)) [
      | inl f ↦ rw (h, k, e, f) refl
      | inr f ↦ rw (h, k, e, f) refl
    ]
  ]

  -- If the stream of the user is the only one of the client of its socket, then after a log out and
  -- the answer of a log in with another token that is not empty the client has both streams, that
  -- of the old token and that of the new one.
  pub relogin_keeps_stream :
      (env : Env) (n : Network) (object : q.QJsonObject) (a : BinanceApi) (c : WebSocketClient)
      → c.stream_templates ≡ a.user_token ∷ []
      → q.object_is_empty object ≡ false
      → is_empty_text (text_at object "listenKey") ≡ false
      → str_eq a.user_token (text_at object "listenKey") ≡ false
      → (receive_all Channel.user_channel n
          (take_token env object (log_out a).0).1
          (receive_all Channel.user_channel n (log_out a).1 c).0).0.stream_templates
        ≡ a.user_token ∷ text_at object "listenKey" ∷ []
  relogin_keeps_stream env n object a c h e k d =
      ap (λ x. x.stream_templates)
        (take_token-adds env n object (log_out a).0 _ e k
          ∙ ap (λ x. (add_stream_template n (text_at object "listenKey") x).0)
              (log_out-keeps n a c h))
      ∙ add-templates n (text_at object "listenKey") c
      ∙ rw (h, d) refl
