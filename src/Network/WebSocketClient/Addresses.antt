-- ===== src/Network/WebSocketClient/Addresses.antt =====
-- src/network/websocket_client.cpp: the addresses that are opened.
use crypto_shloma.Prelude.{
  String, Bool, true, false, not, ◌&&◌, List, [], ◌∷◌, ◌≡◌, refl, ap, ◌∙◌, arith, if-cases, All,
  ◌⊎◌, inl, inr,
}
use crypto_shloma.Qt.{Qt}
use crypto_shloma.Network.WebSocketClient.{
  WebSocketClient, Network, Effect, opens_socket, Call, adds, sets_base, removes, opens, closes,
  pings, pong, error, session_opened, pong_timeout, address, is_template, is_connected, open_socket,
  close_socket, ping, reconnect, add_stream_template, remove_stream_template, on_pong, on_error,
  perform, perform_all,
}

module _ ⦃q : Qt⦄ where
  -- The address is that of the base and the streams, or none was put together yet.
  abbrev pub IsCurrent : WebSocketClient → Type 0
  IsCurrent c = (c.url ≡ address c) ⊎ (c.url ≡ "")

  -- A socket is opened only at the address of the base and the streams, with an open session.
  abbrev pub OpensCurrent : Network → WebSocketClient → Effect → Type 0
  OpensCurrent n c (opens_socket u) = (u ≡ address c) × (n.session_is_open ≡ true)
  OpensCurrent n c _ = Unit

  -- The call is not `setBaseTemplate`.
  abbrev pub keeps_base : Call → Bool
  keeps_base (sets_base base) = false
  keeps_base _ = true

  -- What holds of a client after a call, and of what the call asked for.
  abbrev pub Careful : Network × (WebSocketClient × List Effect) → Type 0
  Careful (n, (c, es)) = IsCurrent c × All (OpensCurrent n c) es

  module _ (empty_is_empty : q.url_is_empty "" ≡ true) where
    is_checked :
        (u : String) (b : Bool)
        → (q.url_is_valid u && not (q.url_is_empty u) && b) ≡ true
        → b ≡ true
    is_checked u b h = ground arith

    is_not_empty :
        (u : String) (b : Bool)
        → (q.url_is_valid u && not (q.url_is_empty u) && b) ≡ true
        → q.url_is_empty u ≡ false
    is_not_empty u b h = ground arith

    current_if_open :
        (c : WebSocketClient) → IsCurrent c → q.url_is_empty c.url ≡ false → c.url ≡ address c
    current_if_open c (inl e) h = e
    current_if_open c (inr e) h = let k = ap q.url_is_empty e ∙ empty_is_empty in cc

    open_socket-Careful :
        (n : Network) (c : WebSocketClient) → IsCurrent c → Careful (n, open_socket n c)
    unfolding open_socket
    open_socket-Careful n c i = (
      i,
      if-cases (All (OpensCurrent n c))
          (q.url_is_valid c.url && not (q.url_is_empty c.url) && n.session_is_open)
          (λ e. (
            (
              current_if_open c i (is_not_empty c.url n.session_is_open e),
              is_checked c.url n.session_is_open e,
            ),
            tt,
          ))
          (λ e. tt),
    )

    reconnect-Careful :
        (n : Network) (c : WebSocketClient) → IsCurrent c → Careful (n, reconnect n c)
    unfolding reconnect close_socket
    reconnect-Careful n c i =
        if-cases (λ r. Careful (n, r)) (is_connected n)
          (λ e. let o = open_socket-Careful n c i in (o.0, (tt, o.1)))
          (λ e. open_socket-Careful n c i)

    add-Careful :
        (n : Network) (t : String) (c : WebSocketClient)
        → IsCurrent c
        → Careful (n, add_stream_template n t c)
    unfolding add_stream_template
    add-Careful n t c i =
        if-cases (λ r. Careful (n, r)) (not (is_template t c.stream_templates))
          (λ e. reconnect-Careful n _ (inl refl)) (λ e. (i, tt))

    remove-Careful :
        (n : Network) (t : String) (r : Bool) (c : WebSocketClient)
        → IsCurrent c
        → Careful (n, remove_stream_template n t r c)
    unfolding remove_stream_template close_socket
    remove-Careful n t true c i =
        if-cases (λ r. Careful (n, r)) (is_template t c.stream_templates)
          (λ e. reconnect-Careful n _ (inl refl)) (λ e. (i, tt))
    remove-Careful n t false c i =
        if-cases (λ r. Careful (n, r)) (is_template t c.stream_templates)
          (λ e.
            if-cases (λ r. Careful (n, r)) (is_connected n) (λ f. (inl refl, (tt, tt)))
              (λ f. (inl refl, tt)))
          (λ e. (i, tt))

    perform-Careful :
        (n : Network) (k : Call) (c : WebSocketClient)
        → keeps_base k ≡ true
        → IsCurrent c
        → Careful (n, perform n k c)
    unfolding perform close_socket ping on_pong on_error
    perform-Careful n (adds t) c kept i = add-Careful n t c i
    perform-Careful n (removes t r) c kept i = remove-Careful n t r c i
    perform-Careful n (sets_base b) c kept i = cc
    perform-Careful n opens c kept i = open_socket-Careful n c i
    perform-Careful n closes c kept i = (i, (tt, tt))
    perform-Careful n pings c kept i = (i, (tt, (tt, tt)))
    perform-Careful n pong c kept i = (i, (tt, tt))
    perform-Careful n error c kept i = (i, (tt, tt))
    perform-Careful n session_opened c kept i = reconnect-Careful n c i
    perform-Careful n pong_timeout c kept i = reconnect-Careful n c i

    -- If the empty address is empty to QUrl, and the address of a client is that of its base and
    -- streams, or none yet: through any calls but setBaseTemplate it stays so, and each call opens
    -- the socket only at the address of the base and the streams that it leaves, and only with an
    -- open session.
    pub perform_all-Careful :
        (ks : List (Network × Call)) (c : WebSocketClient)
        → All (λ k. keeps_base k.1 ≡ true) ks
        → IsCurrent c
        → All Careful (perform_all ks c)
    unfolding perform_all
    perform_all-Careful [] c kept i = tt
    perform_all-Careful ((n, k) ∷ ks) c kept i =
        let h = perform-Careful n k c kept.0 i in
        (h, perform_all-Careful ks (perform n k c).0 kept.1 h.0)
