-- ===== src/Network/WebSocketClient/Laws.antt =====
-- src/network/websocket_client.cpp: which streams are subscribed, and which address is opened.
use crypto_shloma.Prelude.{
  String, Bool, true, false, List, [], ◌∷◌, ◌++◌, ◌≡◌, refl, sym, ap, subst, ◌∙◌, arith, eq_iff,
  str_eq, erase_first, if◌then◌else◌, if-cases, inl, inr, Bool-cases,
}
use crypto_shloma.Qt.{Qt}
use crypto_shloma.Storage.Keyed.{Distinct}
use crypto_shloma.Storage.Keyed.Laws.{has-append, Distinct-append, Distinct-erase}
use crypto_shloma.Network.WebSocketClient.{
  WebSocketClient, Network, Call, adds, sets_base, removes, set_base_template, opens, closes, pings,
  pong, error, session_opened, pong_timeout, is_template, is_connected, open_socket, close_socket,
  ping, reconnect, add_stream_template, remove_stream_template, on_pong, on_error, perform,
}

-- No stream stands twice in the address.
abbrev pub AllDistinct : List String → Type 0
AllDistinct = Distinct (λ t. t) str_eq

is_template-append :
    (s t : String) (ts : List String)
    → is_template s (ts ++ t ∷ []) ≡ (if is_template s ts then true else str_eq t s)
is_template-append s t ts = has-append (λ x. x) str_eq eq_iff s ts t

is_template-erase :
    (s t : String) (ts : List String)
    → AllDistinct ts
    → is_template s (erase_first (λ x. str_eq x t) ts)
      ≡ (if str_eq t s then false else is_template s ts)
unfolding erase_first
is_template-erase s t [] d = ground arith
is_template-erase s t (x ∷ ts) d =
    ground (arith, is_template-erase s t ts d.1, eq_iff x t, eq_iff t s, eq_iff x s, d.0)

there :
    (t s : String) (ts : List String)
    → is_template s ts ≡ true
    → (if str_eq s t then true else is_template t ts) ≡ is_template t ts
there t s ts h = elim (Bool-cases (str_eq s t)) [
  | inl e ↦ rw (e, sym ((eq_iff s t).0 e), h) refl
  | inr e ↦ rw e refl
]

added :
    (t s : String) (ts : List String)
    → (if str_eq s t then true else is_template t ts)
      ≡ is_template t (if is_template s ts then ts else ts ++ s ∷ [])
added t s ts = elim (Bool-cases (is_template s ts)) [
  | inl e ↦ rw e (there t s ts e)
  | inr e ↦ rw (e, is_template-append t s ts) (ground arith)
]

module _ ⦃q : Qt⦄ where
  -- The calls that change the streams, as they are meant: the last one about a stream counts.
  unfoldable pub wanted : String → List (Network × Call) → Bool → Bool
  wanted t [] b = b
  wanted t ((n, k) ∷ ks) b = elim k [
    | adds s ↦ wanted t ks (if str_eq s t then true else b)
    | removes s r ↦ wanted t ks (if str_eq s t then false else b)
    | _ ↦ wanted t ks b
  ]

  unfoldable pub after : List (Network × Call) → WebSocketClient → WebSocketClient
  unfolding perform
  after [] c = c
  after ((n, k) ∷ ks) c = after ks (perform n k c).0

  reconnect-client : (n : Network) (c : WebSocketClient) → (reconnect n c).0 ≡ c
  unfolding reconnect open_socket close_socket
  reconnect-client n c = ground arith

  pub add-templates :
      (n : Network) (t : String) (c : WebSocketClient)
      → (add_stream_template n t c).0.stream_templates ≡ (
          if is_template t c.stream_templates
          then c.stream_templates
          else c.stream_templates ++ t ∷ [])
  unfolding add_stream_template
  add-templates n t c = elim (Bool-cases (is_template t c.stream_templates)) [
    | inl e ↦ rw e refl
    | inr e ↦ rw (e, reconnect-client n _) refl
  ]

  after_removal-client :
      (n : Network) (r : Bool) (c : WebSocketClient)
      → (if r then reconnect n c else if is_connected n then close_socket c else (c, [])).0 ≡ c
  unfolding close_socket
  after_removal-client n true c = reconnect-client n c
  after_removal-client n false c = ground arith

  erase_absent :
      (t : String) (ts : List String)
      → is_template t ts ≡ false
      → erase_first (λ x. str_eq x t) ts ≡ ts
  unfolding erase_first
  erase_absent t [] h = refl
  erase_absent t (x ∷ ts) h = ground (arith, erase_absent t ts)

  remove-templates :
      (n : Network) (t : String) (r : Bool) (c : WebSocketClient)
      → (remove_stream_template n t r c).0.stream_templates
        ≡ erase_first (λ x. str_eq x t) c.stream_templates
  unfolding remove_stream_template
  remove-templates n t r c = elim (Bool-cases (is_template t c.stream_templates)) [
    | inl e ↦ rw (e, after_removal-client n r _) refl
    | inr e ↦ rw (e, erase_absent t c.stream_templates e) refl
  ]

  -- The streams after a call.
  abbrev templates_after : Call → List String → List String
  templates_after (adds t) ts = if is_template t ts then ts else ts ++ t ∷ []
  templates_after (removes t r) ts = erase_first (λ x. str_eq x t) ts
  templates_after _ ts = ts

  perform-templates :
      (n : Network) (k : Call) (c : WebSocketClient)
      → (perform n k c).0.stream_templates ≡ templates_after k c.stream_templates
  unfolding perform set_base_template open_socket close_socket ping on_pong on_error
  perform-templates n (adds t) c = add-templates n t c
  perform-templates n (removes t r) c = remove-templates n t r c
  perform-templates n (sets_base b) c = refl
  perform-templates n opens c = refl
  perform-templates n closes c = refl
  perform-templates n pings c = refl
  perform-templates n pong c = refl
  perform-templates n error c = refl
  perform-templates n session_opened c = ap (λ d. d.stream_templates) (reconnect-client n c)
  perform-templates n pong_timeout c = ap (λ d. d.stream_templates) (reconnect-client n c)

  templates_after-AllDistinct :
      (k : Call) (ts : List String) → AllDistinct ts → AllDistinct (templates_after k ts)
  templates_after-AllDistinct (adds t) ts d =
      if-cases AllDistinct (is_template t ts) (λ e. d)
        (λ e. Distinct-append (λ x. x) str_eq eq_iff ts t e d)
  templates_after-AllDistinct (removes t r) ts d =
      Distinct-erase (λ x. x) str_eq eq_iff (λ x. str_eq x t) ts d
  templates_after-AllDistinct (sets_base b) ts d = d
  templates_after-AllDistinct opens ts d = d
  templates_after-AllDistinct closes ts d = d
  templates_after-AllDistinct pings ts d = d
  templates_after-AllDistinct pong ts d = d
  templates_after-AllDistinct error ts d = d
  templates_after-AllDistinct session_opened ts d = d
  templates_after-AllDistinct pong_timeout ts d = d

  wanted-templates :
      (t : String) (n : Network) (k : Call) (ks : List (Network × Call)) (ts : List String)
      → AllDistinct ts
      → wanted t ((n, k) ∷ ks) (is_template t ts)
        ≡ wanted t ks (is_template t (templates_after k ts))
  unfolding wanted
  wanted-templates t n (adds s) ks ts d = ap (wanted t ks) (added t s ts)
  wanted-templates t n (removes s r) ks ts d = ap (wanted t ks) (sym (is_template-erase t s ts d))
  wanted-templates t n (sets_base b) ks ts d = refl
  wanted-templates t n opens ks ts d = refl
  wanted-templates t n closes ks ts d = refl
  wanted-templates t n pings ks ts d = refl
  wanted-templates t n pong ks ts d = refl
  wanted-templates t n error ks ts d = refl
  wanted-templates t n session_opened ks ts d = refl
  wanted-templates t n pong_timeout ks ts d = refl

  -- After any calls of a web socket client whose streams were all different, a stream is subscribed
  -- exactly if the last call that added or removed it added it, or, if there was none, if it was
  -- subscribed before.
  pub after-wanted :
      (t : String) (ks : List (Network × Call)) (c : WebSocketClient)
      → AllDistinct c.stream_templates
      → is_template t (after ks c).stream_templates ≡ wanted t ks (is_template t c.stream_templates)
  unfolding after wanted
  after-wanted t [] c d = refl
  after-wanted t ((n, k) ∷ ks) c d =
      let e = perform-templates n k c in
      after-wanted t ks (perform n k c).0
        (subst AllDistinct (sym e) (templates_after-AllDistinct k c.stream_templates d))
      ∙ ap (λ ts. wanted t ks (is_template t ts)) e
      ∙ sym (wanted-templates t n k ks c.stream_templates d)
