-- ===== src/Network/WebClient/Laws.antt =====
-- src/network/http_client.cpp: the counter of requests.
use crypto_shloma.Prelude.{
  ℕ, ◌+◌, ◌%◌, ◌^◌, ◌<◌, ◌==◌, Bool, not, List, [], ◌∷◌, ◌≡◌, arith, if◌then◌else◌,
}
use crypto_shloma.Network.WebClient.{
  WebClient, Event, requests, ticks, closes, inc_request_count, request, timer_event, handle,
  handle_all,
}

-- The requests since the last tick of the timer, without a bound; `n` counts those before.
unfoldable pub requests_since : ℕ → ℕ → List Event → ℕ
requests_since id n [] = n
requests_since id n (e ∷ es) = elim e [
  | requests op ↦ requests_since id (n + 1) es
  | ticks t opened ↦ requests_since id (if t == id then 0 else n) es
  | closes ↦ requests_since id n es
]

handle_all-from :
    (es : List Event) (n : ℕ) (c : WebClient)
    → c.request_count ≡ n % 2 ^ 32
    → (handle_all es c).request_count ≡ requests_since c.timer_id n es % 2 ^ 32
unfolding handle_all requests_since handle request timer_event
handle_all-from [] n c h = h
handle_all-from (requests op ∷ es) n c h =
    handle_all-from es (n + 1) (inc_request_count c) (omega (arith, h))
handle_all-from (ticks t opened ∷ es) n c h =
    let o = if not c.session_is_open then opened else c.session_is_open in
    let d : WebClient = record c { request_count = 0; session_is_open = o } in
    elim (t == c.timer_id)
      as (λ b.
        (handle_all es (if b then d else c)).request_count
        ≡ requests_since c.timer_id (if b then 0 else n) es % 2 ^ 32) [
          | Bool.true ↦ handle_all-from es 0 d (omega arith)
          | Bool.false ↦ handle_all-from es n c h
        ]
handle_all-from (closes ∷ es) n c h =
    handle_all-from es n (record c { session_is_open = Bool.false }) h

-- If the counter of an HTTP client is below 2 ^ 32, then after any requests and ticks it is so, and
-- is the number of requests since the last tick of its timer, sent or not, modulo 2 ^ 32.
pub handle_all-counts :
    (es : List Event) (c : WebClient)
    → c.request_count < 2 ^ 32
    → ((handle_all es c).request_count ≡ requests_since c.timer_id c.request_count es % 2 ^ 32)
      × ((handle_all es c).request_count < 2 ^ 32)
handle_all-counts es c h =
    let e = handle_all-from es c.request_count c (omega (arith, h)) in (e, omega (arith, e))
