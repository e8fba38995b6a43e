-- ===== src/Network/WebClient.antt =====
-- src/network/http_client.h and http_client.cpp: the client of HTTP requests and its counter. The slots
-- that only log or do nothing are left out.
pub mod Laws
use crypto_shloma.Prelude.{
  ℕ, ◌+◌, ◌%◌, ◌^◌, ◌==◌, String, Bool, not, List, [], ◌∷◌, ◌++◌, Option, none, some, if◌then◌else◌,
}

pub data Operation : Type 0 where
  head get post put delete_resource : Operation

-- `m_requestCount`, `m_GlobalRequestCountTimerId`, and whether `m_session` is open.
pub record WebClient : Type 0 where
  pub request_count : ℕ
  pub timer_id : ℕ
  pub session_is_open : Bool

-- `startTimer(60000)` gives the id, and the session is waited for.
abbrev pub new_client : ℕ → Bool → WebClient
new_client id opened = record { request_count = 0; timer_id = id; session_is_open = opened }

-- A counter of 32 bits.
abbrev pub inc_request_count : WebClient → WebClient
inc_request_count c = record c { request_count = (c.request_count + 1) % 2 ^ 32 }

-- `head`, `get`, `post`, `put` and `del`: the operation that goes to the network, or the null pointer.
unfoldable pub request : Operation → WebClient → WebClient × Option Operation
request op c = (inc_request_count c, if c.session_is_open then some op else none)

-- The tick of a timer; `opened` says whether opening the session succeeds.
unfoldable pub timer_event : ℕ → Bool → WebClient → WebClient
timer_event id opened c =
    if id == c.timer_id
    then record c {
      request_count = 0;
      session_is_open = if not c.session_is_open then opened else c.session_is_open;
    }
    else c

pub data Event : Type 0 where
  requests : Operation → Event
  ticks : ℕ → Bool → Event
  closes : Event

-- What happens to a client: requests, ticks, and the end of the session from outside.
unfoldable pub handle : Event → WebClient → WebClient
unfolding request timer_event
handle (requests op) c = (request op c).0
handle (ticks id opened) c = timer_event id opened c
handle closes c = record c { session_is_open = Bool.false }

unfoldable pub handle_all : List Event → WebClient → WebClient
unfolding handle
handle_all [] c = c
handle_all (e ∷ es) c = handle_all es (handle e c)
