-- ===== src/Api/Binance/Calls/Steps.antt =====
-- src/api/binance_api.cpp: what all calls have in common. A property of the state and one of the
-- effects go through every call if they go through its parts.
use crypto_shloma.Prelude.{
  subst, ℕ, ℤ, String, Bool, true, false, List, [], ◌∷◌, ◌++◌, ◌≡◌, refl, All, if◌then◌else◌, sym,
}
use crypto_shloma.Qt.{Qt}
use crypto_shloma.Api.Signals.{Signal}
use crypto_shloma.Api.TemporaryOrders.{Table}
use crypto_shloma.Api.TemporaryOrders.Laws as Temporary
use crypto_shloma.Api.Binance.EndPoints.{BinanceUrl}
use crypto_shloma.Api.Binance.Session.{
  ◌>>◌, Verb, Request, Effect, Reply, Env, BinanceApi, Call, nothing, does, send, set_online,
  set_offline, processing_reply, get_data, signed_request, plain_request,
}
use crypto_shloma.Api.Binance.Receive.{report, with_table}

module _ ⦃q : Qt⦄ where
  abbrev pub is_sent : Effect → Bool
  is_sent (Effect.sends r) = true
  is_sent _ = false

  -- What a property of states and one of effects must satisfy to go through the parts of all calls.
  pub record IsStable (I : BinanceApi → Type 0) (E : Effect → Type 0) : Type 0 where
    pub silent : (e : Effect) → is_sent e ≡ false → E e
    pub sent : (r : Request) (a : BinanceApi) → I a → All E (send r a).1
    pub online : (b : Bool) (a : BinanceApi) → I a → I (record a { is_online = b })
    pub token : (s : String) (a : BinanceApi) → I a → I (record a { user_token = s })
    pub ping_timer : (n : ℕ) (a : BinanceApi) → I a → I (record a { ping_timer_id = n })
    pub key_timer : (n : ℕ) (a : BinanceApi) → I a → I (record a { put_key_timer_id = n })
    pub offset : (i : ℤ) (a : BinanceApi) → I a → I (record a { server_time_offset = i })
    pub blocked : (a : BinanceApi) → I a → I (record a { requests_is_block = true })
    pub table :
        (c : Temporary.Call) (a : BinanceApi)
        → I a
        → I (record a { temp_orders = Temporary.step a.temp_orders c })

  module _ (I : BinanceApi → Type 0) (E : Effect → Type 0) where
    -- A result that has both properties.
    unfoldable pub Good : BinanceApi × List Effect → Type 0
    Good x = All E x.1 × I x.0

    -- A call that keeps the property of states and has effects of the other kind only.
    unfoldable pub Keeps : Call → Type 0
    Keeps f = (a : BinanceApi) → I a → Good (f a)

    pub All-append : (xs ys : List Effect) → All E xs → All E ys → All E (xs ++ ys)
    All-append [] ys h k = k
    All-append (x ∷ xs) ys h k = (h.0, All-append xs ys h.1 k)

    -- A list of such effects.
    unfoldable pub Silent : List Effect → Type 0
    Silent es = All E es

    pub Silent-append : (xs ys : List Effect) → Silent xs → Silent ys → Silent (xs ++ ys)
    unfolding Silent
    Silent-append xs ys h k = All-append xs ys h k

    pub Silent-if :
        (b : Bool) (xs ys : List Effect) → Silent xs → Silent ys → Silent (if b then xs else ys)
    Silent-if true xs ys h k = h
    Silent-if false xs ys h k = k

    pub Silent-empty : Silent []
    unfolding Silent
    Silent-empty = tt

    pub Good-if :
        (b : Bool) (x y : BinanceApi × List Effect) → Good x → Good y → Good (if b then x else y)
    Good-if true x y h k = h
    Good-if false x y h k = k

    pub Good-pair : (a : BinanceApi) (es : List Effect) → Silent es → I a → Good (a, es)
    unfolding Good Silent
    Good-pair a es h i = (h, i)

    pub Keeps-if : (b : Bool) (f g : Call) → Keeps f → Keeps g → Keeps (if b then f else g)
    Keeps-if true f g h k = h
    Keeps-if false f g h k = k

    pub Keeps-then : (f g : Call) → Keeps f → Keeps g → Keeps (f >> g)
    unfolding Keeps Good ◌>>◌
    Keeps-then f g h k a i =
        let (effects, state) = h a i in
        let (later, end) = k (f a).0 state in (All-append (f a).1 _ effects later, end)

    pub Keeps-nothing : Keeps nothing
    unfolding Keeps Good nothing
    Keeps-nothing a i = (tt, i)

    pub Keeps-does : (es : List Effect) → Silent es → Keeps (does es)
    unfolding Keeps Good does Silent
    Keeps-does es h a i = (h, i)

    pub Keeps-same : Keeps (with_table (λ t. t))
    unfolding Keeps Good with_table
    Keeps-same a i = (tt, i)

    module _ (st : IsStable I E) where
      pub Silent-cons :
          (e : Effect) (es : List Effect) → is_sent e ≡ false → Silent es → Silent (e ∷ es)
      unfolding Silent
      Silent-cons e es h k = (st.silent e h, k)

      pub Silent-report :
          (A : Type 0) (signal : List A → Signal) (l : List A) → Silent (report signal l)
      unfolding Silent report
      Silent-report A signal [] = tt
      Silent-report A signal (x ∷ xs) = (st.silent _ refl, tt)

      pub Keeps-send : (r : Request) → Keeps (send r)
      unfolding Keeps Good send
      Keeps-send r a i = (st.sent r a i, i)

      pub Keeps-table :
          (f : Table → Table)
          → ((t : Table) → (c : Temporary.Call) × (f t ≡ Temporary.step t c))
          → Keeps (with_table f)
      unfolding Keeps Good with_table
      Keeps-table f h a i =
          let (c, e) = h a.temp_orders in
          (tt, subst (λ t. I (record a { temp_orders = t })) (sym e) (st.table c a i))

      pub Keeps-set_online : Keeps set_online
      unfolding Keeps set_online
      Keeps-set_online a i =
          Good-if _ _ _ (Good-pair _ _ Silent-empty i)
            (Good-pair _ _ (Silent-cons _ _ refl Silent-empty) (st.online true a i))

      pub Keeps-set_offline : Keeps set_offline
      unfolding Keeps set_offline
      Keeps-set_offline a i =
          Good-if _ _ _ (Good-pair _ _ (Silent-cons _ _ refl Silent-empty) (st.online false a i))
            (Good-pair _ _ Silent-empty i)

      pub Keeps-processing_reply : (r : Reply) → Keeps (processing_reply r)
      unfolding processing_reply
      Keeps-processing_reply Reply.missing = Keeps-nothing
      Keeps-processing_reply Reply.failed = Keeps-nothing
      Keeps-processing_reply (Reply.finished d) = Keeps-set_online

      pub Keeps-get_data : (env : Env) (r : Reply) → Keeps (get_data env r)
      unfolding get_data
      Keeps-get_data env r = Keeps-if _ _ _ Keeps-nothing (Keeps-processing_reply r)

      pub Keeps-signed_request :
          (v : Verb) (env : Env) (url : BinanceUrl) (params : String)
          → Keeps (signed_request v env url params)
      unfolding Keeps signed_request
      Keeps-signed_request v env url params a i = Keeps-send _ a i

      pub Keeps-plain_request : (url : BinanceUrl) → Keeps (plain_request url)
      unfolding plain_request
      Keeps-plain_request url = Keeps-send _

      pub ruleset keeps = (
        Silent-append, Silent-if, Silent-empty, Silent-cons, Silent-report, Good-if, Good-pair,
        Keeps-if, Keeps-then, Keeps-nothing, Keeps-does, Keeps-send, Keeps-set_online,
        Keeps-set_offline, Keeps-processing_reply, Keeps-get_data, Keeps-signed_request,
        Keeps-plain_request,
      )
