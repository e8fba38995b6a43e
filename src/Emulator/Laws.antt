-- ===== src/Emulator/Laws.antt =====
-- src/emulator.cpp and src/api/i_exchange_api.cpp: test data, and emulated orders up to the storages.
use crypto_shloma.Prelude.{
  ap, ℕ, String, Bool, true, false, not, ◌||◌, List, [], ◌∷◌, Option, none, some, ◌≡◌, refl, ◌∙◌,
  arith, ◌==◌, length, find, str_eq, eq_refl, eq_iff, if◌then◌else◌,
}
use crypto_shloma.Qt.{Qt}
use crypto_shloma.Base.Order.{OrderType}
use crypto_shloma.Base.Balance as Balance
use crypto_shloma.Base.Balance.{Balance}
use crypto_shloma.Base.Currency.{Currency}
use crypto_shloma.Api.Entry.{OrderEntry, BalanceEntry}
use crypto_shloma.Api.Hub.{Hub, emit_all, return_to_loop}
use crypto_shloma.Storage.Keyed.{lookup, merged}
use crypto_shloma.Storage.Markets.{find_currency_by_id}
use crypto_shloma.Storage.Balances as Balances
use crypto_shloma.Storage.Balances.Lookups as BalanceLookups
use crypto_shloma.Emulator.{
  line_orders, is_invalid_line, append_lines, read_lines, coin_of, base_coin_of, summed,
  submit_order, submitted_balances, submitted_order, held_of, available_or,
}

module _ ⦃q : Qt⦄ where
  open q use {QDateTime, Qreal, split, literal, add, sub}

  abbrev pub fields : String → ℕ
  fields line = length (split line ",")

  abbrev pub is_whole : String → Bool
  is_whole line = fields line == 4

  abbrev pub lacks_fields : Option String → Bool
  lacks_fields none = false
  lacks_fields (some line) = fields line == 2 || fields line == 3

  abbrev pub is_none : {A : Type 0} → Option A → Bool
  is_none none = true
  is_none (some x) = false

  round_lem :
      (id : String) (data' : List String) (rest : Option (List OrderEntry))
      → is_none
          (if is_invalid_line data' then some [] else append_lines (line_orders id data') rest)
        ≡ (if length data' == 4 then is_none rest else length data' == 2 || length data' == 3)
  unfolding line_orders
  round_lem id [] rest = refl
  round_lem id (a ∷ []) rest = refl
  round_lem id (a ∷ b ∷ []) rest = refl
  round_lem id (a ∷ b ∷ c ∷ []) rest = refl
  round_lem id (a ∷ b ∷ c ∷ d ∷ []) none = refl
  round_lem id (a ∷ b ∷ c ∷ d ∷ []) (some os) = refl
  round_lem id (a ∷ b ∷ c ∷ d ∷ e ∷ f) rest = ground arith

  -- Reading the lines of a file of test data goes out of range exactly if the first line that does
  -- not have four fields has two or three.
  pub read_lines_lem :
      (id : String) (lines : List String)
      → is_none (read_lines id lines) ≡ lacks_fields (find (λ line. not (is_whole line)) lines)
  unfolding read_lines find
  read_lines_lem id [] = refl
  read_lines_lem id (line ∷ lines) =
      round_lem id (split line ",") (read_lines id lines) ∙ ground (arith, read_lines_lem id lines)

  -- The hub after an emulated order and the return to the event loop.
  abbrev pub emulated : QDateTime → String → ℕ → OrderType → Qreal → Qreal → Qreal → Hub → Hub
  emulated now id order_id side price base_volume volume h =
      return_to_loop (
        emit_all (submit_order now id order_id side price base_volume volume h.storages.balances) h)

  abbrev pub balance : String → Hub → Option Balance
  balance coin h = Balances.find h.storages.balances coin

  -- What the stored balances make of the report of an emulated order.
  submitted_lem :
      (now : QDateTime) (id : String) (order_id : ℕ) (side : OrderType)
      (price base_volume volume : Qreal) (h : Hub)
      → h.queue ≡ []
      → (emulated now id order_id side price base_volume volume h).storages.balances
        ≡ Balances.merge h.storages.markets
            (submitted_balances now id side base_volume volume h.storages.balances)
            h.storages.balances
  unfolding return_to_loop emit_all submit_order submitted_order
  submitted_lem now id order_id OrderType.buy price base_volume volume h e = rw e refl
  submitted_lem now id order_id OrderType.sell price base_volume volume h e = rw e refl
  submitted_lem now id order_id OrderType.no_type price base_volume volume h e = rw e refl

  -- A balance that takes a report.
  abbrev pub taken : BalanceEntry → Balance → Balance
  taken e b = (Balance.set_config e.params b).0

  str_eq-sym : (s t : String) → str_eq s t ≡ false → str_eq t s ≡ false
  str_eq-sym s t h = ground (arith, eq_iff s t, eq_iff t s)

  module _ (now : QDateTime) (id : String) (order_id : ℕ) (price base_volume volume : Qreal)
      (h : Hub) (e : h.queue ≡ []) (differ : str_eq (base_coin_of id) (coin_of id) ≡ false) where
    abbrev bought : Hub
    bought = emulated now id order_id OrderType.buy price base_volume volume h

    abbrev report_of : String → (Qreal → Qreal) → Qreal → Option Balance → BalanceEntry
    report_of coin f x old = summed now coin (held_of old) (available_or f x old)

    coin_bought :
        balance (coin_of id) bought
        ≡ merged Balances.update_balance
            (Balances.make_balance h.storages.markets)
            (report_of (coin_of id) (λ x. add x volume) volume (balance (coin_of id) h))
            (balance (coin_of id) h)
    unfolding submitted_balances lookup
    coin_bought =
        ap (λ s. Balances.find s (coin_of id))
          (submitted_lem now id order_id OrderType.buy price base_volume volume h e)
        ∙ BalanceLookups.find-merge h.storages.markets _ h.storages.balances (coin_of id)
            (rw differ refl, (refl, tt))
        ∙ rw (eq_refl (coin_of id)) refl

    base_spent :
        balance (base_coin_of id) bought
        ≡ merged Balances.update_balance
            (Balances.make_balance h.storages.markets)
            (report_of
              (base_coin_of id)
              (λ x. sub x base_volume)
              base_volume
              (balance (base_coin_of id) h))
            (balance (base_coin_of id) h)
    unfolding submitted_balances lookup
    base_spent =
        ap (λ s. Balances.find s (base_coin_of id))
          (submitted_lem now id order_id OrderType.buy price base_volume volume h e)
        ∙ BalanceLookups.find-merge h.storages.markets _ h.storages.balances (base_coin_of id)
            (rw differ refl, (refl, tt))
        ∙ rw (str_eq-sym _ _ differ, eq_refl (base_coin_of id)) refl

    -- The coin and the base coin that the emulator takes for a market are named by the first three
    -- characters of its id and by the next three. If no report waits, and these two coins differ
    -- and have stored balances that are not newer, then after an emulated purchase and the return
    -- to the event loop the coin has taken a report of its held part and what was available plus
    -- the volume, and the base coin one of its held part and what was available less the base
    -- volume.
    pub emulated_purchase_lem :
        (b b' : Balance)
        → balance (coin_of id) h ≡ some b
        → balance (base_coin_of id) h ≡ some b'
        → q.date_le b.config.timestamp now ≡ true
        → q.date_le b'.config.timestamp now ≡ true
        → (balance (coin_of id) bought
            ≡ some (
                taken
                  (summed now (coin_of id) b.config.held_for_trades (add b.config.available volume))
                  b))
          × (balance (base_coin_of id) bought
              ≡ some (
                  taken
                    (summed now
                      (base_coin_of id)
                      b'.config.held_for_trades
                      (sub b'.config.available base_volume))
                    b'))
    emulated_purchase_lem b b' f f' d d' =
        (rw (coin_bought, f, d) refl, rw (base_spent, f', d') refl)

    -- The coin and the base coin that the emulator takes for a market are named by the first three
    -- characters of its id and by the next three. If no report waits, these two coins differ, and
    -- the base coin is known but has no balance, then an emulated purchase gives it a new balance
    -- with the base volume available.
    pub purchase_without_base :
        (c : Currency)
        → balance (base_coin_of id) h ≡ none
        → find_currency_by_id h.storages.markets (base_coin_of id) ≡ some c
        → balance (base_coin_of id) bought
          ≡ some (
              Balance.set_currency
                (some c.config.id)
                (Balance.create (summed now (base_coin_of id) (literal 0 0) base_volume).params))
    unfolding Balances.make_balance
    purchase_without_base c f g = rw (base_spent, f, g) refl
