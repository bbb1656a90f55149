-- ===== src/Tests/Delivery.antt =====
-- delivery.py: one stream over a lost record, a redelivery and a restart.
use tqtk_price_streaming.Prelude.{
  ℕ, ◌≡◌, refl, ◌+◌, none, some, List, [], ◌∷◌, ◌++◌, All, list_beq, pair_beq, pair_eq,
}
use tqtk_price_streaming.Prelude.Text.{Str, lit, str_eq}
use tqtk_price_streaming.Prelude.Dict.{get, put}
use tqtk_price_streaming.Session.{Stream, start, assign, next_seq, counter}
use tqtk_price_streaming.Session.Gapless.{current}
use tqtk_price_streaming.Records.Tick.{Tick}
use tqtk_price_streaming.Delivery.{
  Delivery, DeliveryTracker, fresh, observe, observe_all, duplicate,
}
use tqtk_price_streaming.Delivery.Marks.{mark_of}
use tqtk_price_streaming.Delivery.Loss.{InSession, missing_on, handled_on, passed_seqs}
use tqtk_price_streaming.Delivery.Redelivery.{redelivered}
use tqtk_price_streaming.Delivery.EndToEnd.{IsQuiet, Carries, Synced, no_alarm}

abbrev eurusd : Stream
eurusd = (lit "synthetic", lit "EURUSD")

abbrev quote : Str → ℕ → Tick ℕ
quote session_id seq = record {
  provider = lit "synthetic";
  symbol = lit "EURUSD";
  provider_symbol = none;
  provider_ts = 10;
  recv_ts = 10;
  bid = 109;
  ask = 110;
  bid_size = none;
  ask_size = none;
  session_id = session_id;
  seq = seq;
}

abbrev first_quote : Tick ℕ
first_quote = quote (lit "a1") 0

abbrev later_quotes : List (Tick ℕ)
later_quotes = quote (lit "a1") 3 ∷ quote (lit "a1") 3 ∷ quote (lit "a1") 4 ∷ []

-- The tracker after the first quote.
abbrev joined : DeliveryTracker
joined = record { seen = (eurusd, (lit "a1", 0)) ∷ [] }

verdicts :
    (observe_all (first_quote ∷ (later_quotes ++ (quote (lit "b2") 0 ∷ []))) fresh).1
    ≡ record { delivery = Delivery.first; missing = 0 }
      ∷ record { delivery = Delivery.gap; missing = 2 }
      ∷ record { delivery = Delivery.duplicate; missing = 0 }
      ∷ record { delivery = Delivery.in_order; missing = 0 }
      ∷ record { delivery = Delivery.session_change; missing = 0 }
      ∷ []
unfolding observe_all observe get put list_beq pair_beq
verdicts = refl

in_session : InSession eurusd (lit "a1") later_quotes
in_session = (λ _. refl, (λ _. refl, (λ _. refl, tt)))

joined_mark : mark_of eurusd joined ≡ some (lit "a1", 0)
unfolding mark_of get list_beq pair_beq
joined_mark = refl

passed_seqs_example :
    mark_of eurusd (observe_all later_quotes joined).0
    ≡ some (
      lit "a1",
      0
          + missing_on eurusd later_quotes (observe_all later_quotes joined).1
          + handled_on eurusd later_quotes (observe_all later_quotes joined).1,
    )
passed_seqs_example = passed_seqs eurusd (lit "a1") later_quotes joined 0 in_session joined_mark

redelivered_example :
    observe first_quote (observe_all ([] ++ (first_quote ∷ later_quotes)) fresh).0 ≡ (
      (observe_all ([] ++ (first_quote ∷ later_quotes)) fresh).0,
      record { delivery = duplicate; missing = 0 },
    )
redelivered_example = redelivered [] later_quotes first_quote fresh in_session

-- Two publications of a fresh session, read by a fresh tracker.
abbrev calls : List Stream
calls = eurusd ∷ eurusd ∷ []

abbrev published : List (Tick ℕ)
published = quote (lit "a1") 0 ∷ quote (lit "a1") 1 ∷ []

published-Carries : Carries (lit "a1") published (assign calls (start (lit "a1"))).0
unfolding assign next_seq start get put list_beq pair_beq
published-Carries = (refl, refl, refl, (refl, refl, refl, tt))

fresh-Synced : Synced (start (lit "a1")) fresh
unfolding current start mark_of get counter
fresh-Synced k = tt

no_alarm_example : All IsQuiet (observe_all published fresh).1
unfolding start
no_alarm_example = no_alarm calls (start (lit "a1")) published fresh published-Carries fresh-Synced
