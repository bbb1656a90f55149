-- ===== src/Tests/Feed.antt =====
-- generator.py and distributions.py: one symbol's task over a few rounds.
use tqtk_price_streaming.Records.Floats as Floats
use tqtk_price_streaming.Feed.Generator.Ends.{Enough, run_symbol_ends}
use tqtk_price_streaming.Feed.Generator.{
  pending, step, wants_more, after_tick, next_tick, after_pause, finite_draw, lift_decimal,
  lift_sampling, lift_validated, monotonic, next_interval, pause, quote_fields, next_spread,
  next_bid, SymbolCalibration, RandomWalk, Round, Task, finished, provider, next_quote, run_symbol,
}
use tqtk_price_streaming.Feed.Decimal.{
  leb_ℤ, add_ℤ, excess, gap, half_even, magnitude, rescaled, scale_up, with_sign_of, lt, max, lower,
  at_exponent, fix, add, quantize, Decimal,
}
use tqtk_price_streaming.Feed.Distributions.{
  family_name, sample_constant, sample_normal, sampler, family_of, Distribution, sample,
}
use tqtk_price_streaming.Prelude.Dict.{get, put}
use tqtk_price_streaming.Records.Fields.{
  epoch_micros, is_price, is_size, name_field, optional_name, optional_size, price, seq_field,
}
use tqtk_price_streaming.Records.Tick.{check_quote, construct, Tick}
use tqtk_price_streaming.Records.Timeframe.{from_value}
use tqtk_price_streaming.Session.{assign, counter, next_seq, Stream, start}
use tqtk_price_streaming.Prelude.{
  ◌≢◌, ◌≤◌, inl, ℕ, ◌≡◌, refl, true, false, some, List, [], ◌∷◌, map, length, range_from, ok,
  list_beq, pair_beq, pair_eq, arith,
}
use tqtk_price_streaming.Prelude.Text.{Str, lit, str_eq}
use tqtk_price_streaming.Prelude.Int.{pos, negsuc}
use tqtk_price_streaming.Fixtures.{floats, draws, conversion}
use tqtk_price_streaming.Session.Gapless.{current, count_of}
use tqtk_price_streaming.Feed.Generator.Quotes.{IsUnit, IsQuote, next_quote-IsQuote}
use tqtk_price_streaming.Feed.Generator.Published.{
  OnStream, Alone, Fits, run_symbol-OnStream, run_symbol-gapless,
}

abbrev normal : Distribution ℕ
normal = record { family = lit "normal"; params = 0 ∷ 1 ∷ [] }

abbrev calibration : SymbolCalibration ℕ
calibration = record {
  initial_price = record { coefficient = pos 110000; exponent = negsuc 4 };
  price_increment = record { coefficient = pos 1; exponent = negsuc 4 };
  return_distribution = normal;
  spread_distribution = normal;
  interval_distribution = record { family = lit "constant"; params = 1 ∷ [] };
}

abbrev walk : RandomWalk floats draws conversion
walk = record {
  calibration = calibration;
  state = 0;
  bid = record { coefficient = pos 110000; exponent = negsuc 4 };
  pacing_multiplier = 1;
}

abbrev task : Task floats draws conversion
task = record { walk = walk; session = start (lit "a1"); last_recv_ts = 0; published = 0 }

abbrev gbpusd : Stream
gbpusd = (lit "synthetic", lit "GBPUSD")

-- The clock steps back in the second round.
abbrev rounds : List Round
rounds =
    record { stop = false; others = gbpusd ∷ []; clock = 100; delivered = true }
    ∷ record { stop = false; others = gbpusd ∷ gbpusd ∷ []; clock = 90; delivered = true }
    ∷ record { stop = false; others = []; clock = 120; delivered = true }
    ∷ []

abbrev symbol : Str
symbol = lit "EURUSD"

program : Unit {0}
unfolding run_symbol step wants_more after_tick next_tick next_quote sample family_of list_beq
    sampler next_bid quantize leb_ℤ add fix at_exponent lower next_spread add_ℤ excess gap half_even
    lt magnitude max rescaled scale_up with_sign_of family_name sample_constant sample_normal
    after_pause finite_draw lift_decimal lift_sampling lift_validated monotonic next_interval pause
    quote_fields get put pair_beq epoch_micros is_price is_size name_field optional_name
    optional_size price seq_field check_quote construct from_value assign counter next_seq
program = tt

published :
    map {B = ℕ × ℕ}
      (λ (k : Tick ℕ). (k.seq, k.recv_ts))
      (run_symbol floats draws conversion symbol (some 2) rounds task).0
    ≡ (0, 100) ∷ (1, 100) ∷ []
unfolding program start Floats.max
published = refl

ending : (run_symbol floats draws conversion symbol (some 2) rounds task).1 ≡ finished
unfolding program start Floats.max
ending = refl

alone : Alone (provider, symbol) rounds
unfolding count_of list_beq pair_beq
alone = (refl, (refl, (refl, tt)))

run_symbol-OnStream_example :
    OnStream floats draws conversion symbol task.session.session_id 0
      (run_symbol floats draws conversion symbol (some 2) rounds task).0
run_symbol-OnStream_example =
    run_symbol-OnStream floats draws conversion symbol (some 2) rounds task

run_symbol-gapless_example :
    map (λ (k : Tick ℕ). k.seq) (run_symbol floats draws conversion symbol (some 2) rounds task).0
    ≡ range_from
        (current (provider, symbol) task.session)
        (length (run_symbol floats draws conversion symbol (some 2) rounds task).0)
run_symbol-gapless_example =
    run_symbol-gapless floats draws conversion symbol (some 2) rounds task alone

below : Fits (some 2) 0 0
below = omega arith

unit : IsUnit calibration.price_increment
unfolding leb_ℤ
unit = record { one = refl; fine = refl }

abbrev moved : RandomWalk floats draws conversion
moved = record walk { state = 2 }

abbrev ask : Decimal
ask = record { coefficient = pos 210000; exponent = negsuc 4 }

quoted : next_quote floats draws conversion walk ≡ ok (moved, walk.bid, ask)
unfolding next_quote sample family_of list_beq sampler next_bid quantize leb_ℤ add fix at_exponent
    lower next_spread max lt
quoted = refl

next_quote-IsQuote_example :
    IsQuote calibration.price_increment walk.bid ask
    × (moved.bid ≡ walk.bid)
    × (moved.calibration ≡ walk.calibration)
next_quote-IsQuote_example = next_quote-IsQuote floats draws conversion walk unit quoted

enough : Enough (some 2) task.published rounds
enough = inl (2, refl, omega arith, omega arith)

run_symbol_ends_example :
    (run_symbol floats draws conversion symbol (some 2) rounds task).1 ≢ pending
run_symbol_ends_example = run_symbol_ends floats draws conversion symbol (some 2) rounds task enough

none_yet : task.published ≤ 2
none_yet = omega arith
