-- ===== src/Feed/Generator.antt =====
-- services/feed-adapter-synthetic/src/feed_adapter_synthetic/generator.py, calibration.py and
-- sinks.py: one symbol's random walk and its publication loop. The clock's readings, the other
-- symbols' tasks and the shutdown signal come as a list of rounds. `Decimal(str(x))` and `float(d)`
-- are parameters; the first gives nothing for a float that is not finite, whose quantization or
-- comparison raises.
pub mod Quotes
pub mod Stream
pub mod Published
pub mod Ends
use tqtk_price_streaming.Prelude.{
  ℕ, suc, ◌+◌, Bool, true, false, Option, none, some, List, [], ◌∷◌, ltb, leb, Result, ok, err,
  ◌>>=◌, ◌>>◌, guard, if◌then◌else◌,
}
use tqtk_price_streaming.Prelude.Text.{Str, lit}
use tqtk_price_streaming.Prelude.Int.{ℤ, pos}
use tqtk_price_streaming.Records.Floats as Floats
use tqtk_price_streaming.Records.Floats.{Floats}
use tqtk_price_streaming.Records.Tick
use tqtk_price_streaming.Records.Fields.{Validated}
use tqtk_price_streaming.Records.Tick.{Tick}
use tqtk_price_streaming.Records.Wire.{Coercion, tick_to_dict, to_wire}
use tqtk_price_streaming.Session
use tqtk_price_streaming.Session.{FeedSession}
use tqtk_price_streaming.Names.{NameError, tick_stream}
use tqtk_price_streaming.Prelude.Dict.{Dict}
use tqtk_price_streaming.Feed.Distributions.{Random, SampleError, Distribution, sample}
use tqtk_price_streaming.Feed.Decimal
use tqtk_price_streaming.Feed.Decimal.{Decimal, DecimalError, invalid_operation, zero_decimal}

-- calibration.py
pub record SymbolCalibration (F : Type 0) : Type 0 where
  pub initial_price : Decimal
  pub price_increment : Decimal
  pub return_distribution : Distribution F
  pub spread_distribution : Distribution F
  pub interval_distribution : Distribution F

-- What ends a symbol's task.
pub data FeedError : Type 0 where
  sampling : SampleError → FeedError
  arithmetic : DecimalError → FeedError
  rejected : FeedError
  sink_failed : FeedError
  -- The division by the pacing multiplier, and a sleep of NaN seconds.
  pacing_raised : FeedError
  nan_wait : FeedError

-- Conversions between the float draws and prices.
pub record Conversion (fl : Floats) : Type 0 where
  pub decimal_of : fl.Float → Option Decimal
  pub float_of : Decimal → fl.Float

abbrev pub provider : Str
provider = lit "synthetic"

unfoldable pub lift_sampling {ℓ} : {A : Type ℓ} → Result SampleError A → Result FeedError A
lift_sampling (ok a) = ok a
lift_sampling (err e) = err (sampling e)

unfoldable pub lift_decimal : Result DecimalError Decimal → Result FeedError Decimal
lift_decimal (ok a) = ok a
lift_decimal (err e) = err (arithmetic e)

unfoldable pub finite_draw : Option Decimal → Result FeedError Decimal
finite_draw (some d) = ok d
finite_draw none = err (arithmetic invalid_operation)

module _ (fl : Floats) (rng : Random fl) (conv : Conversion fl) where
  pub record RandomWalk : Type 0 where
    pub calibration : SymbolCalibration fl.Float
    pub state : rng.State
    pub bid : Decimal
    pub pacing_multiplier : fl.Float

  -- _RandomWalk(calibration, pacing_multiplier=..., seed=...)
  unfoldable pub new_walk : SymbolCalibration fl.Float → fl.Float → rng.State → RandomWalk
  new_walk calibration pacing_multiplier seeded = record {
    calibration = calibration;
    state = seeded;
    bid = calibration.initial_price;
    pacing_multiplier = pacing_multiplier;
  }

  -- The bid after a drawn return, and the spread of a drawn spread.
  unfoldable pub next_bid : Decimal → Decimal → Decimal → Result FeedError Decimal
  unfolding lift_decimal
  next_bid bid drawn increment = do
    rounded ← lift_decimal (Decimal.quantize (Decimal.add bid drawn) increment)
    ok (Decimal.max rounded increment)

  unfoldable pub next_spread : Decimal → Decimal → Result FeedError Decimal
  unfolding lift_decimal
  next_spread drawn increment = do
    rounded ← lift_decimal (Decimal.quantize drawn increment)
    ok (Decimal.max rounded zero_decimal)

  unfoldable pub next_quote : RandomWalk → Result FeedError (RandomWalk × Decimal × Decimal)
  unfolding lift_sampling finite_draw
  next_quote w = do
    (drawn_return, s) ← lift_sampling (sample fl rng w.calibration.return_distribution w.state)
    step ← finite_draw (conv.decimal_of drawn_return)
    bid ← next_bid w.bid step w.calibration.price_increment
    (drawn_spread, s') ← lift_sampling (sample fl rng w.calibration.spread_distribution s)
    drawn ← finite_draw (conv.decimal_of drawn_spread)
    spread ← next_spread drawn w.calibration.price_increment
    ok (record w { state = s'; bid = bid }, bid, Decimal.add bid spread)

  unfoldable pub paced : Option fl.Float → Result FeedError fl.Float
  paced (some wait) = ok wait
  paced none = err pacing_raised

  -- The wait that is slept.
  unfoldable pub next_interval : RandomWalk → Result FeedError (RandomWalk × fl.Float)
  unfolding lift_sampling paced
  next_interval w = do
    (delta, s) ← lift_sampling (sample fl rng w.calibration.interval_distribution w.state)
    wait ← paced (rng.div (Floats.max fl delta fl.zero) w.pacing_multiplier)
    ok (record w { state = s }, wait)

-- What the rest of the process does between two publications of this task: whether `stop` is set
-- when the loop tests it, the `next_seq` calls of other tasks, the clock, and the sink.
pub record Round : Type 0 where
  pub stop : Bool
  pub others : List Session.Stream
  pub clock : ℕ
  pub delivered : Bool

pub data Ending : Type 0 where
  stopped : Ending
  finished : Ending
  failed : FeedError → Ending
  -- The rounds given are used up, and the task goes on.
  pending : Ending

-- `max(clock(), last_recv_ts)`
unfoldable pub monotonic : ℕ → ℕ → ℕ
monotonic clock last = if ltb clock last then last else clock

-- `max_ticks is None or published < max_ticks`
unfoldable pub wants_more : Option ℕ → ℕ → Bool
wants_more none published = true
wants_more (some n) published = ltb published n

module _ (fl : Floats) (rng : Random fl) (conv : Conversion fl) where
  -- The locals of `_run_symbol`, and the session that it shares.
  pub record Task : Type 0 where
    pub walk : RandomWalk fl rng conv
    pub session : FeedSession
    pub last_recv_ts : ℕ
    pub published : ℕ

  -- The arguments of `Tick(...)`.
  unfoldable pub quote_fields : Str → Str → ℕ → ℕ → Decimal → Decimal → Tick.RawTick fl.Float
  quote_fields symbol session_id recv_ts seq bid ask = record {
    provider = provider;
    symbol = symbol;
    provider_symbol = none;
    provider_ts = pos recv_ts;
    recv_ts = pos recv_ts;
    bid = conv.float_of bid;
    ask = conv.float_of ask;
    bid_size = none;
    ask_size = none;
    session_id = session_id;
    seq = pos seq;
  }

  unfoldable pub lift_validated : Validated (Tick fl.Float) → Result FeedError (Tick fl.Float)
  lift_validated (ok t) = ok t
  lift_validated (err _) = err rejected

  -- The body of the loop up to the call of the sink.
  unfoldable pub next_tick : Str → Round → Task → Result FeedError (Task × Tick fl.Float)
  next_tick symbol r t = do
    let session = (Session.assign r.others t.session).1
    (walk, bid, ask) ← next_quote fl rng conv t.walk
    let recv_ts = monotonic r.clock t.last_recv_ts
    let numbered = Session.next_seq provider symbol session
    tick ←
        lift_validated
          (Tick.construct fl (quote_fields symbol session.session_id recv_ts numbered.1 bid ask))
    ok (
      record {
        walk = walk;
        session = numbered.0;
        last_recv_ts = recv_ts;
        published = t.published + 1;
      },
      tick,
    )

  -- After the sink returned: the drawn wait, if another tick is to follow. `asyncio.sleep` raises
  -- for NaN, the float that is not at most itself.
  unfoldable pub pause : Option ℕ → Task → Result FeedError Task
  pause max_ticks t =
      if wants_more max_ticks t.published
      then (do
        (walk, wait) ← next_interval fl rng conv t.walk
        guard (fl.le wait wait) nan_wait
        ok (record t { walk = walk }))
      else ok t

  -- What one round publishes, and what becomes of the task.
  pub data Step : Type 0 where
    ends : List (Tick fl.Float) → Ending → Step
    goes : Tick fl.Float → Task → Step

  unfoldable pub after_pause : Tick fl.Float → Result FeedError Task → Step
  after_pause tick (ok t) = goes tick t
  after_pause tick (err e) = ends (tick ∷ []) (failed e)

  unfoldable pub after_tick : Option ℕ → Bool → Result FeedError (Task × Tick fl.Float) → Step
  after_tick max_ticks delivered (err e) = ends [] (failed e)
  after_tick max_ticks false (ok _) = ends [] (failed sink_failed)
  after_tick max_ticks true (ok (t, tick)) = after_pause tick (pause max_ticks t)

  unfoldable pub step : Str → Option ℕ → Round → Task → Step
  step symbol max_ticks r t =
      if r.stop
      then ends [] stopped
      else if wants_more max_ticks t.published
      then after_tick max_ticks r.delivered (next_tick symbol r t)
      else ends [] finished

  -- `_run_symbol`: the ticks that reached the sink, in order, and how the loop ended.
  unfoldable pub run_symbol : Str → Option ℕ → List Round → Task → List (Tick fl.Float) × Ending
  run_symbol symbol max_ticks [] t = ([], pending)
  run_symbol symbol max_ticks (r ∷ rounds) t = elim (step symbol max_ticks r t) [
    | ends ticks ending ↦ (ticks, ending)
    | goes tick t' ↦
        let (ticks, ending) = run_symbol symbol max_ticks rounds t' in (tick ∷ ticks, ending)
  ]

-- RedisTickSink.publish: the stream that the entry is added to, and its fields.
unfoldable pub publish :
    (fl : Floats) → Coercion fl → Tick fl.Float → Result NameError (Str × Dict Str Str)
publish fl co t = do
  stream ← tick_stream t.provider t.symbol
  ok (stream, to_wire fl co (tick_to_dict t))
