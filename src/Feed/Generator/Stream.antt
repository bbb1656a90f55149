-- ===== src/Feed/Generator/Stream.antt =====
-- One round of a symbol's task: the tick that it publishes, against the state before and after.
use tqtk_price_streaming.Prelude.{
  ℕ, ◌+◌, ◌≤◌, ◌≡◌, ap, ◌∙◌, Bool, true, false, Option, Result, ok, err, >>=-eq-ok, Bool-cases, inl,
  guard, inr, pair_eq, arith,
}
use tqtk_price_streaming.Prelude.Text.{Str, str_eq}
use tqtk_price_streaming.Records.Floats.{Floats}
use tqtk_price_streaming.Records.Tick
use tqtk_price_streaming.Records.Tick.{Tick, RawTick}
use tqtk_price_streaming.Records.Tick.Valid.{
  IsValid, tick_construct-IsValid, construct-fields, raw_of,
}
use tqtk_price_streaming.Session
use tqtk_price_streaming.Session.{FeedSession, next_seq, assign}
use tqtk_price_streaming.Session.Gapless.{
  current, count_of, next_seq-current, current-next_seq_self, next_seq-session_id, assign-current,
  assign-session_id,
}
use tqtk_price_streaming.Feed.Distributions.{Random}
use tqtk_price_streaming.Feed.Generator.{
  FeedError, Conversion, Round, Task, goes, provider, monotonic, quote_fields, lift_validated,
  next_tick, wants_more, pause, after_pause, after_tick, step, next_quote, next_interval, nan_wait,
}

module _ (fl : Floats) (rng : Random fl) (conv : Conversion fl) where
  -- How a published tick follows the state of its task.
  pub record Follows (symbol : Str) (r : Round) (t t' : Task fl rng conv) (tick : Tick fl.Float)
      : Type 0 where
    pub valid : IsValid fl tick
    pub provider_eq : tick.provider ≡ provider
    pub symbol_eq : tick.symbol ≡ symbol
    pub session_id : tick.session_id ≡ t.session.session_id
    pub numbered :
        tick.seq ≡ current (provider, symbol) t.session + count_of (provider, symbol) r.others
    pub counted : current (provider, symbol) t'.session ≡ tick.seq + 1
    pub same_session : t'.session.session_id ≡ t.session.session_id
    pub not_earlier : t.last_recv_ts ≤ tick.recv_ts
    pub after_clock : r.clock ≤ tick.recv_ts
    pub remembered : t'.last_recv_ts ≡ tick.recv_ts
    pub counted_published : t'.published ≡ t.published + 1

  monotonic_lem : (clock last : ℕ) → (clock ≤ monotonic clock last) × (last ≤ monotonic clock last)
  unfolding monotonic
  monotonic_lem clock last = ground arith

  lift_validated-ok :
      (raw : RawTick fl.Float) {tick : Tick fl.Float}
      → lift_validated fl rng conv (Tick.construct fl raw) ≡ ok tick
      → Tick.construct fl raw ≡ ok tick
  unfolding lift_validated
  lift_validated-ok raw h = ground arith

  pub next_tick-Follows :
      (symbol : Str) (r : Round) (t : Task fl rng conv) {t' : Task fl rng conv}
      {tick : Tick fl.Float}
      → next_tick fl rng conv symbol r t ≡ ok (t', tick)
      → Follows symbol r t t' tick
  unfolding next_tick quote_fields
  next_tick-Follows symbol r t {t' = t'} {tick = tick} h =
      let session : FeedSession = (assign r.others t.session).1 in
      let own : Session.Stream = (provider, symbol) in
      let recv_ts = monotonic r.clock t.last_recv_ts in
      let numbered = next_seq provider symbol session in
      let (quote, _, h1) = >>=-eq-ok (next_quote fl rng conv t.walk) _ h in
      let raw =
        quote_fields fl rng conv symbol session.session_id recv_ts numbered.1 quote.1 quote.2 in
      let (made, built, h2) = >>=-eq-ok (lift_validated fl rng conv (Tick.construct fl raw)) _ h1 in
      let same_tick : made ≡ tick = ground (arith, h2) in
      let constructed : Tick.construct fl raw ≡ ok tick =
        lift_validated-ok raw (built ∙ ap ok same_tick) in
      let fields : raw ≡ raw_of tick = construct-fields fl raw constructed in
      let sessions : t'.session ≡ numbered.0 = ground (arith, h2) in
      let seqs : tick.seq ≡ numbered.1 = ground (arith, fields) in
      let times : tick.recv_ts ≡ recv_ts = ground (arith, fields) in
      let given = assign-current r.others t.session own in
      let identity = assign-session_id r.others t.session in
      record {
        valid = tick_construct-IsValid fl raw constructed;
        provider_eq = ground (arith, fields);
        symbol_eq = ground (arith, fields);
        session_id = ground (arith, fields, identity);
        numbered = cc (seqs, next_seq-current own session, given);
        counted =
            cc (sessions, seqs, next_seq-current own session, current-next_seq_self own session);
        same_session = cc (sessions, identity, next_seq-session_id own session);
        not_earlier = omega (arith, times, monotonic_lem r.clock t.last_recv_ts);
        after_clock = omega (arith, times, monotonic_lem r.clock t.last_recv_ts);
        remembered = ground (arith, h2, times);
        counted_published = ground (arith, h2);
      }

  pause-keeps :
      (max_ticks : Option ℕ) (t : Task fl rng conv) {t' : Task fl rng conv}
      → pause fl rng conv max_ticks t ≡ ok t'
      → (t'.session ≡ t.session) × (t'.last_recv_ts ≡ t.last_recv_ts) × (t'.published ≡ t.published)
  unfolding pause
  pause-keeps max_ticks t {t' = t'} h = elim (Bool-cases (wants_more max_ticks t.published)) [
    | inl more ↦
        let woken = rw more at h in
        let (drawn, _, e') = >>=-eq-ok (next_interval fl rng conv t.walk) _ woken in
        let (_, _, e) = >>=-eq-ok (guard (fl.le drawn.1 drawn.1) nan_wait) _ e' in
        (ground (arith, e), ground (arith, e), ground (arith, e))
    | inr last ↦
        let done = rw last at h in
        (ground (arith, done), ground (arith, done), ground (arith, done))
  ]

  Follows-pause :
      (symbol : Str) (r : Round) (t t' : Task fl rng conv) {t'' : Task fl rng conv}
      (tick : Tick fl.Float)
      → Follows symbol r t t' tick
      → (t''.session ≡ t'.session)
        × (t''.last_recv_ts ≡ t'.last_recv_ts)
        × (t''.published ≡ t'.published)
      → Follows symbol r t t'' tick
  Follows-pause symbol r t t' tick f (a, b, c) = record {
    valid = f.valid;
    provider_eq = f.provider_eq;
    symbol_eq = f.symbol_eq;
    session_id = f.session_id;
    numbered = f.numbered;
    counted = cc (a, f.counted);
    same_session = cc (a, f.same_session);
    not_earlier = f.not_earlier;
    after_clock = f.after_clock;
    remembered = cc (b, f.remembered);
    counted_published = cc (c, f.counted_published);
  }

  after_pause-goes :
      (made tick : Tick fl.Float) (woken : Result FeedError (Task fl rng conv))
      {t : Task fl rng conv}
      → after_pause fl rng conv made woken ≡ goes tick t
      → (made ≡ tick) × (woken ≡ ok t)
  unfolding after_pause
  after_pause-goes made tick (ok t') h = (cc, cc)
  after_pause-goes made tick (err e) h = cc

  after_tick-goes :
      (max_ticks : Option ℕ) (delivered : Bool)
      (made : Result FeedError (Task fl rng conv × Tick fl.Float)) {t : Task fl rng conv}
      {tick : Tick fl.Float}
      → after_tick fl rng conv max_ticks delivered made ≡ goes tick t
      → (t' : Task fl rng conv) × (made ≡ ok (t', tick)) × (pause fl rng conv max_ticks t' ≡ ok t)
  unfolding after_tick
  after_tick-goes max_ticks delivered (err e) h = cc
  after_tick-goes max_ticks false (ok m) h = cc
  after_tick-goes max_ticks true (ok (t', made)) {tick = tick} h =
      let (same, woken) = after_pause-goes made tick (pause fl rng conv max_ticks t') h in
      (t', ap (λ (k : Tick fl.Float). ok (t', k)) same, woken)

  -- A task that goes on has published a tick that follows its state, and only waited since.
  pub step-goes :
      (symbol : Str) (max_ticks : Option ℕ) (r : Round) (t : Task fl rng conv)
      {t'' : Task fl rng conv} {tick : Tick fl.Float}
      → step fl rng conv symbol max_ticks r t ≡ goes tick t''
      → Follows symbol r t t'' tick × (wants_more max_ticks t.published ≡ true)
  unfolding step next_tick
  step-goes symbol max_ticks r t {t'' = t''} {tick = tick} h = elim (Bool-cases r.stop) [
    | inl e ↦ absurd (ground arith)
    | inr e ↦ elim (Bool-cases (wants_more max_ticks t.published)) [
      | inl more ↦
          let reached = rw (e, more) at h in
          let (t', made, woken) =
            after_tick-goes max_ticks r.delivered (next_tick fl rng conv symbol r t) reached in
          (
            Follows-pause symbol r t t' tick (next_tick-Follows symbol r t made)
                (pause-keeps max_ticks t' woken),
            more,
          )
      | inr done ↦ absurd (ground arith)
    ]
  ]
