-- ===== src/Feed/Calibration/Ready.antt =====
-- calibration_store.py: what the checks establish of each calibration that `load` returns.
use tqtk_price_streaming.Prelude.{
  ◌≡◌, sym, subst, ap, ◌∙◌, true, some, List, [], ◌∷◌, All, ok, >>=-eq-ok, Bool-cases, inl, inr,
  ◌==◌, arith,
}
use tqtk_price_streaming.Prelude.Text.{Str, lit, str_eq, str_leb}
use tqtk_price_streaming.Prelude.Dict.{Dict, put}
use tqtk_price_streaming.Prelude.Sorting.{sorted, insert}
use tqtk_price_streaming.Prelude.Int.{pos}
use tqtk_price_streaming.Records.Floats.{Floats}
use tqtk_price_streaming.Feed.Decimal
use tqtk_price_streaming.Feed.Decimal.{
  Decimal, magnitude, zero_decimal, at_exponent, scale_up, with_sign_of, leb_ℤ, lower, gap,
}
use tqtk_price_streaming.Feed.Distributions.{family_of}
use tqtk_price_streaming.Feed.Generator.{Conversion, SymbolCalibration}
use tqtk_price_streaming.Feed.Calibration.{Parsing, Replies}
use tqtk_price_streaming.Feed.Calibration.Parse.{Head, parse_instrument}
use tqtk_price_streaming.Feed.Calibration.Params.{read_distribution}
use tqtk_price_streaming.Feed.Calibration.Load.{
  Venue, Heads, read_head, read_heads, read_calibration, read_calibrations, by_symbol, collected,
  load, discover,
}
use tqtk_price_streaming.Feed.Calibration.Checks.{
  IsReady, parse_instrument-ok, parse_head-ok, read_distribution-IsFitted,
}

module _ (fl : Floats) (conv : Conversion fl) (ps : Parsing) where
  -- What is known of one venue when its parameters are read.
  record IsHeaded (h : Heads) : Type 0 where
    increment : h.instrument.pip_size.coefficient ≡ pos 1
    price : Decimal.lt zero_decimal h.instrument.initial_price ≡ true
    for_return : family_of h.for_return.family ≡ some h.for_return.known
    for_spread : family_of h.for_spread.family ≡ some h.for_spread.known
    for_interval : family_of h.for_interval.family ≡ some h.for_interval.known

  read_head-known :
      (replies : Replies) (venue quantity : Str) {h : Head}
      → read_head ps replies venue quantity ≡ ok h
      → family_of h.family ≡ some h.known
  unfolding read_head
  read_head-known replies venue quantity e = parse_head-ok ps venue quantity _ _ e

  read_heads-IsHeaded :
      (replies : Replies) (venues : List Venue) {read : List (Venue × Heads)}
      → read_heads ps replies venues ≡ ok read
      → All (λ e. IsHeaded e.1) read
  unfolding read_heads
  read_heads-IsHeaded replies [] {read = []} h = tt
  read_heads-IsHeaded replies [] {read = e ∷ read} h = cc
  read_heads-IsHeaded replies (v ∷ venues) {read = []} h = ground arith
  read_heads-IsHeaded replies (v ∷ venues) {read = e ∷ read} h =
      let (i, instrument, h1) = >>=-eq-ok (parse_instrument ps v.0 _) _ h in
      let (a, returns, h2) = >>=-eq-ok (read_head ps replies v.0 (lit "return")) _ h1 in
      let (b, spreads, h3) = >>=-eq-ok (read_head ps replies v.0 (lit "spread")) _ h2 in
      let (c, intervals, h4) = >>=-eq-ok (read_head ps replies v.0 (lit "interval")) _ h3 in
      let (rest, tails, h5) = >>=-eq-ok (read_heads ps replies venues) _ h4 in
      let same : e.1 ≡ record { instrument = i; for_return = a; for_spread = b; for_interval = c } =
        ground arith in
      let others : rest ≡ read = ground arith in
      let (increment, price) = parse_instrument-ok ps v.0 _ instrument in
      (
        subst IsHeaded (sym same) (record {
          increment = increment;
          price = price;
          for_return = read_head-known replies v.0 _ returns;
          for_spread = read_head-known replies v.0 _ spreads;
          for_interval = read_head-known replies v.0 _ intervals;
        }),
        read_heads-IsHeaded replies venues (tails ∙ ap ok others),
      )

  read_calibration-IsReady :
      (replies : Replies) (venue : Str) (h : Heads) {c : SymbolCalibration fl.Float}
      → IsHeaded h
      → read_calibration fl conv ps replies venue h ≡ ok c
      → IsReady fl c
  unfolding read_calibration
  read_calibration-IsReady replies venue h {c = c} headed e =
      let pip_size = h.instrument.pip_size in
      let (r, returns, e1) =
        >>=-eq-ok (read_distribution fl conv ps replies venue (lit "return") pip_size h.for_return)
          _ e in
      let (s, spreads, e2) =
        >>=-eq-ok (read_distribution fl conv ps replies venue (lit "spread") pip_size h.for_spread)
          _ e1 in
      let (i, intervals, e3) =
        >>=-eq-ok
          (read_distribution fl conv ps replies venue (lit "interval") pip_size h.for_interval) _
          e2 in
      let same : c ≡ record {
        initial_price = h.instrument.initial_price;
        price_increment = pip_size;
        return_distribution = r;
        spread_distribution = s;
        interval_distribution = i;
      } =
        ground arith in
      subst (IsReady fl) (sym same) (record {
        increment = headed.increment;
        price = headed.price;
        for_return =
            read_distribution-IsFitted fl conv ps replies venue _ pip_size h.for_return
              headed.for_return returns;
        for_spread =
            read_distribution-IsFitted fl conv ps replies venue _ pip_size h.for_spread
              headed.for_spread spreads;
        for_interval =
            read_distribution-IsFitted fl conv ps replies venue _ pip_size h.for_interval
              headed.for_interval intervals;
      })

  read_calibrations-IsReady :
      (replies : Replies) (read : List (Venue × Heads))
      {entries : List (Str × SymbolCalibration fl.Float)}
      → All (λ e. IsHeaded e.1) read
      → read_calibrations fl conv ps replies read ≡ ok entries
      → All (λ e. IsReady fl e.1) entries
  unfolding read_calibrations
  read_calibrations-IsReady replies [] {entries = []} headed e = tt
  read_calibrations-IsReady replies [] {entries = x ∷ entries} headed e = cc
  read_calibrations-IsReady replies ((v, h) ∷ read) {entries = []} headed e = ground arith
  read_calibrations-IsReady replies ((v, h) ∷ read) {entries = x ∷ entries} headed e =
      let (c, first, e1) = >>=-eq-ok (read_calibration fl conv ps replies v.0 h) _ e in
      let (rest, tails, e2) = >>=-eq-ok (read_calibrations fl conv ps replies read) _ e1 in
      let same : c ≡ x.1 = ground arith in
      let others : rest ≡ entries = ground arith in
      (
        subst (IsReady fl) same (read_calibration-IsReady replies v.0 h headed.0 first),
        read_calibrations-IsReady replies read headed.1 (tails ∙ ap ok others),
      )

  insert-All :
      (x : Str × SymbolCalibration fl.Float) (d : Dict Str (SymbolCalibration fl.Float))
      → IsReady fl x.1
      → All (λ e. IsReady fl e.1) d
      → All (λ e. IsReady fl e.1) (insert (by_symbol fl conv ps) x d)
  unfolding insert
  insert-All x [] h hs = (h, tt)
  insert-All x (y ∷ d) h hs = elim (Bool-cases (str_leb x.0 y.0)) [
    | inl first ↦ rw (first, insert) (h, hs)
    | inr later ↦ rw (later, insert) (hs.0, insert-All x d h hs.1)
  ]

  sorted-All :
      (d : Dict Str (SymbolCalibration fl.Float))
      → All (λ e. IsReady fl e.1) d
      → All (λ e. IsReady fl e.1) (sorted (by_symbol fl conv ps) d)
  unfolding sorted
  sorted-All [] hs = tt
  sorted-All (x ∷ d) hs = insert-All x (sorted (by_symbol fl conv ps) d) hs.0 (sorted-All d hs.1)

  put-All :
      (k : Str) (c : SymbolCalibration fl.Float) (d : Dict Str (SymbolCalibration fl.Float))
      → IsReady fl c
      → All (λ e. IsReady fl e.1) d
      → All (λ e. IsReady fl e.1) (put k c d)
  unfolding put
  put-All k c [] h hs = (h, tt)
  put-All k c ((j, b) ∷ d) h hs = elim (Bool-cases (j == k)) [
    | inl here ↦ rw (here, put) (h, hs.1)
    | inr other ↦ rw (other, put) (hs.0, put-All k c d h hs.1)
  ]

  collected-All :
      (d : Dict Str (SymbolCalibration fl.Float))
      (entries : List (Str × SymbolCalibration fl.Float))
      → All (λ e. IsReady fl e.1) d
      → All (λ e. IsReady fl e.1) entries
      → All (λ e. IsReady fl e.1) (collected fl conv ps d entries)
  unfolding collected
  collected-All d [] hd hs = hd
  collected-All d ((k, c) ∷ entries) hd hs =
      collected-All (put k c d) entries (put-All k c d hs.0 hd) hs.1

  -- Every calibration that `load` returns has a positive power of ten as its price increment, a
  -- positive initial price, and three distributions of a known family, each with the family's
  -- parameters, finite, and positive where the family needs it.
  pub load-IsReady :
      (discovery heads params : Replies) {loaded : Dict Str (SymbolCalibration fl.Float)}
      → load fl conv ps discovery heads params ≡ ok loaded
      → All (λ e. IsReady fl e.1) loaded
  unfolding load
  load-IsReady discovery heads params {loaded = loaded} h =
      let (venues, _, h1) = >>=-eq-ok (discover ps discovery) _ h in
      let (read, headed, h2) = >>=-eq-ok (read_heads ps heads venues) _ h1 in
      let (entries, made, h3) = >>=-eq-ok (read_calibrations fl conv ps params read) _ h2 in
      let ready =
        read_calibrations-IsReady params read (read_heads-IsHeaded heads venues headed) made in
      let same : sorted (by_symbol fl conv ps) (collected fl conv ps [] entries) ≡ loaded =
        ground arith in
      subst (All (λ e. IsReady fl e.1)) same
        (sorted-All (collected fl conv ps [] entries) (collected-All [] entries tt ready))
