-- ===== src/Tests/Names.antt =====
-- names.py: the names of one stream.
use tqtk_price_streaming.Prelude.{◌≡◌, refl, ok, err, list_beq}
use tqtk_price_streaming.Prelude.Text.{Str, lit}
use tqtk_price_streaming.Records.Timeframe.{timeframe_of, value}
use tqtk_price_streaming.Names.{
  bad_symbol, matches_provider, matches_symbol, tick_stream, bar_stream, bar_state_key,
}
use tqtk_price_streaming.Names.Injective.{of_bar, SameParts, built-injective}

abbrev provider : Str
provider = lit "synthetic"

abbrev symbol : Str
symbol = lit "EURUSD"

ticks : tick_stream provider symbol ≡ ok (lit "ticks.raw.synthetic.EURUSD")
unfolding tick_stream matches_provider matches_symbol
ticks = refl

bars : bar_stream provider symbol (lit "5m") ≡ ok (lit "bars.5m.synthetic.EURUSD")
unfolding bar_stream timeframe_of value list_beq matches_provider matches_symbol
bars = refl

state : bar_state_key provider symbol (lit "5m") ≡ ok (lit "bar_state:synthetic:EURUSD:5m")
unfolding bar_state_key timeframe_of value list_beq matches_provider matches_symbol
state = refl

lower_case : tick_stream provider (lit "eurusd") ≡ err (bad_symbol (lit "eurusd"))
unfolding tick_stream matches_provider matches_symbol
lower_case = refl

built-injective_example : SameParts of_bar (provider, symbol, lit "5m") (provider, symbol, lit "5m")
built-injective_example =
    built-injective of_bar provider symbol (lit "5m") provider symbol (lit "5m") bars bars
