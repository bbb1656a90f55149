-- ===== src/Feed/Calibration/Trips.antt =====
-- calibration_store.py: `load`, with the replies of each round trip taken in the order of its commands.
use tqtk_price_streaming.Prelude.{List, [], Result, ok, err, ◌>>=◌}
use tqtk_price_streaming.Prelude.Text.{Str}
use tqtk_price_streaming.Prelude.Dict.{Dict}
use tqtk_price_streaming.Prelude.Sorting.{sorted}
use tqtk_price_streaming.Records.Floats.{Floats}
use tqtk_price_streaming.Feed.Generator.{Conversion, SymbolCalibration}
use tqtk_price_streaming.Feed.Calibration.{Parsing, Replies}
use tqtk_price_streaming.Feed.Calibration.Load.{collected, by_symbol}
use tqtk_price_streaming.Feed.Calibration.Taking.{Reply, execute, Fault}
use tqtk_price_streaming.Feed.Calibration.Pipeline.{
  discover_commands, take_discovery, head_commands, take_heads, param_commands, take_calibrations,
}

-- What a reading gives; the replies that it leaves are not looked at.
unfoldable pub taken : {A : Type 0} → Result Fault (A × List Reply) → Result Fault A
taken (ok (a, rest)) = ok a
taken (err e) = err e

module _ (fl : Floats) (conv : Conversion fl) (ps : Parsing) where
  unfoldable pub load_pipelined :
      Replies → Replies → Replies → Result Fault (Dict Str (SymbolCalibration fl.Float))
  unfolding taken
  load_pipelined discovery heads params = do
    venues ← taken (take_discovery ps (execute discovery discover_commands))
    read ← taken (take_heads ps venues (execute heads (head_commands venues)))
    entries ← taken (take_calibrations fl conv ps read (execute params (param_commands ps read)))
    ok (sorted (by_symbol fl conv ps) (collected fl conv ps [] entries))
