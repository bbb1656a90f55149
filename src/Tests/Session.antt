-- ===== src/Tests/Session.antt =====
-- session.py: two streams that share a session.
use tqtk_price_streaming.Prelude.{◌≡◌, refl, List, [], ◌∷◌, range_from, list_beq, pair_beq, pair_eq}
use tqtk_price_streaming.Prelude.Text.{lit, str_eq}
use tqtk_price_streaming.Prelude.Dict.{get, put}
use tqtk_price_streaming.Session.{Stream, start, assign, next_seq}
use tqtk_price_streaming.Session.Gapless.{current, count_of, seqs_of, assign-range_from}

abbrev eurusd : Stream
eurusd = (lit "synthetic", lit "EURUSD")

abbrev gbpusd : Stream
gbpusd = (lit "synthetic", lit "GBPUSD")

abbrev calls : List Stream
calls = eurusd ∷ gbpusd ∷ eurusd ∷ []

interleaved : (assign calls (start (lit "a1"))).0 ≡ (eurusd, 0) ∷ (gbpusd, 0) ∷ (eurusd, 1) ∷ []
unfolding assign next_seq start get put list_beq pair_beq
interleaved = refl

assign-range_from_example :
    seqs_of eurusd (assign calls (start (lit "a1"))).0
    ≡ range_from (current eurusd (start (lit "a1"))) (count_of eurusd calls)
assign-range_from_example = assign-range_from calls (start (lit "a1")) eurusd
