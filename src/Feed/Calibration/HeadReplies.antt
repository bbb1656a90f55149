-- ===== src/Feed/Calibration/HeadReplies.antt =====
-- calibration_store.py: the replies of the second round trip, taken by their position.
use tqtk_price_streaming.Prelude.{List, [], ◌∷◌, ◌++◌}
use tqtk_price_streaming.Prelude.Text.{Str, lit, str_eq}
use tqtk_price_streaming.Feed.Calibration.{Parsing, Replies}
use tqtk_price_streaming.Feed.Calibration.Parse.{instrument_key, prefix_of, parse_instrument}
use tqtk_price_streaming.Feed.Calibration.Load.{Venue, read_head, read_heads}
use tqtk_price_streaming.Feed.Calibration.Taking as Taking
use tqtk_price_streaming.Feed.Calibration.Taking.{
  Command, ask_hash, Reply, hash, value, answer, execute, Fault, invalid, Taking, pure, checked,
  next_set, next_hash, next_value,
}
use tqtk_price_streaming.Feed.Calibration.Pipeline.{
  head_commands, take_instrument, take_head, take_heads,
}
use tqtk_price_streaming.Feed.Calibration.Takes.{
  Takes, bind-Takes, checked-Takes, pure-Takes, last-Takes,
}

module _ (ps : Parsing) (replies : Replies) where
  take_instrument-Takes :
      (venue : Str)
      → Takes
          (take_instrument ps venue)
          (hash (replies.hgetall (instrument_key venue)) ∷ [])
          (parse_instrument ps venue (replies.hgetall (instrument_key venue)))
  unfolding take_instrument Taking.◌>>=◌ next_hash
  take_instrument-Takes venue =
      checked-Takes (parse_instrument ps venue (replies.hgetall (instrument_key venue)))

  take_head-Takes :
      (venue quantity : Str)
      → Takes
          (take_head ps venue quantity)
          (value (replies.get (prefix_of venue quantity ++ lit ":family"))
            ∷ value (replies.get (prefix_of venue quantity ++ lit ":param_count"))
            ∷ [])
          (read_head ps replies venue quantity)
  unfolding take_head Taking.◌>>=◌ next_value read_head
  take_head-Takes venue quantity = checked-Takes (read_head ps replies venue quantity)

  -- The replies to the two commands of a head.
  abbrev head_replies : Str → Str → List Reply
  head_replies venue quantity =
      value (replies.get (prefix_of venue quantity ++ lit ":family"))
      ∷ value (replies.get (prefix_of venue quantity ++ lit ":param_count"))
      ∷ []

  pub take_heads-Takes :
      (venues : List Venue)
      → Takes
          (take_heads ps venues)
          (execute replies (head_commands venues))
          (read_heads ps replies venues)
  unfolding take_heads execute head_commands read_heads answer
  take_heads-Takes [] = pure-Takes []
  take_heads-Takes (v ∷ venues) =
      let others = execute replies (head_commands venues) in
      let intervals = head_replies v.0 (lit "interval") in
      let spreads = head_replies v.0 (lit "spread") in
      let returns = head_replies v.0 (lit "return") in
      bind-Takes (take_instrument ps v.0) (hash _ ∷ [])
        (returns ++ (spreads ++ (intervals ++ others))) _ _ _ (take_instrument-Takes v.0)
        (λ i _.
          bind-Takes (take_head ps v.0 (lit "return")) returns (spreads ++ (intervals ++ others)) _
            _ _ (take_head-Takes v.0 (lit "return"))
            (λ r _.
              bind-Takes (take_head ps v.0 (lit "spread")) spreads (intervals ++ others) _ _ _
                (take_head-Takes v.0 (lit "spread"))
                (λ s _.
                  bind-Takes (take_head ps v.0 (lit "interval")) intervals others _ _ _
                    (take_head-Takes v.0 (lit "interval"))
                    (λ t _.
                      last-Takes (take_heads ps venues) others _ _ (take_heads-Takes venues)))))
