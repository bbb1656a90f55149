-- ===== src/Feed/Calibration/Position.antt =====
-- calibration_store.py: the replies of the third round trip, taken by their position.
use mathlib.Core.List.{append_assoc}
use tqtk_price_streaming.Prelude.{
  ℕ, suc, ◌+◌, ◌≡◌, refl, sym, ap, subst, ◌∙◌, List, [], ◌∷◌, ◌++◌, map, All, length, range_from,
  range_from-append, guard, arith,
}
use tqtk_price_streaming.Prelude.Text.{Str, lit, str_eq}
use tqtk_price_streaming.Records.Floats.{Floats}
use tqtk_price_streaming.Feed.Decimal.{Decimal}
use tqtk_price_streaming.Feed.Distributions.{family_parameters}
use tqtk_price_streaming.Feed.Generator.{Conversion}
use tqtk_price_streaming.Feed.Calibration.{Parsing, Replies, decode_hash, extra_param}
use tqtk_price_streaming.Feed.Calibration.Parse.{Head, prefix_of}
use tqtk_price_streaming.Feed.Calibration.Params.{
  is_empty, param_key, read_param, read_values, read_distribution,
}
use tqtk_price_streaming.Feed.Calibration.Load.{Venue, Heads, read_calibration, read_calibrations}
use tqtk_price_streaming.Feed.Calibration.Taking as Taking
use tqtk_price_streaming.Feed.Calibration.Taking.{
  Command, ask_hash, Reply, hash, value, answer, execute, Fault, invalid, Taking, pure, checked,
  next_set, next_hash, next_value,
}
use tqtk_price_streaming.Feed.Calibration.Pipeline.{
  asked_params, param_commands, take_values, take_distribution, take_calibration, take_calibrations,
}
use tqtk_price_streaming.Feed.Calibration.Takes.{
  Takes, bind-Takes, checked-Takes, pure-Takes, next_hash-Takes, last-Takes,
}

-- Heads whose counts are those of their families.
abbrev pub Counted : Heads → Type 0
Counted h =
    (h.for_return.count ≡ length (family_parameters h.for_return.known))
    × (h.for_spread.count ≡ length (family_parameters h.for_spread.known))
    × (h.for_interval.count ≡ length (family_parameters h.for_interval.known))

map_append : {A B : Type 0} (f : A → B) (xs ys : List A) → map f (xs ++ ys) ≡ map f xs ++ map f ys
map_append f [] ys = refl
map_append f (x ∷ xs) ys = ap (◌∷◌ (f x)) (map_append f xs ys)

executed_parts :
    (replies : Replies) (a b c d : List Command)
    → execute replies (a ++ (b ++ (c ++ d)))
      ≡ (execute replies a ++ (execute replies b ++ execute replies c)) ++ execute replies d
unfolding execute
executed_parts replies a b c d =
    map_append (answer replies) a (b ++ (c ++ d))
    ∙ ap (◌++◌ (map (answer replies) a)) (
        map_append (answer replies) b (c ++ d)
        ∙ ap (◌++◌ (map (answer replies) b)) (map_append (answer replies) c d)
        ∙ sym (
            append_assoc (map (answer replies) b) (map (answer replies) c)
              (map (answer replies) d)))
    ∙ sym (
        append_assoc (map (answer replies) a) (map (answer replies) b ++ map (answer replies) c)
          (map (answer replies) d))

asked_split :
    (reply : ℕ → Reply) (count n : ℕ)
    → count ≡ n
    → map reply (range_from 0 (count + 1)) ≡ map reply (range_from 0 n) ++ (reply count ∷ [])
asked_split reply count n same =
    let next : count + 1 ≡ suc n = omega (arith, same) in
    ap (λ k. map reply (range_from 0 k)) next
    ∙ ap (map reply) (range_from-append 0 n)
    ∙ map_append reply (range_from 0 n) ((0 + n) ∷ [])
    ∙ ap (λ k. map reply (range_from 0 n) ++ (reply k ∷ []))
        (let last : 0 + n ≡ count = omega (arith, same) in last)

module _ (fl : Floats) (conv : Conversion fl) (ps : Parsing) (replies : Replies) where
  abbrev param_reply : Str → ℕ → Reply
  param_reply prefix n = hash (replies.hgetall (param_key fl conv ps prefix n))

  take_values-Takes :
      (venue prefix : Str) (pip_size : Decimal) (n : ℕ) (names : List Str)
      → Takes
          (take_values fl conv ps venue prefix pip_size n names)
          (map (param_reply prefix) (range_from n (length names)))
          (read_values fl conv ps replies venue prefix pip_size n names)
  unfolding take_values read_values
  take_values-Takes venue prefix pip_size n [] = pure-Takes []
  take_values-Takes venue prefix pip_size n (name ∷ names) =
      let later = map (param_reply prefix) (range_from (n + 1) (length names)) in
      let key = param_key fl conv ps prefix n in
      next_hash-Takes (replies.hgetall key) later _ _ (
        bind-Takes (checked _) [] later
          (read_param fl conv ps venue key name pip_size (replies.hgetall key)) _ _
          (checked-Takes _)
          (λ first _.
            last-Takes (take_values fl conv ps venue prefix pip_size (n + 1) names) later _ _
              (take_values-Takes venue prefix pip_size (n + 1) names)))

  -- The one past the last.
  take_distribution-Takes :
      (venue quantity : Str) (pip_size : Decimal) (head : Head)
      → head.count ≡ length (family_parameters head.known)
      → Takes
          (take_distribution fl conv ps venue quantity pip_size head)
          (map (param_reply (prefix_of venue quantity)) (range_from 0 (head.count + 1)))
          (read_distribution fl conv ps replies venue quantity pip_size head)
  unfolding take_distribution read_distribution Taking.◌>>◌
  take_distribution-Takes venue quantity pip_size head counted =
      let prefix = prefix_of venue quantity in
      let names = family_parameters head.known in
      let key = param_key fl conv ps prefix head.count in
      let before = map (param_reply prefix) (range_from 0 (length names)) in
      let past_reply = hash (replies.hgetall key) in
      subst
        (λ used.
          Takes (take_distribution fl conv ps venue quantity pip_size head) used
            (read_distribution fl conv ps replies venue quantity pip_size head))
        (sym (asked_split (param_reply prefix) head.count (length names) counted))
        (bind-Takes (take_values fl conv ps venue prefix pip_size 0 names) before (past_reply ∷ [])
          _ _ _ (take_values-Takes venue prefix pip_size 0 names)
          (λ params _. next_hash-Takes (replies.hgetall key) [] _ _ (
            bind-Takes (checked _) [] [] (decode_hash ps (replies.hgetall key) key) _ _
              (checked-Takes _)
              (λ past _.
                bind-Takes (checked _) [] [] (guard (is_empty past) (extra_param venue key)) _ _
                  (checked-Takes _) (λ _ _. pure-Takes _)))))

  execute-asked :
      (prefix : Str) (ns : List ℕ)
      → execute replies (map (λ n. ask_hash (prefix ++ (lit ":param:" ++ ps.str_int n))) ns)
        ≡ map (param_reply prefix) ns
  unfolding execute answer
  execute-asked prefix [] = refl
  execute-asked prefix (n ∷ ns) = ap (◌∷◌ (param_reply prefix n)) (execute-asked prefix ns)

  asked-Takes :
      (venue quantity : Str) (pip_size : Decimal) (head : Head)
      → head.count ≡ length (family_parameters head.known)
      → Takes
          (take_distribution fl conv ps venue quantity pip_size head)
          (execute replies (asked_params ps (prefix_of venue quantity) head.count))
          (read_distribution fl conv ps replies venue quantity pip_size head)
  unfolding asked_params
  asked-Takes venue quantity pip_size head counted =
      subst
        (λ used.
          Takes (take_distribution fl conv ps venue quantity pip_size head) used
            (read_distribution fl conv ps replies venue quantity pip_size head))
        (sym (execute-asked (prefix_of venue quantity) (range_from 0 (head.count + 1))))
        (take_distribution-Takes venue quantity pip_size head counted)

  take_calibration-Takes :
      (v : Venue) (h : Heads)
      → Counted h
      → Takes
          (take_calibration fl conv ps v h)
          (execute replies (asked_params ps (prefix_of v.0 (lit "return")) h.for_return.count)
            ++ (execute replies (asked_params ps (prefix_of v.0 (lit "spread")) h.for_spread.count)
                ++ execute replies
                    (asked_params ps (prefix_of v.0 (lit "interval")) h.for_interval.count)))
          (read_calibration fl conv ps replies v.0 h)
  unfolding take_calibration read_calibration
  take_calibration-Takes v h (returns, spreads, intervals) =
      let pip_size = h.instrument.pip_size in
      let asked = λ (quantity : Str) (count : ℕ).
        execute replies (asked_params ps (prefix_of v.0 quantity) count) in
      bind-Takes (take_distribution fl conv ps v.0 (lit "return") pip_size h.for_return)
        (asked (lit "return") h.for_return.count)
        (asked (lit "spread") h.for_spread.count ++ asked (lit "interval") h.for_interval.count) _ _
        _ (asked-Takes v.0 (lit "return") pip_size h.for_return returns)
        (λ a _.
          bind-Takes (take_distribution fl conv ps v.0 (lit "spread") pip_size h.for_spread)
            (asked (lit "spread") h.for_spread.count) (asked (lit "interval") h.for_interval.count)
            _ _ _ (asked-Takes v.0 (lit "spread") pip_size h.for_spread spreads)
            (λ b _.
              last-Takes (take_distribution fl conv ps v.0 (lit "interval") pip_size h.for_interval)
                (asked (lit "interval") h.for_interval.count) _ _
                (asked-Takes v.0 (lit "interval") pip_size h.for_interval intervals)))

  pub take_calibrations-Takes :
      (read : List (Venue × Heads))
      → All (λ e. Counted e.1) read
      → Takes
          (take_calibrations fl conv ps read)
          (execute replies (param_commands ps read))
          (read_calibrations fl conv ps replies read)
  unfolding take_calibrations read_calibrations param_commands execute
  take_calibrations-Takes [] counted = pure-Takes []
  take_calibrations-Takes ((v, h) ∷ read) counted =
      let later = execute replies (param_commands ps read) in
      let here =
        execute replies (asked_params ps (prefix_of v.0 (lit "return")) h.for_return.count)
        ++ (execute replies (asked_params ps (prefix_of v.0 (lit "spread")) h.for_spread.count)
            ++ execute replies
                (asked_params ps (prefix_of v.0 (lit "interval")) h.for_interval.count)) in
      subst
        (λ used.
          Takes (take_calibrations fl conv ps ((v, h) ∷ read)) used
            (read_calibrations fl conv ps replies ((v, h) ∷ read)))
        (sym (
          executed_parts replies (asked_params ps (prefix_of v.0 (lit "return")) h.for_return.count)
            (asked_params ps (prefix_of v.0 (lit "spread")) h.for_spread.count)
            (asked_params ps (prefix_of v.0 (lit "interval")) h.for_interval.count)
            (param_commands ps read)))
        (bind-Takes (take_calibration fl conv ps v h) here later _ _ _
          (take_calibration-Takes v h counted.0)
          (λ c _.
            last-Takes (take_calibrations fl conv ps read) later _ _
              (take_calibrations-Takes read counted.1)))
