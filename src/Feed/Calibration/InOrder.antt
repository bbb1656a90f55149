-- ===== src/Feed/Calibration/InOrder.antt =====
-- calibration_store.py: the three round trips of `load`, with their replies in the order of the commands.
use mathlib.Core.List.{append-nil}
use tqtk_price_streaming.Prelude.{
  ◌≡◌, refl, sym, ap, subst, ◌∙◌, List, [], ◌∷◌, length, not, keep, >>=-eq-ok, All, Result, ok, err,
  ◌>>=◌, arith,
}
use tqtk_price_streaming.Prelude.Text.{Str, lit, str_eq, str_leb}
use tqtk_price_streaming.Prelude.Sorting.{contains, sorted}
use tqtk_price_streaming.Records.Floats.{Floats}
use tqtk_price_streaming.Feed.Distributions.{family_parameters}
use tqtk_price_streaming.Feed.Generator.{Conversion}
use tqtk_price_streaming.Feed.Calibration.{Parsing, Replies, Checked, decode_hash}
use tqtk_price_streaming.Feed.Calibration.Parse.{Head, parse_instrument, parse_head}
use tqtk_price_streaming.Feed.Calibration.Load.{
  symbols_key, quantities_key, symbology_key, quantities, check_seeded, check_quantities,
  map_venues, texts_of, Venue, Heads, discover, read_head, read_heads, read_calibrations, load,
}
use tqtk_price_streaming.Feed.Calibration.Taking as Taking
use tqtk_price_streaming.Feed.Calibration.Taking.{
  Command, ask_hash, Reply, set, hash, value, answer, execute, Fault, invalid, Taking, pure,
  checked, next_set, next_hash, next_value,
}
use tqtk_price_streaming.Feed.Calibration.Pipeline.{
  discover_commands, head_commands, take_discovery, take_heads, param_commands, take_calibrations,
}
use tqtk_price_streaming.Feed.Calibration.Trips.{taken, load_pipelined}
use tqtk_price_streaming.Feed.Calibration.Takes.{
  next_set-Takes, check-Takes, leaves, Takes, checked-Takes, next_hash-Takes,
}
use tqtk_price_streaming.Feed.Calibration.HeadReplies.{take_heads-Takes}
use tqtk_price_streaming.Feed.Calibration.Position.{Counted, take_calibrations-Takes}

abbrev pub lifted : {A : Type 0} → Checked A → Result Fault A
lifted (ok a) = ok a
lifted (err e) = err (invalid e)

taken-Takes :
    {A : Type 0} (take : Taking A) (used : List Reply) (m : Checked A)
    → Takes take used m
    → taken (take used) ≡ lifted m
unfolding taken
taken-Takes {A = A} take used m h =
    ap (λ u. taken (take u)) (sym (append-nil used)) ∙ ap taken (h []) ∙ by m
  where
    by : (c : Checked A) → taken (leaves c []) ≡ lifted c
    by (ok a) = refl
    by (err e) = refl

bind-lifted :
    {A B : Type 0} (r : Result Fault A) (m : Checked A) (next : A → Result Fault B)
    (k : A → Checked B)
    → r ≡ lifted m
    → ((a : A) → m ≡ ok a → next a ≡ lifted (k a))
    → (r >>= next) ≡ lifted (m >>= k)
bind-lifted r (ok a) next k e h = ap (λ x. x >>= next) e ∙ h a refl
bind-lifted r (err e) next k same h = ap (λ x. x >>= next) same

take_discovery-Takes :
    (ps : Parsing) (replies : Replies)
    → Takes (take_discovery ps) (execute replies discover_commands) (discover ps replies)
unfolding take_discovery discover execute answer Taking.◌>>◌
take_discovery-Takes ps replies =
    let raw_symbols = replies.smembers symbols_key in
    let raw_quantities = replies.smembers quantities_key in
    let raw_symbology = replies.hgetall symbology_key in
    next_set-Takes raw_symbols (set raw_quantities ∷ hash raw_symbology ∷ []) _ _ (
      next_set-Takes raw_quantities (hash raw_symbology ∷ []) _ _ (
        next_hash-Takes raw_symbology [] _ _ (
          check-Takes (texts_of ps raw_symbols symbols_key) _ _ (λ symbols _.
            check-Takes (check_seeded (sorted str_leb symbols)) _ _ (λ venues _.
              check-Takes (texts_of ps raw_quantities quantities_key) _ _ (λ given _.
                check-Takes (check_quantities (keep (λ q. not (contains q given)) quantities)) _ _
                  (λ _ _.
                    check-Takes (decode_hash ps raw_symbology symbology_key) _ _
                      (λ symbology _. checked-Takes (map_venues symbology venues [])))))))))

head-Counted :
    (ps : Parsing) (replies : Replies) (venue quantity : Str) (h : Head)
    → read_head ps replies venue quantity ≡ ok h
    → h.count ≡ length (family_parameters h.known)
unfolding read_head parse_head
head-Counted ps replies venue quantity h e = ground arith

heads-Counted :
    (ps : Parsing) (replies : Replies) (venues : List Venue) (read : List (Venue × Heads))
    → read_heads ps replies venues ≡ ok read
    → All (λ e. Counted e.1) read
unfolding read_heads
heads-Counted ps replies [] read e =
    let same : [] ≡ read = cc e in subst (All (λ (x : Venue × Heads). Counted x.1)) same tt
heads-Counted ps replies (v ∷ venues) read e =
    let (i, _, e1) = >>=-eq-ok (parse_instrument ps v.0 _) _ e in
    let (r, for_return, e2) = >>=-eq-ok (read_head ps replies v.0 (lit "return")) _ e1 in
    let (s, for_spread, e3) = >>=-eq-ok (read_head ps replies v.0 (lit "spread")) _ e2 in
    let (t, for_interval, e4) = >>=-eq-ok (read_head ps replies v.0 (lit "interval")) _ e3 in
    let (others, later, e5) = >>=-eq-ok (read_heads ps replies venues) _ e4 in
    let h : Heads = record { instrument = i; for_return = r; for_spread = s; for_interval = t } in
    let same : ((v, h) ∷ others) ≡ read = cc e5 in
    subst (All (λ (x : Venue × Heads). Counted x.1)) same (
      (
        head-Counted ps replies v.0 (lit "return") r for_return,
        head-Counted ps replies v.0 (lit "spread") s for_spread,
        head-Counted ps replies v.0 (lit "interval") t for_interval,
      ),
      heads-Counted ps replies venues others later,
    )

module _ (fl : Floats) (conv : Conversion fl) (ps : Parsing) where
  -- Taking the replies of the three pipelines one by one, in the order of their commands, loads
  -- what reading each of them under its own key loads, errors included: no reply is taken for
  -- another, and none is lacking.
  pub load_pipelined-load :
      (discovery heads params : Replies)
      → load_pipelined fl conv ps discovery heads params
        ≡ lifted (load fl conv ps discovery heads params)
  unfolding load_pipelined load
  load_pipelined-load discovery heads params =
      bind-lifted _ (discover ps discovery) _ _
        (taken-Takes (take_discovery ps) (execute discovery discover_commands) _
          (take_discovery-Takes ps discovery))
        (λ venues _.
          bind-lifted _ (read_heads ps heads venues) _ _
            (taken-Takes (take_heads ps venues) (execute heads (head_commands venues)) _
              (take_heads-Takes ps heads venues))
            (λ read known.
              bind-lifted _ (read_calibrations fl conv ps params read) _ _
                (taken-Takes (take_calibrations fl conv ps read)
                  (execute params (param_commands ps read)) _
                  (take_calibrations-Takes fl conv ps params read
                    (heads-Counted ps heads venues read known)))
                (λ entries _. refl)))
