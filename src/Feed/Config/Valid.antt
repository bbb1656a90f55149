-- ===== src/Feed/Config/Valid.antt =====
-- config.py of the feed: what the settings are that the service starts with.
use tqtk_price_streaming.Prelude.{
  false, Bool, sym, Bool-cases, inl, inr, if◌then◌else◌, ◌≡◌, ◌↔◌, refl, ap, subst, ◌∙◌, none,
  Result, ok, err,
}
use tqtk_price_streaming.Prelude.Text.{lit, str_eq}
use tqtk_price_streaming.Records.Floats.{Floats}
use tqtk_price_streaming.Config.{
  Environ, Problem, out_of_range, Errors, ServiceConfig, as_text, with_field,
}
use tqtk_price_streaming.Feed.Config.{
  FeedConfig, Numbers, as_file, positive, tick_rate_of, redis_url_of, postgres_url_of,
  password_file_of, with_service, make_feed, feed_config,
}
use tqtk_price_streaming.Config.Valid.{
  IsRead, setting_iff, with_field_iff, kept_iff, IsService, service_config_iff,
}

with_service_iff :
    {B : Type 0} (make : ServiceConfig → B) (service : Result Errors ServiceConfig) (b : B)
    → (with_service make service ≡ ok b) ↔ ((s : ServiceConfig) × (service ≡ ok s) × (make s ≡ b))
unfolding with_service
with_service_iff make (ok s) b = (
  λ h. (s, refl, cc h),
  λ (t, same, h). let services : s ≡ t = cc same in ap ok (ap make services ∙ h),
)
with_service_iff make (err es) b = (λ h. cc, λ (t, same, h). cc)

-- A check that refuses what meets a test.
refused-kept :
    {A : Type 0} (test : A → Bool) (e : Problem) (a value : A)
    → ((if test a then err e else ok a) ≡ ok value) ↔ ((a ≡ value) × (test value ≡ false))
refused-kept test e a value = elim (Bool-cases (test a)) [
  | inl refuses ↦
      rw refuses (λ h. absurd cc, λ (same, passes). absurd (cc (ap test same, refuses, passes)))
  | inr passes ↦ rw passes (
    λ h. let same : a ≡ value = cc h in (same, ap test (sym same) ∙ passes),
    λ (same, _). ap ok same,
  )
]

module _ (fl : Floats) (numbers : Numbers fl) (environ : Environ) where
  -- The settings of the feed.
  pub record IsFeed (c : FeedConfig fl.Float) : Type 0 where
    pub service : IsService numbers.to_int environ (lit "feed-adapter-synthetic") c.service
    pub tick_rate :
        IsRead numbers.to_float environ
          (lit "tick_rate_per_symbol")
          numbers.one
          c.tick_rate_per_symbol
    pub positive : fl.le c.tick_rate_per_symbol fl.zero ≡ false
    pub redis_url :
        IsRead as_text environ (lit "redis_url") (lit "redis://localhost:6379/0") c.redis_url
    pub postgres_url :
        IsRead as_text environ
          (lit "postgres_url")
          (lit "postgresql://tqtk@localhost:5432/tqtk")
          c.postgres_url
    pub postgres_password_file :
        IsRead as_file environ (lit "postgres_password_file") none c.postgres_password_file

  rate-eq-ok :
      (value : fl.Float)
      → (tick_rate_of fl numbers environ ≡ ok value) ↔ (
          IsRead numbers.to_float environ (lit "tick_rate_per_symbol") numbers.one value
          × (fl.le value fl.zero ≡ false))
  unfolding tick_rate_of positive
  rate-eq-ok value =
      kept_iff numbers.to_float environ (lit "tick_rate_per_symbol") numbers.one
        (positive fl numbers environ) (λ v. v) (λ v. fl.le v fl.zero ≡ false) value
        (λ a. refused-kept (λ v. fl.le v fl.zero) out_of_range a value)

  feed_config-IsFeed : (c : FeedConfig fl.Float) → feed_config fl numbers environ ≡ ok c → IsFeed c
  unfolding feed_config redis_url_of postgres_url_of password_file_of
  feed_config-IsFeed c h =
      let (f3, password, m3, v3, e3) =
        (with_field_iff _ (lit "postgres_password_file") (password_file_of fl numbers environ) c).0
          h in
      let (f2, postgres, m2, v2, e2) =
        (with_field_iff _ (lit "postgres_url") (postgres_url_of fl numbers environ) f3).0 m3 in
      let (f1, redis, m1, v1, e1) =
        (with_field_iff _ (lit "redis_url") (redis_url_of fl numbers environ) f2).0 m2 in
      let (f0, rate, m0, v0, e0) =
        (with_field_iff _ (lit "tick_rate_per_symbol") (tick_rate_of fl numbers environ) f1).0 m1 in
      let (service, served, made) = (with_service_iff make_feed _ f0).0 m0 in
      let whole =
        ap (λ f. f rate redis postgres password) made
        ∙ ap (λ f. f redis postgres password) e0
        ∙ ap (λ f. f postgres password) e1
        ∙ ap (λ f. f password) e2
        ∙ e3 in
      let (rated, above) = (rate-eq-ok rate).0 v0 in
      subst IsFeed whole (record {
        service =
            (service_config_iff numbers.to_int environ (lit "feed-adapter-synthetic") service).0
              served;
        tick_rate = rated;
        positive = above;
        redis_url =
            (setting_iff as_text environ (lit "redis_url") (lit "redis://localhost:6379/0") redis).0
              v1;
        postgres_url =
            (setting_iff as_text environ (lit "postgres_url")
                (lit "postgresql://tqtk@localhost:5432/tqtk") postgres).0
              v2;
        postgres_password_file =
            (setting_iff as_file environ (lit "postgres_password_file") none password).0 v3;
      })

  feed-feed_config : (c : FeedConfig fl.Float) → IsFeed c → feed_config fl numbers environ ≡ ok c
  unfolding feed_config redis_url_of postgres_url_of password_file_of with_field with_service
  feed-feed_config c f =
      let s =
        (service_config_iff numbers.to_int environ (lit "feed-adapter-synthetic") c.service).1
          f.service in
      let r = (rate-eq-ok c.tick_rate_per_symbol).1 (f.tick_rate, f.positive) in
      let u =
        (setting_iff as_text environ (lit "redis_url") (lit "redis://localhost:6379/0")
            c.redis_url).1
          f.redis_url in
      let p =
        (setting_iff as_text environ (lit "postgres_url")
            (lit "postgresql://tqtk@localhost:5432/tqtk") c.postgres_url).1
          f.postgres_url in
      let w =
        (setting_iff as_file environ (lit "postgres_password_file") none c.postgres_password_file).1
          f.postgres_password_file in
      rw (s, r, u, p, w) refl

  -- The settings of the feed are read exactly when each is its variable's value, or its default
  -- where the variable is not set, and the service name is not blank, the port at most 65535,
  -- the log level one of the five, and the tick rate not at most 0, which lets NaN pass.
  pub feed_config_iff :
      (c : FeedConfig fl.Float) → (feed_config fl numbers environ ≡ ok c) ↔ IsFeed c
  feed_config_iff c = (feed_config-IsFeed c, feed-feed_config c)
