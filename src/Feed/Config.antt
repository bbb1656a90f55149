-- ===== src/Feed/Config.antt =====
-- services/feed-adapter-synthetic/src/feed_adapter_synthetic/config.py: the settings of the feed.
pub mod Valid
use tqtk_price_streaming.Prelude.{Bool, Option, none, some, Result, ok, err, if◌then◌else◌}
use tqtk_price_streaming.Prelude.Text.{Str, lit}
use tqtk_price_streaming.Prelude.Int.{ℤ}
use tqtk_price_streaming.Records.Floats.{Floats}
use tqtk_price_streaming.Config.{
  Environ, Problem, out_of_range, Errors, ServiceConfig, as_text, setting, checked, with_field,
  service_config,
}

pub record FeedConfig (F : Type 0) : Type 0 where
  pub service : ServiceConfig
  pub tick_rate_per_symbol : F
  pub redis_url : Str
  pub postgres_url : Str
  pub postgres_password_file : Option Str

-- Reading numbers from texts, and the float 1.0.
pub record Numbers (fl : Floats) : Type 0 where
  pub to_int : Str → Option ℤ
  pub to_float : Str → Option fl.Float
  pub one : fl.Float

abbrev pub as_file : Str → Option (Option Str)
as_file text = some (some text)

abbrev pub make_feed : {F : Type 0} → ServiceConfig → F → Str → Str → Option Str → FeedConfig F
make_feed service rate redis postgres password = record {
  service = service;
  tick_rate_per_symbol = rate;
  redis_url = redis;
  postgres_url = postgres;
  postgres_password_file = password;
}

-- `make` after the fields of the base.
unfoldable pub with_service :
    {B : Type 0} → (ServiceConfig → B) → Result Errors ServiceConfig → Result Errors B
with_service make (ok service) = ok (make service)
with_service make (err es) = err es

module _ (fl : Floats) (numbers : Numbers fl) (environ : Environ) where
  -- `gt=0`: pydantic refuses what is at most the bound, which NaN is not.
  unfoldable pub positive : fl.Float → Result Problem fl.Float
  positive x = if fl.le x fl.zero then err out_of_range else ok x

  unfoldable pub tick_rate_of : Result Problem fl.Float
  unfolding setting checked positive
  tick_rate_of =
      checked positive
        (setting numbers.to_float environ (lit "tick_rate_per_symbol") (some numbers.one))

  unfoldable pub redis_url_of : Result Problem Str
  unfolding setting
  redis_url_of = setting as_text environ (lit "redis_url") (some (lit "redis://localhost:6379/0"))

  unfoldable pub postgres_url_of : Result Problem Str
  unfolding setting
  postgres_url_of =
      setting as_text environ (lit "postgres_url")
        (some (lit "postgresql://tqtk@localhost:5432/tqtk"))

  unfoldable pub password_file_of : Result Problem (Option Str)
  unfolding setting
  password_file_of = setting as_file environ (lit "postgres_password_file") (some none)

  -- FeedConfig()
  unfoldable pub feed_config : Result Errors (FeedConfig fl.Float)
  unfolding service_config with_service tick_rate_of redis_url_of postgres_url_of password_file_of
      with_field
  feed_config =
      let service =
        with_service make_feed
          (service_config numbers.to_int environ (some (lit "feed-adapter-synthetic"))) in
      let rate = with_field service (lit "tick_rate_per_symbol") tick_rate_of in
      let redis = with_field rate (lit "redis_url") redis_url_of in
      let postgres = with_field redis (lit "postgres_url") postgres_url_of in
      with_field postgres (lit "postgres_password_file") password_file_of
