-- ===== src/Bootstrap/Connect.antt =====
-- internal/bootstrap/redis.go: the client's options and the ping that verifies the connection.
use fluffy_dollop.Base.Int.{ℤ}
use fluffy_dollop.Base.Text.{Text}
use fluffy_dollop.Go.Errors.{redis_connection_failed}
use fluffy_dollop.Go.Effect.{Io, pure, ◌>>◌, wrapping}
use fluffy_dollop.Config.Types.{RedisClientConfig}
use fluffy_dollop.Config.Addresses.{redis_addr}
use fluffy_dollop.Redis.{Redis}

pub record RedisOptions : Type 0 where
  pub addr : Text
  pub password : Text
  pub db : ℤ
  pub pool_size : ℤ
  pub min_idle_conns : ℤ

unfoldable pub redis_options : RedisClientConfig → RedisOptions
unfolding redis_addr
redis_options c = record {
  addr = redis_addr c;
  password = c.password;
  db = c.db;
  pool_size = c.pool_size;
  min_idle_conns = c.min_idle_conns;
}

-- The client is the one on these options; making it sends nothing.
module _ (R : Redis) where
  unfoldable pub setup_redis : Io R.State (Unit {0})
  setup_redis = wrapping redis_connection_failed R.ping >> pure tt
