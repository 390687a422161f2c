-- ===== src/Config/Addresses.antt =====
-- The addresses that internal/config/config.go builds.
use fluffy_dollop.Base.{◌++◌}
use fluffy_dollop.Base.Text.{Text, lit}
use fluffy_dollop.Config.Types.{
  ServerConfig, RedisClientConfig, PostgresClientConfig, ObservabilityConfig,
}

unfoldable pub server_addr : ServerConfig → Text
server_addr c = c.host ++ (lit ":" ++ c.port)

unfoldable pub redis_addr : RedisClientConfig → Text
redis_addr c = c.host ++ (lit ":" ++ c.port)

unfoldable pub postgres_dsn : PostgresClientConfig → Text
postgres_dsn c =
    lit "host="
    ++ (c.host
        ++ (lit " port="
            ++ (c.port
                ++ (lit " user="
                    ++ (c.user
                        ++ (lit " password="
                            ++ (c.password
                                ++ (lit " dbname="
                                    ++ (c.database ++ (lit " sslmode=" ++ c.ssl_mode))))))))))

unfoldable pub metrics_addr : {Float : Type 0} → ObservabilityConfig Float → Text
metrics_addr c = lit ":" ++ c.metrics_port
