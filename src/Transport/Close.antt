-- ===== src/Transport/Close.antt =====
-- What `poll_next` does when the peer closes the connection.
use clickhouse_rs.Transport.{Transport}
