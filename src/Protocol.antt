-- ===== src/Protocol.antt =====
-- src/binary/protocol.rs: the numbers of the native protocol.
use clickhouse_rs.Prelude.{ℕ}

abbrev pub dbms_min_revision_with_total_rows_in_progress : ℕ
dbms_min_revision_with_total_rows_in_progress = 51554

abbrev pub dbms_min_revision_with_server_timezone : ℕ
dbms_min_revision_with_server_timezone = 54058

abbrev pub dbms_min_revision_with_server_display_name : ℕ
dbms_min_revision_with_server_display_name = 54372

abbrev pub dbms_min_revision_with_version_patch : ℕ
dbms_min_revision_with_version_patch = 54401

abbrev pub dbms_min_revision_with_client_write_info : ℕ
dbms_min_revision_with_client_write_info = 54420

abbrev pub dbms_min_revision_with_custom_serialization : ℕ
dbms_min_revision_with_custom_serialization = 54454

abbrev pub client_data : ℕ
client_data = 2

abbrev pub server_hello : ℕ
server_hello = 0

abbrev pub server_data : ℕ
server_data = 1

abbrev pub server_exception : ℕ
server_exception = 2

abbrev pub server_progress : ℕ
server_progress = 3

abbrev pub server_pong : ℕ
server_pong = 4

abbrev pub server_end_of_stream : ℕ
server_end_of_stream = 5

abbrev pub server_profile_info : ℕ
server_profile_info = 6

abbrev pub server_totals : ℕ
server_totals = 7

abbrev pub server_extremes : ℕ
server_extremes = 8

abbrev pub server_table_columns : ℕ
server_table_columns = 11

abbrev pub server_profile_events : ℕ
server_profile_events = 14

abbrev pub dbms_min_revision_with_quota_key_in_client_info : ℕ
dbms_min_revision_with_quota_key_in_client_info = 54060

abbrev pub dbms_min_revision_with_settings_serialized_as_strings : ℕ
dbms_min_revision_with_settings_serialized_as_strings = 54429

abbrev pub dbms_min_revision_with_interserver_secret : ℕ
dbms_min_revision_with_interserver_secret = 54441

abbrev pub dbms_min_revision_with_opentelemetry : ℕ
dbms_min_revision_with_opentelemetry = 54442

abbrev pub dbms_min_revision_with_distributed_depth : ℕ
dbms_min_revision_with_distributed_depth = 54448

abbrev pub dbms_min_revision_with_initial_query_start_time : ℕ
dbms_min_revision_with_initial_query_start_time = 54449

abbrev pub dbms_min_revision_with_parallel_replicas : ℕ
dbms_min_revision_with_parallel_replicas = 54453

abbrev pub dbms_min_revision_with_parameters : ℕ
dbms_min_revision_with_parameters = 54459

abbrev pub client_hello : ℕ
client_hello = 0

abbrev pub client_query : ℕ
client_query = 1

abbrev pub client_cancel : ℕ
client_cancel = 3

abbrev pub client_ping : ℕ
client_ping = 4

abbrev pub compress_enable : ℕ
compress_enable = 1

abbrev pub compress_disable : ℕ
compress_disable = 0

abbrev pub state_complete : ℕ
state_complete = 2
