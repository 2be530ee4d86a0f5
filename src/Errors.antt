-- ===== src/Errors.antt =====
-- src/errors/mod.rs: the library's errors and their conversion to `io::Error`.
-- An `io::Error` is its kind. The text of an `Other` error is named by a constructor of `Message`.
use clickhouse_rs.Prelude.{ℕ, ◌≡◌, refl, ◌↔◌, Bool, true, false, Bytes, arith}

-- The kinds that the code tells apart; `another_kind` stands for all the remaining ones.
pub data ErrorKind : Type 0 where
  would_block broken_pipe connection_refused other_kind : ErrorKind
  another_kind : ℕ → ErrorKind

pub data DriverError : Type 0 where
  overflow unexpected_packet timeout utf8_error unsupported_custom_serialization : DriverError
  unknown_packet : ℕ → DriverError
  deserialize : Bytes → DriverError
  invalid_parameter_name : Bytes → DriverError
  query_parameters_unsupported : ℕ → ℕ → DriverError

pub data ConnectionError : Type 0 where
  tls_host_not_provided broken : ConnectionError
  io_error : ErrorKind → ConnectionError
  -- With TLS; its error is of a library.
  tls_error : ConnectionError

pub data UrlError : Type 0 where
  invalid parse_error : UrlError
  invalid_param_value : Bytes → Bytes → UrlError
  unknown_parameter : Bytes → UrlError
  unsupported_scheme : Bytes → UrlError

pub data FromSqlError : Type 0 where
  invalid_type : Bytes → Bytes → FromSqlError
  out_of_range unsupported_operation : FromSqlError

pub record ServerError : Type 0 where
  pub code : ℕ
  pub name : Bytes
  pub message : Bytes
  pub stack_trace : Bytes

pub data Message : Type 0 where
  unsupported_compression_method : ℕ → Message
  compressed_data_too_big data_was_corrupted cannot_decompress_data : Message
  from_utf8_error : Message
  text : Bytes → Message

pub data Error : Type 0 where
  driver : DriverError → Error
  io : ErrorKind → Error
  connection : ConnectionError → Error
  other : Message → Error
  server : ServerError → Error
  url : UrlError → Error
  from_sql : FromSqlError → Error

-- `e.kind() == io::ErrorKind::WouldBlock`
unfoldable pub is_would_block_kind : ErrorKind → Bool
is_would_block_kind would_block = true
is_would_block_kind broken_pipe = false
is_would_block_kind connection_refused = false
is_would_block_kind other_kind = false
is_would_block_kind (another_kind n) = false

unfoldable pub is_would_block : Error → Bool
unfolding is_would_block_kind
is_would_block (io k) = is_would_block_kind k
is_would_block (driver e) = false
is_would_block (connection e) = false
is_would_block (other m) = false
is_would_block (server e) = false
is_would_block (url e) = false
is_would_block (from_sql e) = false

-- `impl From<Error> for io::Error`
unfoldable pub to_io_error : Error → ErrorKind
to_io_error (io k) = k
to_io_error (driver e) = other_kind
to_io_error (connection e) = other_kind
to_io_error (other m) = other_kind
to_io_error (server e) = other_kind
to_io_error (url e) = other_kind
to_io_error (from_sql e) = other_kind

-- The conversion to an `io::Error` neither hides nor invents a `WouldBlock`.
pub is_would_block-to_io_error :
    (e : Error) → is_would_block_kind (to_io_error e) ≡ is_would_block e
unfolding is_would_block to_io_error
is_would_block-to_io_error (io k) = refl
is_would_block-to_io_error (driver e) = refl
is_would_block-to_io_error (connection e) = refl
is_would_block-to_io_error (other m) = refl
is_would_block-to_io_error (server e) = refl
is_would_block-to_io_error (url e) = refl
is_would_block-to_io_error (from_sql e) = refl

-- `is_would_block` holds of one error only.
pub is_would_block_iff : (e : Error) → (is_would_block e ≡ true) ↔ (e ≡ io would_block)
unfolding is_would_block
is_would_block_iff e = ground arith
