-- ===== src/Sniff/Hello.antt =====
-- parse_sni_from_client_hello of src/stream_sniff.c, cut where its comments cut it. Each part
-- takes the position that it starts at, and the loops take the number of rounds that they may use.
pub mod Safety
use tinyproxy.Base.{
  ℕ, zero, suc, ◌+◌, ◌%◌, Bool, true, false, not, ◌&&◌, ◌||◌, [], ◌∷◌, some, ltb, leb, ◌==◌,
  if◌then◌else◌, Bytes, length,
}
use tinyproxy.Sniff.Reader.{
  parsed, missing, not_tls, name_too_long, parse_error, stream_sni_max, stopped, starved, Parse,
  value, answer, no_fuel, ◌>>=◌, ◌>>◌, stop_if, byte_at, read_u16_be, read_u24_be, slice_at,
}

-- isalnum in the C locale
abbrev pub is_alnum : ℕ → Bool
is_alnum c = leb b'0' c && leb c b'9' || leb b'A' c && leb c b'Z' || leb b'a' c && leb c b'z'

abbrev pub is_host_char : ℕ → Bool
is_host_char c = is_alnum c || c == b'-' || c == b'.'

-- The loop of valid_sni_name.
unfoldable pub all_host_chars : Bytes → Bool
all_host_chars [] = true
all_host_chars (c ∷ cs) = is_host_char c && all_host_chars cs

unfoldable pub valid_sni_name : Bytes → Bool
unfolding all_host_chars
valid_sni_name name =
    if length name == 0 || ltb stream_sni_max (length name) then false else all_host_chars name

-- The TLS record header; gives `record_end`.
pub tls_record : Bytes → Parse ℕ
tls_record buf = do
  stop_if (length buf == 0) starved
  content_type ← byte_at buf 0
  stop_if (not (content_type == 0x16)) (stopped not_tls)
  stop_if (ltb (length buf) 5) starved
  major ← byte_at buf 1
  stop_if (not (major == 0x03)) (stopped parse_error)
  record_len ← read_u16_be buf 3
  stop_if (record_len == 0) (stopped parse_error)
  stop_if (ltb (length buf) (5 + record_len)) starved
  value (5 + record_len)

-- The handshake header, at 5; gives `hs_end`, and the body starts at 9.
pub handshake : Bytes → ℕ → Parse ℕ
handshake buf record_end = do
  stop_if (ltb record_end 9) (stopped parse_error)
  handshake_type ← byte_at buf 5
  stop_if (not (handshake_type == 0x01)) (stopped not_tls)
  hs_len ← read_u24_be buf 6
  stop_if (hs_len == 0 || ltb record_end (9 + hs_len)) (stopped parse_error)
  value (9 + hs_len)

-- The version, the random and the session id; gives the next position.
pub skip_session_id : Bytes → ℕ → Parse ℕ
skip_session_id buf hs_end = do
  stop_if (ltb hs_end (9 + 2 + 32 + 1)) (stopped parse_error)
  session_id_len ← byte_at buf 43
  stop_if (ltb hs_end (44 + session_id_len)) (stopped parse_error)
  value (44 + session_id_len)

pub skip_cipher_suites : Bytes → ℕ → ℕ → Parse ℕ
skip_cipher_suites buf hs_end pos = do
  stop_if (ltb hs_end (pos + 2)) (stopped parse_error)
  cipher_suites_len ← read_u16_be buf pos
  stop_if (cipher_suites_len == 0 || not (cipher_suites_len % 2 == 0)) (stopped parse_error)
  stop_if (ltb hs_end (pos + 2 + cipher_suites_len)) (stopped parse_error)
  value (pos + 2 + cipher_suites_len)

pub skip_compression_methods : Bytes → ℕ → ℕ → Parse ℕ
skip_compression_methods buf hs_end pos = do
  stop_if (ltb hs_end (pos + 1)) (stopped parse_error)
  compression_methods_len ← byte_at buf pos
  stop_if (compression_methods_len == 0) (stopped parse_error)
  stop_if (ltb hs_end (pos + 1 + compression_methods_len)) (stopped parse_error)
  value (pos + 1 + compression_methods_len)

-- The length of the extensions, which must end the handshake message.
pub extensions_start : Bytes → ℕ → ℕ → Parse ℕ
extensions_start buf hs_end pos = do
  stop_if (pos == hs_end) (stopped missing)
  stop_if (ltb hs_end (pos + 2)) (stopped parse_error)
  extensions_len ← read_u16_be buf pos
  stop_if (not (pos + 2 + extensions_len == hs_end)) (stopped parse_error)
  value (pos + 2)

-- A host_name entry: the checks, and the copy to `out`.
pub host_name : Bytes → ℕ → ℕ → ℕ → Parse ⊥
host_name buf out_len list_pos name_len = do
  stop_if (ltb stream_sni_max name_len) (stopped name_too_long)
  name ← slice_at buf list_pos name_len
  stop_if (not (valid_sni_name name)) (stopped parse_error)
  stop_if (ltb out_len (name_len + 1)) (stopped name_too_long)
  answer (record { status = parsed; wants_more = false; out = some name })

-- The loop over the server_name list.
pub server_names : ℕ → Bytes → ℕ → ℕ → ℕ → Parse ⊥
server_names zero buf out_len list_end list_pos = no_fuel
server_names (suc rounds) buf out_len list_end list_pos =
    if leb (list_pos + 3) list_end
    then (do
      name_type ← byte_at buf list_pos
      name_len ← read_u16_be buf (list_pos + 1)
      stop_if (ltb list_end (list_pos + 3 + name_len)) (stopped parse_error)
      let others = server_names rounds buf out_len list_end (list_pos + 3 + name_len)
      if name_type == 0 then host_name buf out_len (list_pos + 3) name_len else others)
    else answer (stopped missing)

-- The server_name extension, whose data stands from `ext_data` to `ext_end`.
pub server_name : Bytes → ℕ → ℕ → ℕ → Parse ⊥
server_name buf out_len ext_data ext_len = do
  stop_if (ltb ext_len 2) (stopped parse_error)
  list_len ← read_u16_be buf ext_data
  stop_if (not (ext_data + 2 + list_len == ext_data + ext_len)) (stopped parse_error)
  server_names (suc list_len) buf out_len (ext_data + ext_len) (ext_data + 2)

-- The loop over the extensions.
pub extensions : ℕ → Bytes → ℕ → ℕ → ℕ → Parse ⊥
extensions zero buf out_len extensions_end pos = no_fuel
extensions (suc rounds) buf out_len extensions_end pos =
    if leb (pos + 4) extensions_end
    then (do
      ext_type ← read_u16_be buf pos
      ext_len ← read_u16_be buf (pos + 2)
      stop_if (ltb extensions_end (pos + 4 + ext_len)) (stopped parse_error)
      let others = extensions rounds buf out_len extensions_end (pos + 4 + ext_len)
      if ext_type == 0 then server_name buf out_len (pos + 4) ext_len else others)
    else answer (stopped (if pos == extensions_end then missing else parse_error))

-- Everything behind the record header.
pub hello_body : Bytes → ℕ → ℕ → Parse ⊥
hello_body buf out_len record_end = do
  hs_end ← handshake buf record_end
  ciphers ← skip_session_id buf hs_end
  methods ← skip_cipher_suites buf hs_end ciphers
  rest ← skip_compression_methods buf hs_end methods
  first ← extensions_start buf hs_end rest
  extensions (suc hs_end) buf out_len hs_end first

unfoldable pub parse_sni_from_client_hello : Bytes → ℕ → Parse ⊥
unfolding tls_record hello_body handshake skip_session_id skip_cipher_suites
    skip_compression_methods extensions_start extensions server_name server_names host_name
    valid_sni_name
parse_sni_from_client_hello buf out_len = do
  record_end ← tls_record buf
  hello_body buf out_len record_end
