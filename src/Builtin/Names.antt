-- ===== src/Builtin/Names.antt =====
-- The names of the builtins of src/x_builtins.c.
use tinyproxy.Base.{◌≡◌, ◌≢◌, refl, arith, Bytes, str_eq_iff, codes, ok}
use tinyproxy.Builtin.{XBuiltin, none_builtin, x_builtin_parse, x_builtin_name}

-- Each builtin but the unset one is read back from its name, and a text that is read as a builtin
-- is that builtin's name.
pub x_builtin_names :
    ((b : XBuiltin) → b ≢ none_builtin → x_builtin_parse (x_builtin_name b) ≡ ok b)
    × ((s : Bytes) (b : XBuiltin)
        → x_builtin_parse s ≡ ok b
        → (s ≡ x_builtin_name b) × (b ≢ none_builtin))
unfolding x_builtin_parse x_builtin_name
x_builtin_names = (named, read)
  where
    named : (b : XBuiltin) → b ≢ none_builtin → x_builtin_parse (x_builtin_name b) ≡ ok b
    named none_builtin h = absurd (h refl)
    named _ h = refl

    read :
        (s : Bytes) (b : XBuiltin)
        → x_builtin_parse s ≡ ok b
        → (s ≡ x_builtin_name b) × (b ≢ none_builtin)
    read s b h = ground (
      arith,
      str_eq_iff s (codes "client_addr"),
      str_eq_iff s (codes "discard"),
      str_eq_iff s (codes "hang"),
      str_eq_iff s (codes "http_ok"),
      str_eq_iff s (codes "log_conn"),
      str_eq_iff s (codes "close"),
    )
