-- ===== src/Builtin.antt =====
-- src/x_builtins.c and src/x_builtins.h.
pub mod Names
use tinyproxy.Base.{
  ℕ, ◌+◌, Bool, true, false, List, [], ◌∷◌, ◌++◌, Option, none, some, ltb, if◌then◌else◌, Bytes,
  codes, length, str_eq, Result, ok, err, einval, enospc,
}

pub data XBuiltin : Type 0 where
  none_builtin client_addr discard hang http_ok log_conn close : XBuiltin

pub data XBuiltinAction : Type 0 where
  close_action discard_action hang_action http_resp_action : XBuiltinAction

-- `client_addr` is `none` for the NULL pointer.
pub record XBuiltinRequest : Type 0 where
  pub builtin : XBuiltin
  pub client_addr : Option Bytes

-- `data` holds the first `data_len` bytes of the array.
pub record XBuiltinResponse : Type 0 where
  pub action : XBuiltinAction
  pub payload : Bytes

-- A call of LOG_INFO: its message, and the one field, a string that may be the NULL pointer.
pub record LogInfo : Type 0 where
  pub msg : Bytes
  pub key : Bytes
  pub value : Option Bytes

-- sizeof(res->data)
abbrev pub response_size : ℕ
response_size = 256

unfoldable pub x_builtin_parse : Bytes → Result XBuiltin
unfolding str_eq
x_builtin_parse s =
    if str_eq s (codes "client_addr")
    then ok client_addr
    else if str_eq s (codes "discard")
    then ok discard
    else if str_eq s (codes "hang")
    then ok hang
    else if str_eq s (codes "http_ok")
    then ok http_ok
    else if str_eq s (codes "log_conn")
    then ok log_conn
    else if str_eq s (codes "close")
    then ok close
    else err einval

unfoldable pub x_builtin_name : XBuiltin → Bytes
x_builtin_name client_addr = codes "client_addr"
x_builtin_name discard = codes "discard"
x_builtin_name hang = codes "hang"
x_builtin_name http_ok = codes "http_ok"
x_builtin_name log_conn = codes "log_conn"
x_builtin_name close = codes "close"
x_builtin_name none_builtin = codes "none"

abbrev pub http_ok_text : Bytes
http_ok_text = codes "HTTP/1.1 200 OK\r\nContent-Length: 2\r\nConnection: close\r\n\r\nOK"

abbrev respond : XBuiltinAction → Bytes → Result XBuiltinResponse
respond a text = ok (record { action = a; payload = text })

-- The line that snprintf prints, refused where it and its NUL do not fit the array.
client_addr_reply : Option Bytes → Result XBuiltinResponse
client_addr_reply none = err einval
client_addr_reply (some addr) =
    let line = addr ++ b'\n' ∷ [] in
    if ltb (length line) response_size then respond close_action line else err enospc

abbrev pub unlogged : Result XBuiltinResponse → Result XBuiltinResponse × List LogInfo
unlogged r = (r, [])

-- The switch of x_builtin_handle, with what it logs.
reply : XBuiltin → Option Bytes → Result XBuiltinResponse × List LogInfo
unfolding client_addr_reply
reply client_addr addr = unlogged (client_addr_reply addr)
reply http_ok addr = unlogged (respond http_resp_action http_ok_text)
reply discard addr = unlogged (respond discard_action [])
reply log_conn addr = (
  respond close_action [],
  record { msg = codes "log_conn"; key = codes "client_addr"; value = addr } ∷ [],
)
reply close addr = unlogged (respond close_action [])
reply hang addr = unlogged (respond hang_action [])
reply none_builtin addr = unlogged (err einval)

unfoldable pub x_builtin_handle : XBuiltinRequest → Result XBuiltinResponse × List LogInfo
unfolding reply
x_builtin_handle req = reply req.builtin req.client_addr
