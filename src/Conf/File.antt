-- ===== src/Conf/File.antt =====
-- load_routes_from_file of src/file_conf.c.
use tinyproxy.Base.{
  ℕ, ◌==◌, Bool, not, List, [], Option, none, some, if◌then◌else◌, Bytes, length, Errno, enomem,
  eio, Result, ok, err,
}
use tinyproxy.Route.{Route}
use tinyproxy.Conf.Loader.{Memory, load_routes_from_text}

-- What the calls on the file give: the errors of fopen and of both calls of fseek, the position of
-- ftell, whether malloc gives memory, the bytes that fread stores, no more than were asked for, and
-- the error that the stream then has.
pub record FileCalls : Type 0 where
  pub fopen : Option Errno
  pub seek_end : Option Errno
  pub ftell : Result ℕ
  pub seek_set : Option Errno
  pub malloc : Bool
  pub fread : Bytes
  pub ferror : Option Errno

abbrev or_eio : Option Errno → Errno
or_eio none = eio
or_eio (some e) = e

abbrev read_data : FileCalls → ℕ → Result Bytes
read_data calls file_size =
    if file_size == 0
    then ok []
    else if not calls.malloc
    then err enomem
    else if length calls.fread == file_size
    then ok calls.fread
    else err (or_eio calls.ferror)

abbrev unless_failed {ℓ} : {A : Type ℓ} → Option Errno → Result A → Result A
unless_failed none rest = rest
unless_failed (some e) rest = err e

abbrev at_size : FileCalls → Result ℕ → Result Bytes
at_size calls (err e) = err e
at_size calls (ok file_size) = unless_failed calls.seek_set (read_data calls file_size)

-- The bytes of the file, up to the call of load_routes_from_text.
unfoldable pub file_data : FileCalls → Result Bytes
file_data calls =
    unless_failed calls.fopen (unless_failed calls.seek_end (at_size calls calls.ftell))

abbrev pub load_data : Memory → Result Bytes → Option (Result (List Route))
load_data mem (err e) = some (err e)
load_data mem (ok bytes) = load_routes_from_text mem bytes

-- `none` is a load_routes_from_text that is out of rounds.
unfoldable pub load_routes_from_file : Memory → FileCalls → Option (Result (List Route))
unfolding file_data
load_routes_from_file mem calls = load_data mem (file_data calls)
