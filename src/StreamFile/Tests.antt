-- ===== src/StreamFile/Tests.antt =====
-- Runs of src/stream_file.c, and its theorems at concrete inputs.
use tinyproxy.Base.{◌≡◌, refl, Bool, true, false, [], none, some, Bytes, codes, length, enoent}
use tinyproxy.StreamFile.{FileConn, at_eof, FileRun, serving, file_done, start_stream_file, Reached}
use tinyproxy.StreamFile.Delivered.{Delivers, start_stream_file-Delivers}
use tinyproxy.StreamFile.Finished.{drained, start_stream_file-Finishes}

abbrev takes : Bytes → Bool
takes bs = true

abbrev page : Bytes
page = codes "hi"

begins :
    start_stream_file takes none true page false
    ≡ (none, some (serving (record { left = []; broken = false; output = page; sent = [] })))
unfolding start_stream_file
begins = refl

empty_file :
    start_stream_file takes none true [] false
    ≡ (none, some (file_done at_eof (record { left = []; broken = false; output = []; sent = [] })))
unfolding start_stream_file
empty_file = refl

no_file : start_stream_file takes (some enoent) true page false ≡ (some enoent, none)
unfolding start_stream_file
no_file = refl

start_stream_file-Delivers_example :
    (first : FileRun) × (start_stream_file takes none true page false ≡ (none, some first))
    × ((run : FileRun) → Reached takes first run → Delivers page run)
start_stream_file-Delivers_example = start_stream_file-Delivers takes page false

start_stream_file-Finishes_example :
    (first : FileRun) × (last : FileConn) × (start_stream_file takes none true page false
      ≡ (none, some first))
    × (drained takes (length page) first ≡ some (file_done at_eof last))
    × (last.sent ≡ page)
start_stream_file-Finishes_example = start_stream_file-Finishes takes (λ bs. refl) page
