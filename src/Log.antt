-- ===== src/Log.antt =====
-- The log of fileio.c.
pub mod Entries
use http2rtsp.Prelude.{ℕ, Option, none, some, ◌>>=◌, [], ◌∷◌, ◌++◌, ◌==◌, if◌then◌else◌}
use http2rtsp.Prelude.Int.{pos}
use http2rtsp.Text.{Bytes, codes, fits, print_int}

abbrev pub logbufsize : ℕ
logbufsize = 256

-- The first line end of the time becomes a bracket; `none` is a write through a null pointer.
unfoldable pub close_time : Bytes → Option Bytes
close_time [] = none
close_time (c ∷ s) = if c == 10 then some (93 ∷ s) else (close_time s >>= λ t. some (c ∷ t))

-- The entry in `logbuf`: `time` is the text of `ctime_r`, `message` that of the arguments. `none` is
-- also a write behind the end.
unfoldable pub log_entry : Bytes → ℕ → Bytes → Option Bytes
unfolding close_time
log_entry time pid message = close_time time >>= λ closed.
    fits logbufsize (91 ∷ (closed ++ (32 ∷ (print_int (pos pid) ++ (codes " - " ++ message)))))

-- What `resolve_host` logs.
unfoldable pub resolve_entry : Bytes → ℕ → Bytes → Bytes → Option Bytes
resolve_entry time pid host port =
    log_entry time pid (codes "Resolving " ++ (host ++ (codes " port " ++ (port ++ codes "...\n"))))
