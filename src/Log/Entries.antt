-- ===== src/Log/Entries.antt =====
-- The entry that resolve_host logs, and the array that it is written into.
use http2rtsp.Prelude.{
  ℕ, ◌+◌, ◌≡◌, ◌≢◌, refl, false, none, some, [], ◌∷◌, ◌++◌, ◌==◌, arith, length, length-append,
  if◌then◌else◌, ltb,
}
use http2rtsp.Prelude.Int.{pos}
use http2rtsp.Text.{Bytes, codes, print_int}
use http2rtsp.Log.{close_time, log_entry, resolve_entry}

-- A text without a line end.
abbrev pub NoLineEnd : Bytes → Type 0
NoLineEnd [] = Unit
NoLineEnd (c ∷ s) = (c ≢ 10) × NoLineEnd s

close_time-lem : (t : Bytes) → NoLineEnd t → close_time (t ++ (10 ∷ [])) ≡ some (t ++ (93 ∷ []))
unfolding close_time
close_time-lem [] clean = refl
close_time-lem (c ∷ t) (other, clean) =
    let differs : (c == 10) ≡ false = ground arith in rw (differs, close_time-lem t clean) refl

-- The text of the entry.
abbrev pub resolve_text : Bytes → ℕ → Bytes → Bytes → Bytes
resolve_text t pid host port =
    91
    ∷ ((t ++ (93 ∷ []))
        ++ (32
            ∷ (print_int (pos pid)
                ++ (codes " - "
                    ++ (codes "Resolving "
                        ++ (host ++ (codes " port " ++ (port ++ codes "...\n"))))))))

length-resolve_text :
    (t : Bytes) (pid : ℕ) (host port : Bytes)
    → length (resolve_text t pid host port)
      ≡ 26 + length t + length (print_int (pos pid)) + length host + length port
length-resolve_text t pid host port =
    rw
      (
        length-append (t ++ (93 ∷ [])) (
            32
            ∷ (print_int (pos pid)
                ++ (codes " - "
                    ++ (codes "Resolving "
                        ++ (host ++ (codes " port " ++ (port ++ codes "...\n"))))))),
        length-append t (93 ∷ []),
        length-append (print_int (pos pid)) (
            codes " - "
            ++ (codes "Resolving " ++ (host ++ (codes " port " ++ (port ++ codes "...\n"))))),
        length-append host (codes " port " ++ (port ++ codes "...\n")),
        length-append port (codes "...\n"),
      )
      (omega arith)

-- With the text of `ctime_r`, one line, the entry for a host and a port is written behind the end of
-- the array if it has 256 bytes or more, counting 26 fixed ones and the time, the process number, the
-- host and the port, and is the line with all of them otherwise.
pub resolve_entry-fits :
    (t : Bytes) (pid : ℕ) (host port : Bytes)
    → NoLineEnd t
    → resolve_entry (t ++ (10 ∷ [])) pid host port ≡ (
        if ltb (26 + length t + length (print_int (pos pid)) + length host + length port) 256
        then some (resolve_text t pid host port)
        else none)
unfolding resolve_entry log_entry
resolve_entry-fits t pid host port clean =
    rw (close_time-lem t clean) (ground (arith, length-resolve_text t pid host port))
