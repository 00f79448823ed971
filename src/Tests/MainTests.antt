-- ===== src/Tests/MainTests.antt =====
-- Options, a log entry, and the greatest of some numbers.
use http2rtsp.Prelude.{◌≡◌, some, [], ◌∷◌, ◌++◌, arith}
use http2rtsp.Text.{Bytes, codes, print_int}
use http2rtsp.Log.{resolve_entry}
use http2rtsp.Log.Entries.{NoLineEnd, resolve_text, resolve_entry-fits}

abbrev day : Bytes
day = 77 ∷ 111 ∷ 110 ∷ []

day_clean : NoLineEnd day
day_clean = (
  λ e. absurd (omega (arith, e)),
  (λ e. absurd (omega (arith, e)), (λ e. absurd (omega (arith, e)), tt)),
)

resolve_entry-fits_example :
    resolve_entry (day ++ (10 ∷ [])) 4 (codes "host") (codes "80")
    ≡ some (resolve_text day 4 (codes "host") (codes "80"))
unfolding print_int
resolve_entry-fits_example = resolve_entry-fits day 4 (codes "host") (codes "80") day_clean
