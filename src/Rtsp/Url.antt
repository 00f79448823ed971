-- ===== src/Rtsp/Url.antt =====
-- The URL of the media in httpmsg.c: its host, its path, and the HTTP request for it.
use http2rtsp.Prelude.{
  ℕ, zero, suc, ◌+◌, ◌-◌, Bool, true, false, ◌&&◌, Option, none, some, ◌>>=◌, [], ◌∷◌, ◌++◌, leb,
  ◌==◌, if◌then◌else◌, length, take, drop,
}
use http2rtsp.Text.{Bytes, codes}
use http2rtsp.Rtsp.{urlsize}

-- `strchr(s, c)`
unfoldable pub strchr : ℕ → Bytes → Option Bytes
strchr c [] = none
strchr c (d ∷ s) = if c == d then some (d ∷ s) else strchr c s

abbrev pub lower : ℕ → ℕ
lower c = if leb 65 c && leb c 90 then c + 32 else c

-- `strncasecmp(p, s, strlen(p)) == 0`, for a `p` in lower case
unfoldable pub starts_with_case : Bytes → Bytes → Bool
starts_with_case [] s = true
starts_with_case (c ∷ p) [] = false
starts_with_case (c ∷ p) (d ∷ s) = (c == lower d) && starts_with_case p s

-- The pointer behind the n-th slash; `none` is arithmetic on a null pointer.
unfoldable pub after_slashes : ℕ → Bytes → Option Bytes
unfolding strchr
after_slashes zero s = some s
after_slashes (suc n) s = strchr 47 s >>= λ t. after_slashes n (drop 1 t)

-- `snprintf(host, URLSIZE, ...)` keeps 499 bytes.
abbrev pub clipped : Bytes → Bytes
clipped s = take (urlsize - 1) s

-- `temppath` for a URL with the prefix: one byte before what follows the third slash.
abbrev pub third_slash : Bytes → Option Bytes
third_slash url = after_slashes 3 url >>= λ rest. some (drop (length url - length rest - 1) url)

abbrev pub split_at : Bytes → Bytes → Bytes × Bytes
split_at temphost temppath =
    (clipped (take (length temphost - length temppath) temphost), clipped temppath)

-- The host and the path; `none` if there is no slash before the path.
unfoldable pub parse_url : Bytes → Option (Bytes × Bytes)
unfolding after_slashes starts_with_case
parse_url url =
    if starts_with_case (codes "http://") url
    then (third_slash url >>= λ temppath. some (split_at (drop 7 url) temppath))
    else (strchr 47 url >>= λ temppath. some (split_at url temppath))

-- The request; its length is what the function returns.
unfoldable pub http_get : Bytes → Option Bytes
http_get url = parse_url url >>= λ (host, path). some (
    codes "GET "
    ++ (path
        ++ (codes " HTTP/1.1\r\nUser-Agent: http2rtsp\r\nHost: "
            ++ (host ++ codes "\r\nAccept: */*\r\n\r\n"))))
