-- ===== src/Session/Media.antt =====
-- The branch of the media source in the main loops: the HTTP response, the download, and its end.
use http2rtsp.Prelude.{
  ◌+◌, ◌-◌, true, Option, some, ◌>>=◌, List, [], ◌∷◌, ◌++◌, ◌==◌, if◌then◌else◌, length, take, drop,
}
use http2rtsp.Prelude.Int.{pos, leb_ℤ, ◌-ℤ◌}
use http2rtsp.Text.{Bytes, codes, crlf, c_string, strstr, scan_int}
use http2rtsp.Sockets.{writestr}
use http2rtsp.Session.{
  MediaState, idle, getsent, recvtcp, stream, info_live, Action, closed, thread_started,
  file_closed, State, Outside,
}
use http2rtsp.Session.Requests.{send_sprop, push_check}

-- What the second `recv` reads: the bytes up to the empty line, which is looked for in the text that
-- was peeked at. `none` is a response with no empty line in it.
unfoldable pub http_header : Bytes → Option Bytes
http_header peeked = strstr (crlf ++ crlf) (c_string peeked) >>= λ temp.
    some (take (length (c_string peeked) - length temp + 4) peeked)

-- `GETSENT`: the size of the video; `none` also if the header has no length.
unfoldable pub on_http_response : Outside → State → Option (State × List Action)
on_http_response o s = http_header o.peeked >>= λ header.
    strstr (codes "Content-Length:") (c_string header) >>= λ temp.
    (let size = scan_int s.videosize (drop 15 temp) in
      some (record s { videosize = size; videoleft = size; mediastate = recvtcp }, []))

-- The download is complete: the queue thread starts and the parameter sets go out first.
unfoldable pub download_complete : Outside → State → Option (State × List Action)
download_complete o s =
    send_sprop o o.sps (record s { media_downloaded = true; tinfo = info_live }) >>= λ (s, first).
    send_sprop o o.pps s >>= λ (s, second). push_check o.event1 o 1000 s >>= λ s. some (
      record s { mediastate = stream },
      file_closed ∷ closed s.mediafd ∷ thread_started ∷ (first ++ second),
    )

-- The bytes that were received and written.
abbrev pub stored : Outside → Bytes → State → State
stored o taken s = record s {
  video_file = s.video_file ++ taken;
  videoleft = s.videoleft -ℤ pos (length o.received);
}

-- `RECVTCP`: a closed connection is closed here too, and counts as no bytes.
unfoldable pub on_video_data : Outside → State → Option (State × List Action)
on_video_data o s = writestr o.writes o.received >>= λ out.
    (let closes = if length o.received == 0 then closed s.mediafd ∷ [] else [] in
      let s' = stored o out.taken s in
      let complete = (download_complete o s' >>= λ (s, actions). some (s, closes ++ actions)) in
      if leb_ℤ s'.videoleft (pos 0) then complete else some (s', closes))

abbrev pub media_branch : MediaState → Outside → State → Option (State × List Action)
media_branch idle o s = some (s, [])
media_branch getsent o s = on_http_response o s
media_branch recvtcp o s = on_video_data o s
media_branch stream o s = some (s, [])

unfoldable pub on_media : Outside → State → Option (State × List Action)
on_media o s = media_branch s.mediastate o s
