-- ===== src/Session/Memory/Media.antt =====
-- The branch of the media source.
use http2rtsp.Prelude.{
  true, some, [], ◌∷◌, ◌++◌, ◌==◌, Every, Every->>=, Every-then, Every-if, if◌then◌else◌, length,
}
use http2rtsp.Prelude.Int.{pos, leb_ℤ}
use http2rtsp.Text.{codes, c_string, strstr}
use http2rtsp.Sockets.{writestr}
use http2rtsp.Session.{
  MediaState, info_live, idle, getsent, recvtcp, stream, closed, State, Outside,
}
use http2rtsp.Session.Requests.{send_sprop}
use http2rtsp.Session.Media.{
  http_header, stored, on_http_response, download_complete, on_video_data, media_branch, on_media,
}
use http2rtsp.Session.Memory.{HasQueue, HasQueueThen, Keeps, IsFresh}
use http2rtsp.Session.Memory.Requests.{Ready, Ready-Keeps, send_sprop-Keeps, one_check}

-- The end of the download.
download_complete-HasQueue :
    (o : Outside) (s : State) → Ready o s → Every HasQueueThen (download_complete o s)
unfolding download_complete
download_complete-HasQueue o s ready =
    let s0 : State = record s { media_downloaded = true; tinfo = info_live } in
    Every->>= (Keeps s0) HasQueueThen (send_sprop o o.sps s0) _ (send_sprop-Keeps o o.sps s0)
      (λ (s1, a1) k1.
        Every->>= (Keeps s1) HasQueueThen (send_sprop o o.pps s1) _ (send_sprop-Keeps o o.pps s1)
          (λ (s2, a2) k2.
            let (v, fresh) = Ready-Keeps o s1 s2 a2 (Ready-Keeps o s0 s1 a1 ready k1) k2 in
            one_check o.event1 o 1000 s2 _ v fresh.unused1 fresh.given1 (λ s3 v3 lives. v3)))

on_video_data-HasQueue :
    (o : Outside) (s : State) → Ready o s → Every HasQueueThen (on_video_data o s)
unfolding on_video_data
on_video_data-HasQueue o s ready = Every-then HasQueueThen (writestr o.writes o.received) _ (λ out.
    let closes = if length o.received == 0 then closed s.mediafd ∷ [] else [] in
    Every-if HasQueueThen (leb_ℤ (stored o out.taken s).videoleft (pos 0)) _
      (some (stored o out.taken s, closes))
      (Every->>= HasQueueThen HasQueueThen (download_complete o (stored o out.taken s))
        (λ (s', actions). some (s', closes ++ actions))
        (download_complete-HasQueue o (stored o out.taken s) ready) (λ r v. v))
      ready.0)

on_http_response-HasQueue :
    (o : Outside) (s : State) → HasQueue s → Every HasQueueThen (on_http_response o s)
unfolding on_http_response
on_http_response-HasQueue o s v = Every-then HasQueueThen (http_header o.peeked) _ (λ header.
    Every-then HasQueueThen (strstr (codes "Content-Length:") (c_string header)) _ (λ temp. v))

media_branch-HasQueue :
    (state : MediaState) (o : Outside) (s : State)
    → Ready o s
    → Every HasQueueThen (media_branch state o s)
media_branch-HasQueue idle o s ready = ready.0
media_branch-HasQueue getsent o s ready = on_http_response-HasQueue o s ready.0
media_branch-HasQueue recvtcp o s ready = on_video_data-HasQueue o s ready
media_branch-HasQueue stream o s ready = ready.0

pub on_media-HasQueue :
    (o : Outside) (s : State) → HasQueue s → IsFresh o s.store → Every HasQueueThen (on_media o s)
unfolding on_media
on_media-HasQueue o s v fresh = media_branch-HasQueue s.mediastate o s (v, fresh)
