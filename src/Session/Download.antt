-- ===== src/Session/Download.antt =====
-- A download that arrives in pieces, each one a turn of the main loop.
pub mod Complete
use http2rtsp.Prelude.{
  ℕ, ◌+◌, ◌-◌, ◌≤◌, ◌<◌, ◌≡◌, refl, ap, ◌∙◌, false, Option, some, ◌>>=◌, List, [], ◌∷◌, ◌++◌, ◌==◌,
  arith, append-nil, append_assoc, length, length-append,
}
use http2rtsp.Prelude.Int.{ℤ, pos, leb_ℤ, ◌-ℤ◌}
use http2rtsp.Text.{Bytes}
use http2rtsp.Sockets.{writestr}
use http2rtsp.Session.{recvtcp, Action, State, Outside}
use http2rtsp.Session.Media.{on_video_data, media_branch, on_media}

-- The turns for the pieces.
abbrev pub download : List Outside → State → Option (State × List Action)
download [] s = some (s, [])
download (o ∷ os) s = on_media o s >>= λ (s, a). download os s >>= λ (s, b). some (s, a ++ b)

-- A piece with a byte at least, all of which `writestr` writes.
abbrev pub IsPiece : Outside → Type 0
IsPiece o =
    (0 < length o.received)
    × (v : ℤ) × (writestr o.writes o.received ≡ some (record { value = v; taken = o.received }))

abbrev pub ArePieces : List Outside → Type 0
ArePieces [] = Unit
ArePieces (o ∷ os) = IsPiece o × ArePieces os

-- The text of the pieces.
abbrev pub pieces : List Outside → Bytes
pieces [] = []
pieces (o ∷ os) = o.received ++ pieces os

left_after : (n k : ℕ) → k ≤ n → pos n -ℤ pos k ≡ pos (n - k)
unfolding ◌-ℤ◌
left_after n k le = ground arith

pub on_video_data-piece :
    (o : Outside) (s : State) (n : ℕ)
    → s.videoleft ≡ pos n
    → length o.received < n
    → IsPiece o
    → on_video_data o s
      ≡ some (
        record s {
          video_file = s.video_file ++ o.received;
          videoleft = pos (n - length o.received);
        },
        [],
      )
unfolding on_video_data
on_video_data-piece o s n left short (there, v, written) =
    let more : leb_ℤ (pos (n - length o.received)) (pos 0) ≡ false = ground arith in
    let some_there : (length o.received == 0) ≡ false = ground arith in
    rw (written, left, left_after n (length o.received) (omega arith), more, some_there) refl

-- While fewer bytes have come than the response announced, the server goes on to wait for more: the
-- file has what it had and then exactly these pieces in order, videoleft falls by their bytes, and
-- nothing else changes. Each piece has a byte at least and all of it is written.
pub download-pieces :
    (os : List Outside) (s : State) (n : ℕ)
    → s.mediastate ≡ recvtcp
    → s.videoleft ≡ pos n
    → length (pieces os) < n
    → ArePieces os
    → download os s
      ≡ some (
        record s {
          video_file = s.video_file ++ pieces os;
          videoleft = pos (n - length (pieces os));
        },
        [],
      )
unfolding on_media
download-pieces [] s n state left short are =
    let same : pos (n - 0) ≡ s.videoleft = ground (arith, left) in
    rw (append-nil s.video_file, same) refl
download-pieces (o ∷ os) s n state left short (is, are) =
    let sizes = length-append o.received (pieces os) in
    let s' : State = record s {
      video_file = s.video_file ++ o.received;
      videoleft = pos (n - length o.received);
    } in
    let first : on_media o s ≡ some (s', []) =
      ap (λ m. media_branch m o s) state
      ∙ on_video_data-piece o s n left (omega (arith, sizes, short)) is in
    let rest =
      download-pieces os s' (n - length o.received) state refl (omega (arith, sizes, short)) are in
    let sum : n - length o.received - length (pieces os) ≡ n - length (o.received ++ pieces os) =
      omega (arith, sizes) in
    rw (first, rest, append_assoc s.video_file o.received (pieces os), sum) refl
