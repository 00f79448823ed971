-- ===== src/Video/Choice.antt =====
-- Which packets become video and which audio.
use http2rtsp.Prelude.{
  ℕ, suc, ◌≡◌, refl, ap₂, ◌∙◌, Bool, true, false, Option, none, some, List, [], ◌∷◌,
}
use http2rtsp.Prelude.Int.{ℤ, pos, negsuc}
use http2rtsp.Video.{CodecType, video_codec, audio_codec, other_codec, pick_streams, stream_indices}

-- The last stream of a kind, numbered from `i` on.
abbrev pub last_stream : (CodecType → Bool) → ℕ → List CodecType → Option ℕ
last_stream wanted i [] = none
last_stream wanted i (c ∷ streams) = elim (last_stream wanted (suc i) streams) [
  | some k ↦ some k
  | none ↦ elim (wanted c) [ true ↦ some i | false ↦ none ]
]

abbrev pub is_video : CodecType → Bool
is_video video_codec = true
is_video audio_codec = false
is_video other_codec = false

abbrev pub is_audio : CodecType → Bool
is_audio audio_codec = true
is_audio video_codec = false
is_audio other_codec = false

-- The index of a stream, or what was there before.
abbrev pub index_or : ℤ → Option ℕ → ℤ
index_or found none = found
index_or found (some k) = pos k

index_or-here :
    (found : ℤ) (i : ℕ) (rest : Option ℕ)
    → index_or (pos i) rest ≡ index_or found (elim rest [ some k ↦ some k | none ↦ some i ])
index_or-here found i none = refl
index_or-here found i (some k) = refl

index_or-past :
    (found : ℤ) (rest : Option ℕ)
    → index_or found rest ≡ index_or found (elim rest [ some k ↦ some k | none ↦ none ])
index_or-past found none = refl
index_or-past found (some k) = refl

abbrev pair : ℤ → ℤ → ℤ × ℤ
pair a b = (a, b)

pick_streams-last_stream :
    (i : ℕ) (streams : List CodecType) (video audio : ℤ)
    → pick_streams i streams video audio ≡ (
      index_or video (last_stream is_video i streams),
      index_or audio (last_stream is_audio i streams),
    )
unfolding pick_streams
pick_streams-last_stream i [] video audio = refl
pick_streams-last_stream i (video_codec ∷ streams) video audio =
    pick_streams-last_stream (suc i) streams (pos i) audio
    ∙ ap₂ pair (index_or-here video i (last_stream is_video (suc i) streams))
        (index_or-past audio (last_stream is_audio (suc i) streams))
pick_streams-last_stream i (audio_codec ∷ streams) video audio =
    pick_streams-last_stream (suc i) streams video (pos i)
    ∙ ap₂ pair (index_or-past video (last_stream is_video (suc i) streams))
        (index_or-here audio i (last_stream is_audio (suc i) streams))
pick_streams-last_stream i (other_codec ∷ streams) video audio =
    pick_streams-last_stream (suc i) streams video audio
    ∙ ap₂ pair (index_or-past video (last_stream is_video (suc i) streams))
        (index_or-past audio (last_stream is_audio (suc i) streams))

-- initialize_context stores the index of the last video stream and that of the last audio stream of the
-- file, each -1 if there is none.
pub stream_indices-last_stream :
    (streams : List CodecType)
    → stream_indices streams ≡ (
      index_or (negsuc 0) (last_stream is_video 0 streams),
      index_or (negsuc 0) (last_stream is_audio 0 streams),
    )
unfolding stream_indices
stream_indices-last_stream streams = pick_streams-last_stream 0 streams (negsuc 0) (negsuc 0)
