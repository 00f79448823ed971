-- ===== src/Text/Message.antt =====
-- The loops of `parse_rtsp` and `parsesipmsg` over the lines of a message. They are the same but for
-- what they do with the first line and with a header line, which are parameters here.
use http2rtsp.Prelude.{
  ℕ, zero, suc, Bool, true, false, Option, none, some, ◌>>=◌, ◌++◌, ltb, if◌then◌else◌, length,
  drop,
}
use http2rtsp.Text.{Bytes, crlf, strstr}

-- How the loop ends: by `return -1`, or with `temp` where the headers end.
pub data Parsed {ℓ} (Msg : Type ℓ) : Type ℓ where
  rejected : Msg → Parsed Msg
  parsed : Msg → Bytes → Parsed Msg

module _ {ℓ} {Msg : Type ℓ} (first_line header : Msg → Bytes → Option Msg) where
  -- `none` is a fault of `header`, a line without an end, or fuel that runs out. `first_line` gives
  -- `none` for a method that is not supported.
  unfoldable pub parse_lines : ℕ → Bool → Msg → Bytes → Bytes → Option (Parsed Msg)
  parse_lines zero typeflag msg temp end = none
  parse_lines (suc fuel) typeflag msg temp end =
      if ltb (length end) (length temp)
      then elim (if typeflag then some msg else first_line msg temp) [
        | none ↦ some (rejected msg)
        | some named ↦ header named temp >>= λ read.
            strstr crlf temp >>= λ line_end. parse_lines fuel true read (drop 2 line_end) end
      ]
      else some (parsed msg temp)

  -- `end` is NULL if there is no empty line, and then no `temp` is before it.
  unfoldable pub parse_message : Msg → Bytes → Option (Parsed Msg)
  unfolding parse_lines
  parse_message empty buffer = elim (strstr (crlf ++ crlf) buffer) [
    | none ↦ some (parsed empty buffer)
    | some end ↦ parse_lines (suc (length buffer)) false empty buffer end
  ]
