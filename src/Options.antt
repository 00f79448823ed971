-- ===== src/Options.antt =====
-- main.c: the options, and the server that is started.
pub mod Choice
use http2rtsp.Prelude.{
  ◌-◌, Bool, true, false, ◌&&◌, List, [], ◌∷◌, take, length, ltb, ◌++◌, if◌then◌else◌,
}
use http2rtsp.Text.{Bytes}
use http2rtsp.Rtsp.{urlsize}

-- What `getopt` gives: an option with its argument, or one that is not known.
pub data Opt : Type 0 where
  source_opt listen_opt sip_opt : Bytes → Opt
  unknown_opt : Opt

-- The variables of `main`, `f`, `l` and `s` with their texts.
pub record Config : Type 0 where
  pub f : Bool
  pub l : Bool
  pub s : Bool
  pub httpsource : Bytes
  pub rtspport : Bytes
  pub sipport : Bytes

abbrev pub no_config : Config
no_config = record { f = false; l = false; s = false; httpsource = []; rtspport = []; sipport = [] }

-- What the process does: it prints the usage and exits, or starts one of the servers.
pub data Start : Type 0 where
  usage : Start
  start_server : Bytes → Bytes → Start
  start_mt_server : Bytes → Bytes → Bytes → Start

-- `strncpy(..., 9)` to an array of ten zeros, and to one that is not initialised: `stack` is the text
-- from its last byte on.
abbrev pub port_text : Bytes → Bytes
port_text s = take 9 s

abbrev pub sip_port_text : Bytes → Bytes → Bytes
sip_port_text stack s = if ltb (length s) 9 then s else take 9 s ++ stack

abbrev pub start_with : Config → Start
start_with c =
    if c.f && c.l
    then (if c.s
        then start_mt_server c.httpsource c.rtspport c.sipport
        else start_server c.httpsource c.rtspport)
    else usage

-- The loop over the options, and what follows it.
unfoldable pub main_loop : Bytes → List Opt → Config → Start
main_loop stack [] c = start_with c
main_loop stack (source_opt arg ∷ opts) c =
    main_loop stack opts (record c { httpsource = take (urlsize - 1) arg; f = true })
main_loop stack (listen_opt arg ∷ opts) c =
    main_loop stack opts (record c { rtspport = port_text arg; l = true })
main_loop stack (sip_opt arg ∷ opts) c =
    main_loop stack opts (record c { sipport = sip_port_text stack arg; s = true })
main_loop stack (unknown_opt ∷ opts) c = usage

unfoldable pub main : Bytes → List Opt → Start
unfolding main_loop
main stack opts = main_loop stack opts no_config
