-- ===== src/Options/Choice.antt =====
-- Which server main starts, and with what.
use http2rtsp.Prelude.{
  ◌-◌, ◌≡◌, refl, ap, ◌∙◌, Bool, true, false, Option, none, some, List, [], ◌∷◌, take,
  if◌then◌else◌,
}
use http2rtsp.Text.{Bytes}
use http2rtsp.Rtsp.{urlsize}
use http2rtsp.Options.{
  Opt, source_opt, listen_opt, sip_opt, unknown_opt, Config, no_config, Start, usage, start_server,
  start_mt_server, port_text, sip_port_text, start_with, main_loop, main,
}

abbrev pub or_else {ℓ} : {A : Type ℓ} → Option A → Option A → Option A
or_else none d = d
or_else (some a) d = some a

-- The last argument of an option, if it was given.
abbrev pub last_source : List Opt → Option Bytes
last_source [] = none
last_source (source_opt arg ∷ opts) = or_else (last_source opts) (some arg)
last_source (listen_opt arg ∷ opts) = last_source opts
last_source (sip_opt arg ∷ opts) = last_source opts
last_source (unknown_opt ∷ opts) = last_source opts

abbrev pub last_listen : List Opt → Option Bytes
last_listen [] = none
last_listen (listen_opt arg ∷ opts) = or_else (last_listen opts) (some arg)
last_listen (source_opt arg ∷ opts) = last_listen opts
last_listen (sip_opt arg ∷ opts) = last_listen opts
last_listen (unknown_opt ∷ opts) = last_listen opts

abbrev pub last_sip : List Opt → Option Bytes
last_sip [] = none
last_sip (sip_opt arg ∷ opts) = or_else (last_sip opts) (some arg)
last_sip (source_opt arg ∷ opts) = last_sip opts
last_sip (listen_opt arg ∷ opts) = last_sip opts
last_sip (unknown_opt ∷ opts) = last_sip opts

abbrev pub any_unknown : List Opt → Bool
any_unknown [] = false
any_unknown (unknown_opt ∷ opts) = true
any_unknown (source_opt arg ∷ opts) = any_unknown opts
any_unknown (listen_opt arg ∷ opts) = any_unknown opts
any_unknown (sip_opt arg ∷ opts) = any_unknown opts

-- A variable after the loop: the last argument, cut, or what it was before.
abbrev given : Bool → Option Bytes → Bool
given b none = b
given b (some arg) = true

abbrev set_to : (Bytes → Bytes) → Bytes → Option Bytes → Bytes
set_to cut old none = old
set_to cut old (some arg) = cut arg

abbrev source_text : Bytes → Bytes
source_text arg = take (urlsize - 1) arg

abbrev configured : Bytes → List Opt → Config → Config
configured stack opts c = record {
  f = given c.f (last_source opts);
  l = given c.l (last_listen opts);
  s = given c.s (last_sip opts);
  httpsource = set_to source_text c.httpsource (last_source opts);
  rtspport = set_to port_text c.rtspport (last_listen opts);
  sipport = set_to (sip_port_text stack) c.sipport (last_sip opts);
}

given-or_else :
    (b : Bool) (o : Option Bytes) (arg : Bytes) → given true o ≡ given b (or_else o (some arg))
given-or_else b none arg = refl
given-or_else b (some a) arg = refl

set_to-or_else :
    (cut : Bytes → Bytes) (old : Bytes) (o : Option Bytes) (arg : Bytes)
    → set_to cut (cut arg) o ≡ set_to cut old (or_else o (some arg))
set_to-or_else cut old none arg = refl
set_to-or_else cut old (some a) arg = refl

main_loop-configured :
    (stack : Bytes) (opts : List Opt) (c : Config)
    → main_loop stack opts c
      ≡ (if any_unknown opts then usage else start_with (configured stack opts c))
unfolding main_loop
main_loop-configured stack [] c = refl
main_loop-configured stack (source_opt arg ∷ opts) c =
    main_loop-configured stack opts (record c { httpsource = source_text arg; f = true })
    ∙ rw
        (
          given-or_else c.f (last_source opts) arg,
          set_to-or_else source_text c.httpsource (last_source opts) arg,
        )
        refl
main_loop-configured stack (listen_opt arg ∷ opts) c =
    main_loop-configured stack opts (record c { rtspport = port_text arg; l = true })
    ∙ rw
        (
          given-or_else c.l (last_listen opts) arg,
          set_to-or_else port_text c.rtspport (last_listen opts) arg,
        )
        refl
main_loop-configured stack (sip_opt arg ∷ opts) c =
    main_loop-configured stack opts (record c { sipport = sip_port_text stack arg; s = true })
    ∙ rw
        (
          given-or_else c.s (last_sip opts) arg,
          set_to-or_else (sip_port_text stack) c.sipport (last_sip opts) arg,
        )
        refl
main_loop-configured stack (unknown_opt ∷ opts) c = refl

-- What the options ask for.
abbrev pub asked : Bytes → Option Bytes → Option Bytes → Option Bytes → Start
asked stack none listen sip = usage
asked stack (some source) none sip = usage
asked stack (some source) (some listen) none = start_server (source_text source) (port_text listen)
asked stack (some source) (some listen) (some sip) =
    start_mt_server (source_text source) (port_text listen) (sip_port_text stack sip)

start_with-asked :
    (stack : Bytes) (source listen sip : Option Bytes)
    → start_with (record {
      f = given false source;
      l = given false listen;
      s = given false sip;
      httpsource = set_to source_text [] source;
      rtspport = set_to port_text [] listen;
      sipport = set_to (sip_port_text stack) [] sip;
    })
      ≡ asked stack source listen sip
start_with-asked stack none listen sip = refl
start_with-asked stack (some source) none sip = refl
start_with-asked stack (some source) (some listen) none = refl
start_with-asked stack (some source) (some listen) (some sip) = refl

-- main prints the usage if an option is not known or if -f or -l is missing; otherwise it starts the
-- media server if there is an -s and else the RTSP server, with the last argument of each option, cut
-- to the size of its array.
pub main-asked :
    (stack : Bytes) (opts : List Opt)
    → main stack opts ≡ (
        if any_unknown opts
        then usage
        else asked stack (last_source opts) (last_listen opts) (last_sip opts))
unfolding main
main-asked stack opts =
    main_loop-configured stack opts no_config
    ∙ ap (λ (s : Start). if any_unknown opts then usage else s)
        (start_with-asked stack (last_source opts) (last_listen opts) (last_sip opts))
