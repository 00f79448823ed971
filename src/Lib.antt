-- ===== src/Lib.antt =====
-- HTTP2RTSP fetches a video over HTTP and serves it to one RTSP client as H.264 and PCMA over RTP;
-- the media server (mt_server.c) sends the audio to SIP clients instead.
--
-- The main loop of a server waits for its sockets with a timeout. A thread fills the event queue with
-- frames, and the loop takes each event at its time and sends it. Requests of the RTSP client change
-- the state of the session, and SIP messages change the list of the SIP clients.
--
-- Parts:
-- - Prelude: names of the libraries, Boolean tests, lists over the native numbers, signed integers.
-- - Time: `struct timeval` in server.c (calculate_delta, timecmp, the times of push_timeout and
--   set_timeval). Time/Laws counts in microseconds, Time/Producers is about the times that are made.
-- - Frame: `struct frame` of parse_video.h.
-- - Queue: the event queue of server.c (push_event, pull_event, push_timeout, empty_queue) in an explicit
--   memory, with insque and remque of POSIX. Chain, Invariant, Walk and Link are about the links, Push
--   and Pull about the operations for any times, Order, Sorted and Timeouts about the order by time,
--   and Clear about what is freed.
-- - Rtp: send_frame.c. Header is about the twelve bytes, Stream about the packets of a frame, Fragments
--   is a receiver, and Reassembly, Units and Delivery are about what it gets; Reads is about the
--   bytes of a frame that are read.
-- - Text: the functions on C strings that the parsers call. Message is the loop over the lines that
--   parse_rtsp and parsesipmsg have in common, Lines is about where it ends and Rows about a message written
--   line by line; Numbers and Words are about what `scanf` reads.
-- - Rtsp: httpmsg.c (parse_rtsp, write_rtsp and the answers), with parse_url and http_get in Url. Rows has
--   the lines of an answer, Fields and Reading how they are read, Readback the round trip.
-- - Sip: sipfunctions.c (parsesipmsg, create_ok, create_bye, write_sip). Clients is the client list in
--   mt_server.c: the branch of the SIP socket, the audio frames, the end of the stream. Table, Visits and
--   Audio are about them, Rejected is about a method that is not supported, Bye about create_bye; Rows,
--   Heard and Readback are about the messages that are made and read back.
-- - Session: start_server (server.c) and start_mt_server (mt_server.c). Session has the variables and a
--   new connection, Requests the branch of the client's socket, Media that of the media source, Events
--   that of the timeouts, Filler the thread fill_queue, Theatre the branches of start_mt_server, which
--   differ in the audio, the end of the stream and the SIP socket. States and Moves are about the client,
--   Download about a whole download, and Memory about what each branch leaves in memory, with Hangup
--   about the sockets that a TEARDOWN closes. Dispatch is the loop over the descriptors that select reports, with the
--   set that is watched: Watched and Branches are about the set, Order about the descriptors that are
--   served, Turns compares with System, and Describe is about a second connection to the source. Rounds is
--   the whole body of the loop, Runs its rounds with the thread's turns between them. Drain is about the
--   timeouts that empty a queue of frames. System takes the branches and the thread together: a step
--   relation of their turns, and the states that can be reached.
-- - Video: the choice of the streams, the parameter sets and get_frame of parse_video.c; Choice is about
--   the streams.
-- - Sockets: send_all, Sendto_all and the loops over addresses in socketfunc.c, writestr in fileio.c;
--   Connect has the other calls that wait or retry, Exits compares the loops that send.
-- - Log: write_log of fileio.c with the entry of resolve_host. Util: max and min of util.c. Options: the
--   options of main.c and the server that it starts.
-- - Tests: the theorems at concrete inputs.
--
-- Conventions: a function gives `none` where the code would read or write through a null or freed
-- pointer or behind the end of an array. send_video_frame has the packets for any bytes behind a frame's
-- buffer; its callers use checked_video_frame, which gives `none` if it reads further than what can be
-- read there. Loops run on fuel, with `none` if it runs out: one more than the size of the queue for its
-- loops, one more than the bytes that are left for the packets of a frame, one more than the length of the
-- text for the lines of a message, FD_SETSIZE for the descriptors.
-- Each round uses up an event, a byte, a line or a descriptor at least, so this is enough. Loops around
-- calls of the system run over the list of what the calls give. The int that timecmp returns and RTP's
-- sequence numbers wrap as in C; sizes, times and counters that stay far inside their range are integers.
--
-- A text that was received ends at its first zero byte for the parsers. The queue thread and the main
-- loop share the queue under a lock, which the thread releases in every round. A branch of the loop and a
-- round of the thread, with the test of the queue's size before it, are taken as one step each, in any
-- order; the one push that PLAY makes without the lock is taken so too.
--
-- What is not under the repository is an argument: the results of send, sendto, write, socket and
-- select, the addresses of malloc, the clock, random numbers, the packets and codecs of FFmpeg, the
-- video's parameter sets, and the rounding of one floating point sum. FD_SETSIZE is 1024.
--
-- Not modelled: the set-up of FFmpeg's contexts and the frame rates in parse_video.c; signal handlers and
-- debug output; the trial programs, of which tester.c, rtptest.c and parse_example.c are commented out and
-- timeouttest.c has a queue of its own.
pub mod Prelude
pub mod Time
pub mod Frame
pub mod Queue
pub mod Text
pub mod Rtsp
pub mod Sip
pub mod Session
pub mod Video
pub mod Util
pub mod Log
pub mod Options
pub mod Sockets
pub mod Rtp
mod Tests
