-- ===== src/Queue.antt =====
-- The event queue of server.c: a doubly linked list of `TimeoutEvent`s in memory, ordered by time.
-- `insque` and `remque` are those of POSIX, on a list that is not circular. A function returns `none`
-- where the code would read or write through a pointer that is null or freed.
pub mod Chain
pub mod Invariant
pub mod Walk
pub mod Link
pub mod Push
pub mod Pull
pub mod Order
pub mod Sorted
pub mod Timeouts
pub mod Clear
pub mod Grow
use http2rtsp.Prelude.{
  ℕ, zero, suc, Bool, true, false, not, ◌&&◌, Option, none, some, ◌>>=◌, ◌==◌, if◌then◌else◌,
}
use http2rtsp.Prelude.Int.{ℤ, pos, pos_part, leb_ℤ, ◌+ℤ◌, ◌-ℤ◌}
use http2rtsp.Time.{Timeval, timecmp, timeout_at}
use http2rtsp.Frame.{Frame}

abbrev pub Ptr : Type 0
Ptr = ℕ

abbrev pub null : Ptr
null = 0

-- `enum timeouttypes`
pub data TimeoutType : Type 0 where
  frame_event check_media_state end_of_stream : TimeoutType

-- The memory: the fields of the `TimeoutEvent` at each address, whether it is allocated, and the
-- frames, each with its data buffer.
pub record Store : Type 0 where
  pub live : Ptr → Bool
  pub next : Ptr → Ptr
  pub prev : Ptr → Ptr
  pub time : Ptr → Timeval
  pub type : Ptr → TimeoutType
  pub frame : Ptr → Ptr
  pub frames : Ptr → Option Frame

pub record Queue : Type 0 where
  pub first : Ptr
  pub last : Ptr
  pub size : ℤ

abbrev pub queuesize : ℕ
queuesize = 200

abbrev pub update {ℓ} : {A : Type ℓ} → (Ptr → A) → Ptr → A → Ptr → A
update f p v a = if a == p then v else f a

abbrev pub valid : Store → Ptr → Bool
valid h p = not (p == null) && h.live p

-- `p->next`, `p->prev` and `p->time`, and assignments to the two links
abbrev pub get_next : Store → Ptr → Option Ptr
get_next h p = if valid h p then some (h.next p) else none

abbrev pub get_prev : Store → Ptr → Option Ptr
get_prev h p = if valid h p then some (h.prev p) else none

abbrev pub get_time : Store → Ptr → Option Timeval
get_time h p = if valid h p then some (h.time p) else none

abbrev pub set_next : Store → Ptr → Ptr → Option Store
set_next h p v = if valid h p then some (record h { next = update h.next p v }) else none

abbrev pub set_prev : Store → Ptr → Ptr → Option Store
set_prev h p v = if valid h p then some (record h { prev = update h.prev p v }) else none

-- `insque(elem, pred)` with a `pred` that is not null
unfoldable pub insque : Store → Ptr → Ptr → Option Store
insque h elem pred = do
  following ← get_next h pred
  h ← set_next h pred elem
  h ← if following == null then some h else set_prev h following elem
  h ← set_next h elem following
  set_prev h elem pred

unfoldable pub remque : Store → Ptr → Option Store
remque h elem = do
  following ← get_next h elem
  preceding ← get_prev h elem
  h ← if following == null then some h else set_prev h following preceding
  if preceding == null then some h else set_next h preceding following

-- The test of the loop in `push_event`: the stepper's time is not before the event's.
abbrev pub not_before : Timeval → Timeval → Bool
not_before stepper event = leb_ℤ (timecmp stepper event) (pos 0)

-- The loop: back over the events whose time is not before `time`.
unfoldable pub step_back : ℕ → Store → Timeval → Ptr → Option Ptr
step_back zero h time stepper = none
step_back (suc fuel) h time stepper =
    let further = get_prev h stepper >>= step_back fuel h time in
    if stepper == null
    then some null
    else get_time h stepper >>= λ t. if not_before t time then further else some stepper

-- The two ways to link the event behind the loop.
unfoldable pub link_front : Ptr → Queue → Store → Option (Queue × Store)
link_front event q h = do
  h ← set_prev h q.first event
  h ← set_next h event q.first
  some (record q { first = event }, h)

unfoldable pub link_after : Ptr → Ptr → Queue → Store → Option (Queue × Store)
link_after event stepper q h = do
  h ← insque h event stepper
  following ← get_next h event
  some (if following == null then record q { last = event } else q, h)

unfoldable pub push_event : Ptr → Queue → Store → Option (Queue × Store)
push_event event q h = do
  h ← set_next h event null
  h ← set_prev h event null
  time ← get_time h event
  (q, h) ← if q.last == null then some (record q { first = event; last = event }, h) else (do
    stepper ← step_back (suc (pos_part q.size)) h time q.last
    if stepper == null then link_front event q h else link_after event stepper q h)
  some (record q { size = q.size +ℤ pos 1 }, h)

-- The result is the event that was first, or null.
unfoldable pub pull_event : Queue → Store → Option (Ptr × Queue × Store)
unfolding remque
pull_event q h = if q.first == null then some (null, q, h) else do
  following ← get_next h q.first
  h ← remque h q.first
  let size = q.size -ℤ pos 1
  some (
    q.first,
    (if leb_ℤ size (pos 0)
        then record { first = null; last = null; size = size }
        else record q { first = following; size = size }),
    h,
  )

-- `malloc` and the assignments to the fields; `event` is the address that `malloc` returns.
unfoldable pub new_event : Ptr → Timeval → TimeoutType → Ptr → Store → Option Store
new_event event time type frame h =
    if event == null
    then none
    else some (record h {
      live = update h.live event true;
      time = update h.time event time;
      type = update h.type event type;
      frame = update h.frame event frame;
    })

-- `now` is what `gettimeofday` gives.
unfoldable pub push_timeout :
    Ptr → Timeval → ℕ → TimeoutType → Queue → Store → Option (Queue × Store)
unfolding new_event
push_timeout event now time_ms type q h = do
  h ← new_event event (timeout_at now time_ms) type null h
  h ← set_next h event null
  h ← set_prev h event null
  push_event event q h

-- `free(event)`; the frame's buffer and the frame go together.
abbrev pub free_event : Store → Ptr → Option Store
free_event h p = if valid h p then some (record h { live = update h.live p false }) else none

abbrev pub free_frame : Store → Ptr → Option Store
free_frame h p = elim (h.frames p) [
  | none ↦ none
  | some f ↦ some (record h { frames = update h.frames p none })
]

unfoldable pub free_contents : TimeoutType → Store → Ptr → Option Store
free_contents frame_event h event = free_frame h (h.frame event)
free_contents check_media_state h event = some h
free_contents end_of_stream h event = some h

-- The loop of `empty_queue`, with the variable `next` read ahead as there.
unfoldable pub free_events : ℕ → Ptr → Ptr → Store → Option Store
free_events zero event following h = none
free_events (suc fuel) event following h =
    let rest = (do
      h ← free_contents (h.type event) h event
      h ← free_event h event
      ahead ← if following == null then some following else get_next h following
      free_events fuel following ahead h) in
    if event == null then some h else rest

unfoldable pub empty_queue : Queue → Store → Option (Queue × Store)
empty_queue q h = do
  following ← if q.first == null then some null else get_next h q.first
  h ← free_events (suc (pos_part q.size)) q.first following h
  some (record { first = null; last = null; size = pos 0 }, h)
