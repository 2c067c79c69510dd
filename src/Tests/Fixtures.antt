-- ===== src/Tests/Fixtures.antt =====
-- An epoll instance, a timerfd and an eventfd as tables and counters, with the states that the
-- examples start from.
use async_io_framework.Prelude.{
  ◌≡◌, ◌≢◌, ◌<◌, ◌==◌, ℕ, has, ◌+◌, refl, [], ◌∷◌, Option, none, some, Map, lookup, insert, erase,
  is_some, lookup-insert, lookup-erase, arith, if◌then◌else◌, ltb,
}
use async_io_framework.Events.{no_events, Events, RegisterType, to_underlying}
use async_io_framework.Epoll.{Epoll, EpollEvent, IsReliable}
use async_io_framework.Scheduler.{Scheduler}
use async_io_framework.Scheduler.Agreement.{Agrees}
use async_io_framework.Timer.{TimerFd, Timespec, nano, is_zero}
use async_io_framework.CancelToken.{EventFd, CancelToken, new_state}
use async_io_framework.Timer.{set_timer}
use async_io_framework.Timer.History.{Reach, initial, Reach-Settled}
use async_io_framework.Buffer.DynamicBuffer.{DynamicBuffer}
use async_io_framework.Buffer.Cursor.{dynamic_buffer}
use async_io_framework.Buffer.Filled.{IsWithin}
use async_io_framework.Awaiters.{System, World, Frame, reading}
use async_io_framework.Awaiters.Timers.{Kept, Sound, Sound-Kept, set_timer-Sound}

abbrev pub EpollTable : Type 0
EpollTable = Map EpollEvent

abbrev table_add : EpollTable → ℕ → EpollEvent → Option EpollTable
table_add k fd ev = if is_some (lookup fd k) then none else some (insert fd ev k)

abbrev table_mod : EpollTable → ℕ → EpollEvent → Option EpollTable
table_mod k fd ev = if is_some (lookup fd k) then some (insert fd ev k) else none

abbrev table_del : EpollTable → ℕ → Option EpollTable
table_del k fd = if is_some (lookup fd k) then some (erase fd k) else none

pub table-add :
    (k : EpollTable) (fd : ℕ) (ev : EpollEvent) (k' : EpollTable) (j : ℕ)
    → table_add k fd ev ≡ some k'
    → lookup j k' ≡ (if fd == j then some ev else lookup j k)
table-add k fd ev k' j h = grind (arith, lookup-insert)

pub table-mod :
    (k : EpollTable) (fd : ℕ) (ev : EpollEvent) (k' : EpollTable) (j : ℕ)
    → table_mod k fd ev ≡ some k'
    → lookup j k' ≡ (if fd == j then some ev else lookup j k)
table-mod k fd ev k' j h = grind (arith, lookup-insert)

pub table-del :
    (k : EpollTable) (fd : ℕ) (k' : EpollTable) (j : ℕ)
    → table_del k fd ≡ some k'
    → lookup j k' ≡ (if fd == j then none else lookup j k)
table-del k fd k' j h = grind (arith, lookup-erase)

pub table_registered :
    (k : EpollTable) (fd : ℕ) (ev : EpollEvent) → lookup fd k ≢ none → table_add k fd ev ≡ none
table_registered k fd ev h = ground arith

pub table_unregistered :
    (k : EpollTable) (fd : ℕ) (ev : EpollEvent)
    → lookup fd k ≡ none
    → (table_mod k fd ev ≡ none) × (table_del k fd ≡ none)
table_unregistered k fd ev h = ground arith

abbrev pub epoll_table : Epoll EpollTable
epoll_table = record {
  interest = λ k fd. lookup fd k;
  ctl_add = table_add;
  ctl_mod = table_mod;
  ctl_del = table_del;
  interest-add = table-add;
  interest-mod = table-mod;
  interest-del = table-del;
  add_registered = table_registered;
  mod_unregistered = λ k fd ev h. (table_unregistered k fd ev h).0;
  del_unregistered =
      λ k fd h. (table_unregistered k fd (record { events = no_events; fd = fd }) h).1;
}

pub epoll_table-IsReliable : IsReliable epoll_table
epoll_table-IsReliable = record {
  adds = λ k fd ev h. ground arith;
  mods = λ k fd ev h. ground arith;
  dels = λ k fd h. ground arith;
}

abbrev pub reads : Events
reads = to_underlying RegisterType.event_read

abbrev pub writes : Events
writes = to_underlying RegisterType.event_write

-- Descriptor 7 with the reader 100.
abbrev pub one_reader : Scheduler EpollTable
one_reader = record {
  epoll_manager = (7, record { events = reads; fd = 7 }) ∷ [];
  fd_to_op =
      (7, record { ev = record { events = reads; fd = 7 }; read = some 100; write = none }) ∷ [];
}

pub one_reader-Agrees : Agrees epoll_table one_reader
unfolding lookup
one_reader-Agrees = record { registered = λ fd. ground arith; entries = λ fd st h. ground arith }

abbrev settle : Timespec → Option Timespec
settle v = if is_zero v then none else some v

abbrev settle_valid : Timespec → Option (Option Timespec)
settle_valid v = if ltb v.tv_nsec nano then some (settle v) else none

pub settle-programmed :
    (v : Timespec) (t : Option Timespec)
    → settle_valid v ≡ some t
    → t ≡ (if is_zero v then none else some v)
settle-programmed v t h = ground arith

pub settle-valid : (v : Timespec) → v.tv_nsec < nano → settle_valid v ≢ none
settle-valid v h = ground arith

abbrev pub timerfd_table : TimerFd (Option Timespec)
timerfd_table = record {
  programmed = λ t. t;
  settime = λ t v. settle_valid v;
  settime-programmed = λ t v t' h. settle-programmed v t' h;
  read_expirations = λ t. t;
  read_expirations-programmed = λ t. refl;
  settime_valid = λ t v h. settle-valid v h;
}

abbrev pub eventfd_counter : EventFd ℕ
eventfd_counter = record {
  counter = λ e. e;
  write_one = λ e. e + 1;
  read_all = λ e. 0;
  counter-write_one = λ e. refl;
  counter-read_all = λ e. refl;
}

abbrev pub Program : Type 0
Program = World EpollTable (Option Timespec) ℕ DynamicBuffer

abbrev pub system : System EpollTable (Option Timespec) ℕ DynamicBuffer
system = record {
  epoll = epoll_table;
  timerfd = timerfd_table;
  eventfd = eventfd_counter;
  cursor = dynamic_buffer;
}

-- Nobody waits, and the buffer has one byte of four.
abbrev pub four : DynamicBuffer
four = record { buf = 9 ∷ 0 ∷ 0 ∷ 0 ∷ []; offset = 1 }

pub four-IsWithin : IsWithin dynamic_buffer four
four-IsWithin = record { fits = omega arith; small = omega arith }

abbrev pub idle : Program
idle = record {
  scheduler = record { epoll_manager = []; fd_to_op = [] };
  timer = initial timerfd_table none;
  token = new_state eventfd_counter 0;
  buf = four;
}

pub idle-Agrees : Agrees epoll_table idle.scheduler
unfolding lookup
idle-Agrees = record { registered = λ fd. refl; entries = λ fd st h. ground arith }

-- An operation on descriptor 7 with a token at descriptor 3 and the timerfd at 5.
abbrev pub frame : Frame
frame = record {
  conn_fd = 7;
  timer_fd = 5;
  operation = 100;
  timer_read = 101;
  cancel_read = 102;
  cancel_token = CancelToken.event 3;
}

pub idle-Sound : Sound timerfd_table idle.timer
unfolding has
idle-Sound = record {
  settled = Reach-Settled timerfd_table none refl Reach.here;
  readers = λ i task h. ground arith;
}

pub idle-Kept : Kept timerfd_table idle.timer
idle-Kept = Sound-Kept timerfd_table idle.timer idle-Sound

-- The same with the timer of `frame`, due at 30.
abbrev pub timed : Program
timed = record idle { timer = (set_timer timerfd_table 10 (reading 5 101) 20 idle.timer).1 }

pub timed-Sound : Sound timerfd_table timed.timer
timed-Sound =
    (set_timer-Sound timerfd_table 10 5 101 20 idle.timer idle-Kept (omega arith) (omega arith)).0

pub timed-Kept : Kept timerfd_table timed.timer
timed-Kept = Sound-Kept timerfd_table timed.timer timed-Sound
