-- ===== src/Events.antt =====
-- Epoll event masks: the bits that include/async_frame/scheduler_type_traits.h names
-- (`register_type`) and those that `Scheduler::running` tests. The bits that no code reads are left
-- out. Events/Bits.antt relates a mask to its `uint32_t`.
pub mod Bits
use async_io_framework.Prelude.{ℕ, Bool, true, false, not, ◌&&◌, ◌||◌}

-- A `uint32_t` of `EPOLL…` bits.
pub record Events : Type 0 where
  pub readable : Bool
  pub writable : Bool
  pub error : Bool
  pub hangup : Bool
  pub edge : Bool

abbrev pub no_events : Events
no_events = record {
  readable = false;
  writable = false;
  error = false;
  hangup = false;
  edge = false;
}

-- `enum class register_type`. `event_accept` and `event_read` are one value, and so are
-- `event_connect` and `event_write`.
pub data RegisterType : Type 0 where
  empty_event event_read event_accept event_write event_connect event_timer : RegisterType

-- `std::to_underlying`
abbrev pub to_underlying : RegisterType → Events
to_underlying RegisterType.empty_event = no_events
to_underlying RegisterType.event_read = record no_events { readable = true }
to_underlying RegisterType.event_accept = record no_events { readable = true }
to_underlying RegisterType.event_write = record no_events { writable = true }
to_underlying RegisterType.event_connect = record no_events { writable = true }
to_underlying RegisterType.event_timer = record no_events { readable = true; edge = true }

-- `a | b`
abbrev pub union : Events → Events → Events
union a b = record {
  readable = a.readable || b.readable;
  writable = a.writable || b.writable;
  error = a.error || b.error;
  hangup = a.hangup || b.hangup;
  edge = a.edge || b.edge;
}

-- `a & ~b`
abbrev pub without : Events → Events → Events
without a b = record {
  readable = a.readable && not b.readable;
  writable = a.writable && not b.writable;
  error = a.error && not b.error;
  hangup = a.hangup && not b.hangup;
  edge = a.edge && not b.edge;
}

-- `a != 0`
abbrev pub any : Events → Bool
any a = a.readable || a.writable || a.error || a.hangup || a.edge

-- `(event & EVENT_READ) != 0` and `(event & EVENT_WRITE) != 0`
abbrev pub has_read : Events → Bool
has_read a = a.readable

abbrev pub has_write : Events → Bool
has_write a = a.writable

-- `(events & (EPOLLIN | EPOLLERR | EPOLLHUP)) != 0`
abbrev pub read_ready : Events → Bool
read_ready a = a.readable || a.error || a.hangup

-- `(events & (EPOLLOUT | EPOLLERR | EPOLLHUP)) != 0`
abbrev pub write_ready : Events → Bool
write_ready a = a.writable || a.error || a.hangup
