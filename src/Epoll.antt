-- ===== src/Epoll.antt =====
-- include/async_frame/epoll_manager.h: `Epoll_Manager`, over the kernel's epoll instance, which is
-- a parameter.
use async_io_framework.Prelude.{
  ℕ, ◌≡◌, ◌≢◌, Option, none, some, Action, ok, thrown, if◌then◌else◌, ◌==◌,
}
use async_io_framework.Events.{Events}

-- `epoll_event` with `data.fd`.
pub record EpollEvent : Type 0 where
  pub events : Events
  pub fd : ℕ

-- An epoll instance as epoll_ctl(2) describes it: `K` is its state, `interest` its interest list.
-- `none` stands for the return value -1, which leaves the instance as it was.
pub record Epoll (K : Type 0) : Type 0 where
  pub interest : K → ℕ → Option EpollEvent
  pub ctl_add : K → ℕ → EpollEvent → Option K
  pub ctl_mod : K → ℕ → EpollEvent → Option K
  pub ctl_del : K → ℕ → Option K
  pub interest-add :
      (k : K) (fd : ℕ) (ev : EpollEvent) (k' : K) (j : ℕ)
      → ctl_add k fd ev ≡ some k'
      → interest k' j ≡ (if fd == j then some ev else interest k j)
  pub interest-mod :
      (k : K) (fd : ℕ) (ev : EpollEvent) (k' : K) (j : ℕ)
      → ctl_mod k fd ev ≡ some k'
      → interest k' j ≡ (if fd == j then some ev else interest k j)
  pub interest-del :
      (k : K) (fd : ℕ) (k' : K) (j : ℕ)
      → ctl_del k fd ≡ some k'
      → interest k' j ≡ (if fd == j then none else interest k j)
  -- EEXIST and ENOENT.
  pub add_registered :
      (k : K) (fd : ℕ) (ev : EpollEvent) → interest k fd ≢ none → ctl_add k fd ev ≡ none
  pub mod_unregistered :
      (k : K) (fd : ℕ) (ev : EpollEvent) → interest k fd ≡ none → ctl_mod k fd ev ≡ none
  pub del_unregistered : (k : K) (fd : ℕ) → interest k fd ≡ none → ctl_del k fd ≡ none

-- No call fails for another reason: the descriptors are open and pollable, and memory suffices.
pub record IsReliable {K : Type 0} (os : Epoll K) : Type 0 where
  pub adds :
      (k : K) (fd : ℕ) (ev : EpollEvent) → os.interest k fd ≡ none → os.ctl_add k fd ev ≢ none
  pub mods :
      (k : K) (fd : ℕ) (ev : EpollEvent) → os.interest k fd ≢ none → os.ctl_mod k fd ev ≢ none
  pub dels : (k : K) (fd : ℕ) → os.interest k fd ≢ none → os.ctl_del k fd ≢ none

-- `if (ret == -1) ERR_MSG; return 1;`
abbrev pub or_throw : {K : Type 0} → Option K → Action K ℕ
or_throw none k = (thrown, k)
or_throw (some k') k = (ok 1, k')

module _ {K : Type 0} (os : Epoll K) where
  abbrev pub add : ℕ → EpollEvent → Action K ℕ
  add fd ev k = or_throw (os.ctl_add k fd ev) k

  -- `Epoll_Manager::modify`
  abbrev pub modify : ℕ → EpollEvent → Action K ℕ
  modify fd ev k = or_throw (os.ctl_mod k fd ev) k

  abbrev pub remove : ℕ → Action K ℕ
  remove fd k = or_throw (os.ctl_del k fd) k
