-- ===== src/Drive/Launch/Release.antt =====
-- The descriptors of `virtual_drive` in src/virtual_drive.h: a constructor that fails gives back
-- what it opened.
use coursework_file_system.Prelude.{
  ℕ, ◌≡◌, refl, sym, ap, ◌∙◌, subst, Bool, true, false, Option, none, some, List, [], ◌∷◌,
  Bool-cases, inl, inr, ==_self, ==_ne, ℕ_discrete,
}
use coursework_file_system.Bytes.{Bytes}
use coursework_file_system.Run.{Run, done, thrown, ErrorCode}
use coursework_file_system.Drive.{product, refused}
use coursework_file_system.Socket.Handle.{
  SocketHandle, ServerSocket, System, Net, Opened, descriptor, no_descriptor, Event, opened,
  closed_fd, destruct, server_socket,
}
use coursework_file_system.Socket.Handle.Owners.{live, Clean}
use coursework_file_system.Socket.Handle.Lifetime.{server_socket-Opens}
use coursework_file_system.Drive.Launch.{
  Files, abandoned, mapped, ended, sought, file_with, launch_body, launch,
}

-- Only open descriptors were closed, and just those of before are open.
abbrev pub Released : List Event → List Event → Type 0
Released before after = Clean after × ((fd : ℕ) → live after fd ≡ live before fd)

module _ (log : List Event) (clean : Clean log) (a : ℕ) (fresh : live log a ≡ false) where
  live-given_back :
      (log' : List Event) (x : ℕ)
      → ((fd : ℕ) → live log' fd ≡ live (opened a ∷ log) fd)
      → live (closed_fd a ∷ log') x ≡ live log x
  live-given_back log' x same = elim (ℕ_discrete x a) [
    | yes e ↦ rw (e, ==_self a) (sym fresh)
    | no ne ↦ rw (==_ne x a ne) (same x ∙ rw (==_ne x a ne) refl)
  ]

  -- What was opened last is closed.
  Released-given_back :
      (log' : List Event) → Released (opened a ∷ log) log' → Released log (closed_fd a ∷ log')
  Released-given_back log' (clean', same) =
      ((same a ∙ rw (==_self a) refl, clean'), λ x. live-given_back log' x same)

module _ {W : Type 0} (net : Net W) (files : Files W) (log : List Event) (clean : Clean log)
    (server : ServerSocket) (up : server.handle.closed ≡ false)
    (fresh : live log server.handle.sockfd ≡ false) where
  abbrev log1 : List Event
  log1 = opened server.handle.sockfd ∷ log

  failed :
      {A : Type 0} (e e' : ErrorCode) (s s' : System W)
      → ◌≡◌ {A = Run (System W) A} (thrown e s) (thrown e' s')
      → s.log ≡ s'.log
  failed e e' s s' h = cc

  destruct-log :
      (s : System W) → (destruct net server.handle s).log ≡ closed_fd server.handle.sockfd ∷ s.log
  unfolding destruct
  destruct-log s = rw up refl

  unwound-Released :
      (s : System W) → Released log1 s.log → Released log (destruct net server.handle s).log
  unwound-Released s r =
      subst (Released log) (sym (destruct-log s))
        (Released-given_back log clean server.handle.sockfd fresh s.log r)

  module _ (fd : ℕ) (fresh_fd : live log1 fd ≡ false) where
    abbrev log2 : List Event
    log2 = opened fd ∷ log1

    abandoned-Released :
        (x e : ErrorCode) (w : W) (s' : System W)
        → abandoned net files x server fd (record { world = w; log = log2 }) ≡ thrown e s'
        → Released log s'.log
    unfolding abandoned
    abandoned-Released x e w s' h =
        subst (Released log) (failed x e _ s' h)
          (unwound-Released _ (Released-given_back log1 clean fd fresh_fd log2 (clean, λ y. refl)))

    mapped-Released :
        (r : Option Bytes × W) (e : ErrorCode) (s' : System W)
        → mapped net files server fd r log2 ≡ thrown e s'
        → Released log s'.log
    unfolding mapped
    mapped-Released (none, w) e s' h = abandoned-Released _ e w s' h
    mapped-Released (some content, w) e s' h = cc

    ended-Released :
        (size : ℕ) (r : Bool × W) (e : ErrorCode) (s' : System W)
        → ended net files server fd size r log2 ≡ thrown e s'
        → Released log s'.log
    unfolding ended
    ended-Released size (false, w) e s' h = abandoned-Released _ e w s' h
    ended-Released size (true, w) e s' h = mapped-Released (files.mmap_call fd size w) e s' h

    sought-Released :
        (size : ℕ) (r : Bool × W) (e : ErrorCode) (s' : System W)
        → sought net files server fd size r log2 ≡ thrown e s'
        → Released log s'.log
    unfolding sought
    sought-Released size (false, w) e s' h = abandoned-Released _ e w s' h
    sought-Released size (true, w) e s' h =
        ended-Released size (files.write_call fd (0 ∷ []) w) e s' h

  file_with-Released :
      (size : ℕ) (r : Opened × W) (e : ErrorCode) (s' : System W)
      → ((fd : ℕ) → r.0 ≡ descriptor fd → live log1 fd ≡ false)
      → file_with net files server size r log1 ≡ thrown e s'
      → Released log s'.log
  unfolding file_with
  file_with-Released size (no_descriptor x, w) e s' new h =
      subst (Released log) (failed _ e _ s' h) (unwound-Released _ (clean, λ y. refl))
  file_with-Released size (descriptor fd, w) e s' new h =
      sought-Released fd (new fd refl) size (files.lseek_call fd _ w) e s' h

  launch_body-Released :
      (c n b : ℕ) (path : Bytes) (s s' : System W) (e : ErrorCode)
      → s.log ≡ log1
      → ((fd : ℕ) → (files.open_call path s.world).0 ≡ descriptor fd → live log1 fd ≡ false)
      → launch_body net files c n b path server s ≡ thrown e s'
      → Released log s'.log
  unfolding launch_body
  launch_body-Released c n b path s s' e is new h = elim (Bool-cases (refused c n b)) [
    | inl bad ↦
        subst (Released log) (failed _ e (destruct net server.handle s) s' (rw bad at h))
          (unwound-Released s (subst (Released log1) (sym is) (clean, λ y. refl)))
    | inr fine ↦
        file_with-Released (product b n c) (files.open_call path s.world) e s' new
          (rw (fine, is) at h)
  ]

-- Where the server socket is made and the constructor of `virtual_drive` then throws, for whatever
-- reason, it has closed just what it opened, each descriptor once; the system returns no
-- descriptor that is open.
pub launch-Released :
    {W : Type 0} (net : Net W) (files : Files W) (memory : SocketHandle) (c n b : ℕ) (path : Bytes)
    (port : ℕ) (server : ServerSocket) (s s1 s' : System W) (e : ErrorCode)
    → Clean s.log
    → server_socket net memory port s ≡ done server s1
    → live s.log server.handle.sockfd ≡ false
    → ((fd : ℕ) → (files.open_call path s1.world).0 ≡ descriptor fd → live s1.log fd ≡ false)
    → launch net files memory c n b path port s ≡ thrown e s'
    → Released s.log s'.log
unfolding launch
launch-Released net files memory c n b path port server s s1 s' e clean made fresh new h =
    let (up, is) = server_socket-Opens net memory port s server s1 made in
    launch_body-Released net files s.log clean server up fresh c n b path s1 s' e is
      (λ fd got. sym (ap (λ l. live l fd) is) ∙ new fd got) (rw made at h)
