-- ===== src/Socket/Handle/Steps.antt =====
-- A program that makes, moves, assigns, terminates and destroys objects of src/utils/socket.h.
use coursework_file_system.Prelude.{
  ℕ, ◌≡◌, ◌≢◌, inl, inr, refl, sym, ap, fun_ext, ◌∙◌, subst, Bool, true, false, List, [], ◌∷◌,
  Bool-cases, ==_self, ◌==◌,
}
use coursework_file_system.Bytes.{Bytes}
use coursework_file_system.Run.{ErrorCode, Run, done, thrown, socket_create_fail}
use coursework_file_system.Disk.{update, update_self, update_ne}
use coursework_file_system.Socket.{Errno}
use coursework_file_system.Socket.Handle.{
  moved_from, SocketHandle, ServerSocket, System, Net, descriptor, no_descriptor, opened, closed_fd,
  Event, close_fd, destruct, assign, assign_self, terminate, bound, server_with, server_socket,
  client_socket, accept, af_inet, inaddr_any,
}
use coursework_file_system.Socket.Handle.Owners.{
  live, Clean, Slots, Owned, Owned-dead, Owned-closed, Owned-opened, Owned-placed, placed,
}
use coursework_file_system.Socket.Handle.Lifetime.{
  Opens, server_socket-Opens, client_socket-Opens, accept-Opens, accept-thrown,
  server_socket_refused, client_socket_refused,
}

-- The places for objects, of which those without one count as closed, and the system.
pub record Objects (W : Type 0) : Type 0 where
  pub slots : Slots
  pub system : System W

-- A place where there was an object whose descriptor is closed now.
abbrev pub emptied : {W : Type 0} → Objects W → ℕ → System W → Objects W
emptied p i s =
    let h = p.slots i in
    record { slots = update p.slots i (record h { closed = true }); system = s }

-- One operation. A new object takes a free place. The system returns no descriptor that is open, and a
-- constructor fails for the lack of a descriptor only.
pub data Step {W : Type 0} (net : Net W) (p : Objects W) : Objects W → Type 0 where
  serve :
      (i port : ℕ) (memory : SocketHandle) (sock : ServerSocket) (s : System W)
      → (p.slots i).closed ≡ true
      → server_socket net memory port p.system ≡ done sock s
      → live p.system.log sock.handle.sockfd ≡ false
      → Step net p (record { slots = update p.slots i sock.handle; system = s })
  connect :
      (i port : ℕ) (server : Bytes) (memory sock : SocketHandle) (s : System W)
      → (p.slots i).closed ≡ true
      → client_socket net memory server port p.system ≡ done sock s
      → live p.system.log sock.sockfd ≡ false
      → Step net p (record { slots = update p.slots i sock; system = s })
  no_server :
      (port : ℕ) (memory : SocketHandle) (x : Errno) (w : W) (e : ErrorCode) (s : System W)
      → net.socket_call p.system.world ≡ (no_descriptor x, w)
      → server_socket net memory port p.system ≡ thrown e s
      → Step net p (record p { system = s })
  no_client :
      (port : ℕ) (server : Bytes) (memory : SocketHandle) (x : Errno) (w : W) (e : ErrorCode)
      (s : System W)
      → net.socket_call p.system.world ≡ (no_descriptor x, w)
      → client_socket net memory server port p.system ≡ thrown e s
      → Step net p (record p { system = s })
  accepts :
      (i : ℕ) (block : Bool) (server server' : ServerSocket) (sock : SocketHandle) (s : System W)
      → (p.slots i).closed ≡ true
      → accept net block server p.system ≡ done (sock, server') s
      → (sock.closed ≡ false → live p.system.log sock.sockfd ≡ false)
      → Step net p (record { slots = update p.slots i sock; system = s })
  no_connection :
      (block : Bool) (server : ServerSocket) (e : ErrorCode) (s : System W)
      → accept net block server p.system ≡ thrown e s
      → Step net p (record p { system = s })
  moves :
      (i j : ℕ)
      → i ≢ j
      → (p.slots i).closed ≡ true
      → Step net p (record p { slots = placed p.slots i j (moved_from (p.slots j)) })
  assigns :
      (i j : ℕ)
      → i ≢ j
      → Step net p (record {
        slots = placed p.slots i j (assign net (p.slots i) (p.slots j) p.system).0;
        system = (assign net (p.slots i) (p.slots j) p.system).1;
      })
  assigns_self :
      (i : ℕ)
      → Step net p (record {
        slots = update p.slots i (assign_self net (p.slots i) p.system).0;
        system = (assign_self net (p.slots i) p.system).1;
      })
  terminates :
      (i : ℕ)
      → Step net p (record {
        slots = update p.slots i (terminate net (p.slots i) p.system).0;
        system = (terminate net (p.slots i) p.system).1;
      })
  destroys : (i : ℕ) → Step net p (emptied p i (destruct net (p.slots i) p.system))

pub data Steps {W : Type 0} (net : Net W) : Objects W → Objects W → Type 0 where
  stop : (p : Objects W) → Steps net p p
  go : (p q r : Objects W) → Step net p q → Steps net q r → Steps net p r

both : {b : Bool} → b ≡ true → b ≡ false → ⊥
both p q = cc

abbrev IsOwned : {W : Type 0} → Objects W → Type 0
IsOwned p = Owned p.slots p.system.log

module _ {W : Type 0} (net : Net W) (p : Objects W) (o : IsOwned p) where
  opened-IsOwned :
      (i : ℕ) (h : SocketHandle) (s : System W)
      → (p.slots i).closed ≡ true
      → Opens h p.system.log s
      → live p.system.log h.sockfd ≡ false
      → Owned (update p.slots i h) s.log
  opened-IsOwned i h s free (up, log) fresh =
      subst (Owned (update p.slots i h)) (sym log)
        (Owned-opened p.slots p.system.log o i h free up fresh)

  same-IsOwned : (s : System W) → s.log ≡ p.system.log → Owned p.slots s.log
  same-IsOwned s log = subst (Owned p.slots) (sym log) o

  -- The destructor's test makes a closed object of any.
  destruct-IsOwned :
      (i : ℕ) (h : SocketHandle)
      → h.closed ≡ true
      → Owned (update p.slots i h) (destruct net (p.slots i) p.system).log
  unfolding destruct
  destruct-IsOwned i h dead = elim (Bool-cases (p.slots i).closed) [
    | inl was ↦ rw was (Owned-dead p.slots p.system.log o i h dead was)
    | inr up ↦ rw up (Owned-closed p.slots p.system.log o i h dead up)
  ]

  terminate_cases :
      (i : ℕ)
      → Owned
          (update p.slots i (terminate net (p.slots i) p.system).0)
          (terminate net (p.slots i) p.system).1.log
  unfolding terminate
  terminate_cases i =
      let h = p.slots i in
      elim (Bool-cases h.closed) [
        | inl was ↦
            let kept : terminate net h p.system ≡ (h, p.system) = rw was refl in
            subst (λ (r : SocketHandle × System W). Owned (update p.slots i r.0) r.1.log) (sym kept)
              (Owned-dead p.slots p.system.log o i h was was)
        | inr up ↦
            let shut : SocketHandle = record h { closed = true } in
            let ended : terminate net h p.system ≡ (shut, close_fd net h.sockfd p.system) =
              rw up refl in
            subst (λ (r : SocketHandle × System W). Owned (update p.slots i r.0) r.1.log)
              (sym ended) (Owned-closed p.slots p.system.log o i shut refl up)
      ]

  assign_self-IsOwned :
      (i : ℕ)
      → Owned
          (update p.slots i (assign_self net (p.slots i) p.system).0)
          (assign_self net (p.slots i) p.system).1.log
  unfolding assign_self
  assign_self-IsOwned i = let h = p.slots i in destruct-IsOwned i (record h { closed = true }) refl

  assign-IsOwned :
      (i j : ℕ)
      → i ≢ j
      → Owned
          (placed p.slots i j (assign net (p.slots i) (p.slots j) p.system).0)
          (assign net (p.slots i) (p.slots j) p.system).1.log
  unfolding assign
  assign-IsOwned i j ne =
      let h = p.slots i in
      let shut : SocketHandle = record h { closed = true } in
      let slots1 = update p.slots i shut in
      let other : slots1 j ≡ p.slots j = update_ne p.slots i shut j (λ e. ne (sym e)) in
      let same : placed slots1 i j (moved_from (slots1 j))
          ≡ placed p.slots i j (moved_from (p.slots j)) =
        ap (λ x. placed slots1 i j (moved_from x)) other
        ∙ fun_ext λ k. elim (Bool-cases (k == i)) [ inl e ↦ rw e refl | inr e ↦ rw e refl ] in
      subst (λ slots. Owned slots (destruct net h p.system).log) same
        (Owned-placed slots1 (destruct net h p.system).log (destruct-IsOwned i shut refl) i j ne
          (ap (λ x. x.closed) (update_self p.slots i shut)))

module _ {W : Type 0} (net : Net W) where
  log_same :
      {A : Type 0} (e e' : ErrorCode) (s s' : System W)
      → ◌≡◌ {A = Run (System W) A} (thrown e s) (thrown e' s')
      → s.log ≡ s'.log
  log_same e e' s s' h = cc

  Step-IsOwned : (p q : Objects W) → Step net p q → IsOwned p → IsOwned q
  Step-IsOwned p _ (serve i port memory sock s free made fresh) o =
      opened-IsOwned net p o i sock.handle s free
        (server_socket-Opens net memory port p.system sock s made) fresh
  Step-IsOwned p _ (connect i port server memory sock s free made fresh) o =
      opened-IsOwned net p o i sock s free
        (client_socket-Opens net memory server port p.system sock s made) fresh
  Step-IsOwned p _ (no_server port memory x w e s refused failed) o = same-IsOwned net p o s (
      log_same e socket_create_fail s _
        (sym failed ∙ server_socket_refused net memory port p.system x w refused))
  Step-IsOwned p _ (no_client port server memory x w e s refused failed) o =
      same-IsOwned net p o s (
        log_same e socket_create_fail s _
          (sym failed ∙ client_socket_refused net memory server port p.system x w refused))
  Step-IsOwned p _ (accepts i block server server' sock s free made fresh) o =
      elim (accept-Opens net block server p.system sock server' s made) [
        | inl (up, log) ↦ opened-IsOwned net p o i sock s free (up, log) (fresh up)
        | inr (dead, log) ↦
            subst (Owned (update p.slots i sock)) (sym log)
              (Owned-dead p.slots p.system.log o i sock dead free)
      ]
  Step-IsOwned p _ (no_connection block server e s failed) o =
      same-IsOwned net p o s (accept-thrown net block server p.system e s failed)
  Step-IsOwned p _ (moves i j ne free) o = Owned-placed p.slots p.system.log o i j ne free
  Step-IsOwned p _ (assigns i j ne) o = assign-IsOwned net p o i j ne
  Step-IsOwned p _ (assigns_self i) o = assign_self-IsOwned net p o i
  Step-IsOwned p _ (terminates i) o = terminate_cases net p o i
  Step-IsOwned p _ (destroys i) o =
      let h = p.slots i in destruct-IsOwned net p o i (record h { closed = true }) refl

  Steps-IsOwned : (p q : Objects W) → Steps net p q → IsOwned p → IsOwned q
  Steps-IsOwned p _ (stop _) o = o
  Steps-IsOwned p _ (go _ q r step steps) o = Steps-IsOwned q r steps (Step-IsOwned p q step o)

  no_live :
      (q : Objects W)
      → IsOwned q
      → ((i : ℕ) → (q.slots i).closed ≡ true)
      → (fd : ℕ) → live q.system.log fd ≡ false
  no_live q o ended fd = elim (Bool-cases (live q.system.log fd)) [
    | inl alive ↦ leaked (o.owner fd alive)
    | inr over ↦ over
  ]
    where
      leaked :
          (i : ℕ) × ((q.slots i).closed ≡ false) × ((q.slots i).sockfd ≡ fd)
          → live q.system.log fd ≡ false
      leaked (i, up, is) = absurd (both (ended i) up)

  -- A program that begins without objects and takes any steps closes only open descriptors, and
  -- when all its objects are closed each descriptor that it opened is. In such steps the system
  -- returns no descriptor that is open, and the constructors fail for the lack of a descriptor only.
  pub Steps-Clean :
      (p q : Objects W)
      → ((i : ℕ) → (p.slots i).closed ≡ true)
      → p.system.log ≡ []
      → Steps net p q
      → Clean q.system.log
        × (((i : ℕ) → (q.slots i).closed ≡ true) → (fd : ℕ) → live q.system.log fd ≡ false)
  Steps-Clean p q none_yet log steps =
      let o = Steps-IsOwned p q steps (start p none_yet log) in (o.clean, no_live q o)
    where
      start :
          (p : Objects W) → ((i : ℕ) → (p.slots i).closed ≡ true) → p.system.log ≡ [] → IsOwned p
      start p none_yet log = subst (Owned p.slots) (sym log) (record {
        clean = tt;
        held = λ i up. absurd (both (none_yet i) up);
        unique = λ i j up up' e. absurd (both (none_yet i) up);
        owner = λ fd alive. absurd (both alive refl);
      })

  twice-Clean :
      (fd : ℕ) (log : List Event) → ¬ Clean (closed_fd fd ∷ closed_fd fd ∷ opened fd ∷ log)
  twice-Clean fd log (alive, rest) = both alive (rw (==_self fd) refl)

  -- Where `bind` fails the constructor of `server_socket_handle` throws, and has closed the
  -- descriptor twice, the second time after it was given back.
  pub server_socket_twice :
      (memory : SocketHandle) (port fd : ℕ) (s : System W) (w w' : W)
      → net.socket_call s.world ≡ (descriptor fd, w)
      → net.bind_call fd
          (record {
            sin_family = af_inet;
            sin_addr = net.htonl inaddr_any;
            sin_port = net.htons port;
          })
          w
        ≡ (false, w')
      → (s' : System W) × (server_socket net memory port s ≡ thrown socket_create_fail s')
        × (¬ Clean s'.log)
  unfolding server_socket server_with bound destruct
  server_socket_twice memory port fd s w w' got failed = (
    record {
      world = net.close_call fd (net.close_call fd w');
      log = closed_fd fd ∷ closed_fd fd ∷ opened fd ∷ s.log;
    },
    rw (got, failed) refl,
    twice-Clean fd s.log,
  )
