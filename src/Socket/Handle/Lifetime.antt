-- ===== src/Socket/Handle/Lifetime.antt =====
-- The objects of src/utils/socket.h over their lifetime: what the constructors and `accept` leave,
-- and the steps that a program takes with such objects.
use coursework_file_system.Prelude.{
  ℕ, ◌≡◌, ◌⊎◌, inl, inr, refl, sym, ap, ◌∙◌, Bool, true, false, not, ◌&&◌, Option, none, some, List,
  ◌∷◌, Bool-cases,
}
use coursework_file_system.Bytes.{Bytes}
use coursework_file_system.Run.{ErrorCode, Run, done, thrown, socket_create_fail}
use coursework_file_system.Socket.{Errno}
use coursework_file_system.Socket.Handle.{
  SocketHandle, ServerSocket, Address, System, Net, Opened, descriptor, no_descriptor, opened,
  Event, destruct, bound, server_with, server_socket, connected, resolved, client_with,
  client_socket, accepted, accept, af_inet, is_terminated, would_block,
}

done_injective : {S A : Type 0} {a b : A} {s t : S} → done a s ≡ done b t → (a ≡ b) × (s ≡ t)
done_injective h = (cc, cc)

thrown_injective :
    {S A : Type 0} {e f : ErrorCode} {s t : S} → ◌≡◌ {A = Run S A} (thrown e s) (thrown f t) → s ≡ t
thrown_injective h = cc

not_done :
    {S A B : Type 0} {a : A} {s t : S} {e : ErrorCode}
    → ◌≡◌ {A = Run S A} (thrown e t) (done a s)
    → B
not_done h = cc

-- What a call that succeeds leaves: an object with the one descriptor that it opened.
abbrev pub Opens : {W : Type 0} → SocketHandle → List Event → System W → Type 0
Opens h log s = (h.closed ≡ false) × (s.log ≡ opened h.sockfd ∷ log)

module _ {W : Type 0} (net : Net W) where
  bound-Opens :
      (h : SocketHandle) (r : Bool × W) (log : List Event) (sock : ServerSocket) (s : System W)
      → bound net h r log ≡ done sock s
      → (sock.handle ≡ h) × (s.log ≡ log)
  unfolding bound
  bound-Opens h (false, world) log sock s e = cc
  bound-Opens h (true, world) log sock s e =
      let (p, q) = done_injective e in (sym (ap (λ x. x.handle) p), sym (ap (λ x. x.log) q))

  server_with-Opens :
      (port : ℕ) (base : SocketHandle) (r : Opened × W) (log : List Event) (sock : ServerSocket)
      (s : System W)
      → server_with net port base r log ≡ done sock s
      → Opens sock.handle log s
  unfolding server_with
  server_with-Opens port base (no_descriptor x, world) log sock s e = cc
  server_with-Opens port base (descriptor fd, world) log sock s e =
      let (p, q) = bound-Opens _ _ (opened fd ∷ log) sock s e in
      (ap (λ h. h.closed) p, q ∙ ap (λ h. opened h.sockfd ∷ log) (sym p))

  pub server_socket-Opens :
      (memory : SocketHandle) (port : ℕ) (s : System W) (sock : ServerSocket) (s' : System W)
      → server_socket net memory port s ≡ done sock s'
      → Opens sock.handle s.log s'
  unfolding server_socket
  server_socket-Opens memory port s sock s' e =
      server_with-Opens port (record memory { closed = true }) (net.socket_call s.world) s.log sock
        s' e

  connected-Opens :
      (h : SocketHandle) (r : Bool × W) (log : List Event) (sock : SocketHandle) (s : System W)
      → connected net h r log ≡ done sock s
      → (sock ≡ h) × (s.log ≡ log)
  unfolding connected
  connected-Opens h (false, world) log sock s e = cc
  connected-Opens h (true, world) log sock s e =
      let (p, q) = done_injective e in (sym p, sym (ap (λ x. x.log) q))

  resolved-Opens :
      (fd port : ℕ) (h : SocketHandle) (host : Option ℕ) (s : System W) (sock : SocketHandle)
      (s' : System W)
      → resolved net fd port h host s ≡ done sock s'
      → (sock.closed ≡ h.closed) × (sock.sockfd ≡ h.sockfd) × (s'.log ≡ s.log)
  unfolding resolved
  resolved-Opens fd port h none s sock s' e = cc
  resolved-Opens fd port h (some host) s sock s' e =
      let (p, q) = connected-Opens _ _ s.log sock s' e in
      (ap (λ x. x.closed) p, ap (λ x. x.sockfd) p, q)

  client_with-Opens :
      (server : Bytes) (port : ℕ) (base : SocketHandle) (r : Opened × W) (log : List Event)
      (sock : SocketHandle) (s : System W)
      → client_with net server port base r log ≡ done sock s
      → Opens sock log s
  unfolding client_with
  client_with-Opens server port base (no_descriptor x, world) log sock s e = cc
  client_with-Opens server port base (descriptor fd, world) log sock s e =
      let old = base.addr in
      let addr : Address = record old { sin_family = af_inet; sin_port = net.htons port } in
      let h : SocketHandle = record { sockfd = fd; addr = addr; closed = false } in
      let (p, q, l) = resolved-Opens fd port h (net.inet_pton server) _ sock s e in
      (p, l ∙ ap (λ x. opened x ∷ log) (sym q))

  pub client_socket-Opens :
      (memory : SocketHandle) (server : Bytes) (port : ℕ) (s : System W) (sock : SocketHandle)
      (s' : System W)
      → client_socket net memory server port s ≡ done sock s'
      → Opens sock s.log s'
  unfolding client_socket
  client_socket-Opens memory server port s sock s' e =
      client_with-Opens server port (record memory { closed = true }) (net.socket_call s.world)
        s.log sock s' e

  accepted-Opens :
      (block : Bool) (server : ServerSocket) (r : (Opened × Address) × W) (log : List Event)
      (sock : SocketHandle) (server' : ServerSocket) (s : System W)
      → accepted net block server r log ≡ done (sock, server') s
      → Opens sock log s ⊎ ((sock.closed ≡ true) × (s.log ≡ log))
  unfolding accepted
  accepted-Opens block server ((descriptor fd, addr), world) log sock server' s h =
      let (p, q) = done_injective h in
      let here = ap (λ x. x.0) (sym p) in
      inl (
        ap (λ x. x.closed) here,
        ap (λ x. x.log) (sym q) ∙ ap (λ x. opened x.sockfd ∷ log) (sym here),
      )
  accepted-Opens block server ((no_descriptor x, addr), world) log sock server' s h =
      elim (Bool-cases (not block && would_block x)) [
        | inl again ↦
            let (p, q) = done_injective (rw again at h) in
            inr (ap (λ x. x.0.closed) (sym p), ap (λ x. x.log) (sym q))
        | inr stop ↦ elim (Bool-cases (is_terminated x)) [
          | inl over ↦ not_done (rw (stop, over) at h)
          | inr failed ↦ not_done (rw (stop, failed) at h)
        ]
      ]

  accepted-thrown :
      (block : Bool) (server : ServerSocket) (r : (Opened × Address) × W) (log : List Event)
      (e : ErrorCode) (s : System W)
      → accepted net block server r log ≡ thrown e s
      → s.log ≡ log
  unfolding accepted
  accepted-thrown block server ((descriptor fd, addr), world) log e s h = not_done (sym h)
  accepted-thrown block server ((no_descriptor x, addr), world) log e s h =
      elim (Bool-cases (not block && would_block x)) [
        | inl again ↦ not_done (sym (rw again at h))
        | inr stop ↦ elim (Bool-cases (is_terminated x)) [
          | inl over ↦ ap (λ x. x.log) (sym (thrown_injective (rw (stop, over) at h)))
          | inr failed ↦ ap (λ x. x.log) (sym (thrown_injective (rw (stop, failed) at h)))
        ]
      ]

  -- `accept` opens a connection, or returns a closed one and opens nothing.
  pub accept-Opens :
      (block : Bool) (server : ServerSocket) (s : System W) (sock : SocketHandle)
      (server' : ServerSocket) (s' : System W)
      → accept net block server s ≡ done (sock, server') s'
      → Opens sock s.log s' ⊎ ((sock.closed ≡ true) × (s'.log ≡ s.log))
  unfolding accept
  accept-Opens block server s sock server' s' e =
      accepted-Opens block (record server { block = block })
        (net.accept_call server.handle.sockfd _) s.log sock server' s' e

  -- Where `accept` throws it has opened nothing.
  pub accept-thrown :
      (block : Bool) (server : ServerSocket) (s : System W) (x : ErrorCode) (s' : System W)
      → accept net block server s ≡ thrown x s'
      → s'.log ≡ s.log
  unfolding accept
  accept-thrown block server s x s' e =
      accepted-thrown block (record server { block = block })
        (net.accept_call server.handle.sockfd _) s.log x s' e

  -- Where `socket` returns no descriptor the constructors open nothing.
  pub server_socket_refused :
      (memory : SocketHandle) (port : ℕ) (s : System W) (x : Errno) (w' : W)
      → net.socket_call s.world ≡ (no_descriptor x, w')
      → server_socket net memory port s
        ≡ thrown socket_create_fail (record { world = w'; log = s.log })
  unfolding server_socket server_with destruct
  server_socket_refused memory port s x w' e = rw e refl

  pub client_socket_refused :
      (memory : SocketHandle) (server : Bytes) (port : ℕ) (s : System W) (x : Errno) (w' : W)
      → net.socket_call s.world ≡ (no_descriptor x, w')
      → client_socket net memory server port s
        ≡ thrown socket_create_fail (record { world = w'; log = s.log })
  unfolding client_socket client_with destruct
  client_socket_refused memory server port s x w' e = rw e refl
