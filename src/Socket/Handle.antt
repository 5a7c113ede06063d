-- ===== src/Socket/Handle.antt =====
-- The objects of src/utils/socket.h that hold a descriptor: how they are made, moved and closed.
-- The system calls are parameters; the log has the descriptors that `socket` and `accept` returned
-- and those that were given to `close`, the latest first.
pub mod Owners
pub mod Lifetime
pub mod Steps
use coursework_file_system.Prelude.{
  ℕ, ◌^◌, ◌-◌, ◌≡◌, Bool, true, false, not, ◌&&◌, Option, none, some, List, [], ◌∷◌, ◌==◌,
  if◌then◌else◌,
}
use coursework_file_system.Bytes.{Bytes}
use coursework_file_system.Run.{
  ErrorCode, Run, done, thrown, Cmd, socket_create_fail, socket_connect_fail, socket_terminated,
}
use coursework_file_system.Socket.{Errno, ebadf, einval, enotsock, eagain}

-- `sockaddr_in`
pub record Address : Type 0 where
  pub sin_family : ℕ
  pub sin_addr : ℕ
  pub sin_port : ℕ

-- The fields of `socket_handle`.
pub record SocketHandle : Type 0 where
  pub sockfd : ℕ
  pub addr : Address
  pub closed : Bool

pub data Event : Type 0 where
  opened closed_fd : ℕ → Event

-- What `::socket` and `::accept` return.
pub data Opened : Type 0 where
  descriptor : ℕ → Opened
  no_descriptor : Errno → Opened

-- The system and the C library; `inet_pton` gives an address or rejects the text, and
-- `set_blocking` stands for the two calls of `fcntl`.
pub record Net (W : Type 0) : Type 0 where
  pub socket_call : W → Opened × W
  pub bind_call : ℕ → Address → W → Bool × W
  pub connect_call : ℕ → Address → W → Bool × W
  pub listen_call : ℕ → ℕ → W → W
  pub accept_call : ℕ → W → (Opened × Address) × W
  pub set_blocking : ℕ → Bool → W → W
  pub close_call : ℕ → W → W
  pub inet_pton : Bytes → Option ℕ
  pub htons : ℕ → ℕ
  pub htonl : ℕ → ℕ

-- The `int` -1 as a word of 32 bits.
abbrev pub minus_one : ℕ
minus_one = 2 ^ 32 - 1

abbrev pub af_inet : ℕ
af_inet = 2

abbrev pub inaddr_any : ℕ
inaddr_any = 0

abbrev pub backlog_max : ℕ
backlog_max = 5

pub record System (W : Type 0) : Type 0 where
  pub world : W
  pub log : List Event

-- `server_socket_handle`
pub record ServerSocket : Type 0 where
  pub handle : SocketHandle
  pub block : Bool

abbrev pub is_terminated : Errno → Bool
is_terminated ebadf = true
is_terminated einval = true
is_terminated enotsock = true
is_terminated _ = false

abbrev pub would_block : Errno → Bool
would_block eagain = true
would_block _ = false

abbrev pub same_mode : Bool → Bool → Bool
same_mode true b = b
same_mode false b = not b

-- The move constructor: the new handle, and what is left of `other`.
abbrev pub moved_from : SocketHandle → SocketHandle × SocketHandle
moved_from other = (other, record other { closed = true })

module _ {W : Type 0} (net : Net W) where
  abbrev pub close_fd : ℕ → System W → System W
  close_fd fd s = record { world = net.close_call fd s.world; log = closed_fd fd ∷ s.log }

  -- The destructor.
  unfoldable pub destruct : SocketHandle → System W → System W
  destruct h s = if h.closed then s else close_fd h.sockfd s

  -- Move assignment of two objects, and of an object to itself.
  unfoldable pub assign :
      SocketHandle → SocketHandle → System W → (SocketHandle × SocketHandle) × System W
  unfolding destruct
  assign h other s = (moved_from other, destruct h s)

  unfoldable pub assign_self : SocketHandle → System W → SocketHandle × System W
  unfolding destruct
  assign_self h s = (record h { closed = true }, destruct h s)

  unfoldable pub terminate : SocketHandle → System W → SocketHandle × System W
  terminate h s = if h.closed then (h, s) else (record h { closed = true }, close_fd h.sockfd s)

  -- An exception in the constructor of a derived class runs the destructor of its base.
  abbrev pub unwound : {A : Type 0} → ErrorCode → SocketHandle → Cmd (System W) A
  unwound e h s = thrown e (destruct h s)

  -- The rest of the constructor of `server_socket_handle`, with the result of `bind`.
  bound : SocketHandle → Bool × W → List Event → Run (System W) ServerSocket
  unfolding destruct
  bound h (false, world) log =
      unwound socket_create_fail h (close_fd h.sockfd (record { world = world; log = log }))
  bound h (true, world) log =
      done (record { handle = h; block = true })
        (record { world = net.listen_call h.sockfd backlog_max world; log = log })

  server_with : ℕ → SocketHandle → Opened × W → List Event → Run (System W) ServerSocket
  unfolding bound destruct
  server_with port base (no_descriptor e, world) log =
      unwound socket_create_fail base (record { world = world; log = log })
  server_with port base (descriptor fd, world) log =
      let addr : Address = record {
        sin_family = af_inet;
        sin_addr = net.htonl inaddr_any;
        sin_port = net.htons port;
      } in
      bound (record { sockfd = fd; addr = addr; closed = false }) (net.bind_call fd addr world)
        (opened fd ∷ log)

  -- The constructors; `memory` is what the fields hold before, and `socket_handle()` sets only
  -- `closed_`.
  unfoldable pub server_socket : SocketHandle → ℕ → Cmd (System W) ServerSocket
  unfolding server_with
  server_socket memory port s =
      server_with port (record memory { closed = true }) (net.socket_call s.world) s.log

  connected : SocketHandle → Bool × W → List Event → Run (System W) SocketHandle
  unfolding destruct
  connected h (false, world) log =
      unwound socket_connect_fail h (close_fd h.sockfd (record { world = world; log = log }))
  connected h (true, world) log = done h (record { world = world; log = log })

  resolved : ℕ → ℕ → SocketHandle → Option ℕ → System W → Run (System W) SocketHandle
  unfolding connected destruct
  resolved fd port h none s = unwound socket_create_fail h (close_fd fd s)
  resolved fd port h (some host) s =
      let addr : Address = record {
        sin_family = af_inet;
        sin_addr = host;
        sin_port = net.htons port;
      } in
      connected (record h { addr = addr }) (net.connect_call fd addr s.world) s.log

  client_with : Bytes → ℕ → SocketHandle → Opened × W → List Event → Run (System W) SocketHandle
  unfolding resolved destruct
  client_with server port base (no_descriptor e, world) log =
      unwound socket_create_fail base (record { world = world; log = log })
  client_with server port base (descriptor fd, world) log =
      let old = base.addr in
      let addr : Address = record old { sin_family = af_inet; sin_port = net.htons port } in
      resolved fd port (record { sockfd = fd; addr = addr; closed = false }) (net.inet_pton server)
        (record { world = world; log = opened fd ∷ log })

  unfoldable pub client_socket : SocketHandle → Bytes → ℕ → Cmd (System W) SocketHandle
  unfolding client_with
  client_socket memory server port s =
      client_with server port (record memory { closed = true }) (net.socket_call s.world) s.log

  -- What `accept` makes of the result of `::accept`; the connection is still closed when it throws.
  accepted :
      Bool
      → ServerSocket
      → (Opened × Address) × W
      → List Event
      → Run (System W) (SocketHandle × ServerSocket)
  accepted block server ((descriptor fd, addr), world) log =
      done (record { sockfd = fd; addr = addr; closed = false }, server)
        (record { world = world; log = opened fd ∷ log })
  accepted block server ((no_descriptor e, addr), world) log =
      let s : System W = record { world = world; log = log } in
      if not block && would_block e
      then done (record { sockfd = minus_one; addr = addr; closed = true }, server) s
      else if is_terminated e
      then thrown socket_terminated s
      else thrown socket_connect_fail s

  -- `accept(block)`: the connection, and the server socket with its new mode.
  unfoldable pub accept : Bool → ServerSocket → Cmd (System W) (SocketHandle × ServerSocket)
  unfolding accepted
  accept block server s =
      let fd = server.handle.sockfd in
      let world =
        if same_mode block server.block then s.world else net.set_blocking fd block s.world in
      accepted block (record server { block = block }) (net.accept_call fd world) s.log
