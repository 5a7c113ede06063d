-- ===== src/Tests/HandleWitness.antt =====
-- The theorems on the socket objects of src/utils/socket.h, with a system that numbers the descriptors.
use coursework_file_system.Prelude.{
  ℕ, ◌+◌, ◌≡◌, refl, Bool, true, false, subst, none, [], ◌∷◌, arith,
}
use coursework_file_system.Run.{done, thrown, virtual_drive_mmap, socket_create_fail}
use coursework_file_system.Misc.{power_of_2}
use coursework_file_system.Drive.{refused}
use coursework_file_system.Drive.Launch.{Files, launch}
use coursework_file_system.Drive.Launch.Release.{Released, launch-Released}
use coursework_file_system.Socket.Handle.{
  Address, SocketHandle, ServerSocket, Net, System, Opened, descriptor, server_socket, opened,
  closed_fd,
}
use coursework_file_system.Socket.Handle.Owners.{live, Clean}
use coursework_file_system.Socket.Handle.Steps.{
  Objects, serve, moves, destroys, Steps, stop, go, Steps-Clean, server_socket_twice,
}

abbrev nowhere : Address
nowhere = record { sin_family = 0; sin_addr = 0; sin_port = 0 }

-- The state is the next descriptor.
abbrev net : Bool → Net ℕ
net free_port = record {
  socket_call = λ n. (descriptor n, n + 1);
  bind_call = λ fd addr n. (free_port, n);
  connect_call = λ fd addr n. (true, n);
  listen_call = λ fd backlog n. n;
  accept_call = λ fd n. ((descriptor n, nowhere), n + 1);
  set_blocking = λ fd block n. n;
  close_call = λ fd n. n;
  inet_pton = λ text. none;
  htons = λ port. port;
  htonl = λ host. host;
}

abbrev no_object : SocketHandle
no_object = record { sockfd = 0; addr = nowhere; closed = true }

abbrev begin : Objects ℕ
begin = record { slots = λ i. no_object; system = record { world = 3; log = [] } }

server_socket_twice_example :
    (s' : System ℕ) × (server_socket (net false) no_object 4000 begin.system
      ≡ thrown socket_create_fail s')
    × (¬ Clean s'.log)
server_socket_twice_example =
    server_socket_twice (net false) no_object 4000 3 begin.system 4 4 refl refl

abbrev sock : ServerSocket
sock = record {
  handle = record {
    sockfd = 3;
    addr = record { sin_family = 2; sin_addr = 0; sin_port = 4000 };
    closed = false;
  };
  block = true;
}

made :
    server_socket (net true) no_object 4000 begin.system
    ≡ done sock (record { world = 4; log = opened 3 ∷ [] })
unfolding server_socket
made = refl

-- A server socket is made and moved; both objects end.
run : (q : Objects ℕ) × Steps (net true) begin q
run = (
  _,
  go _ _ _ (serve 0 4000 no_object sock (record { world = 4; log = opened 3 ∷ [] }) refl made refl)
      (go _ _ _ (moves 1 0 (λ e. omega (arith, e)) refl)
        (go _ _ _ (destroys 0) (go _ _ _ (destroys 1) (stop _)))),
)

Steps-Clean_example :
    Clean run.0.system.log
    × (((i : ℕ) → (run.0.slots i).closed ≡ true) → (fd : ℕ) → live run.0.system.log fd ≡ false)
Steps-Clean_example = Steps-Clean (net true) begin run.0 (λ i. refl) refl run.1

-- A file that cannot be mapped.
abbrev files : Files ℕ
files = record {
  open_call = λ path n. (descriptor n, n + 1);
  lseek_call = λ fd at n. (true, n);
  write_call = λ fd bytes n. (true, n);
  mmap_call = λ fd size n. (none, n);
  munmap_call = λ content size n. n;
}

abbrev given_back : System ℕ
given_back = record { world = 5; log = closed_fd 3 ∷ closed_fd 4 ∷ opened 4 ∷ opened 3 ∷ [] }

unmapped :
    launch (net true) files no_object 4 8 256 (b'd' ∷ []) 4000 begin.system
    ≡ thrown virtual_drive_mmap given_back
unfolding launch server_socket refused power_of_2
unmapped = refl

new_descriptor :
    (fd : ℕ) → ◌≡◌ {A = Opened} (descriptor 4) (descriptor fd) → live (opened 3 ∷ []) fd ≡ false
new_descriptor fd e = subst (λ x. live (opened 3 ∷ []) x ≡ false) (number e) refl
  where
    number : {a b : ℕ} → descriptor a ≡ descriptor b → a ≡ b
    number h = cc

launch-Released_example : Released begin.system.log given_back.log
launch-Released_example =
    launch-Released (net true) files no_object 4 8 256 (b'd' ∷ []) 4000 sock begin.system
      (record { world = 4; log = opened 3 ∷ [] }) given_back virtual_drive_mmap tt made refl
      new_descriptor unmapped
