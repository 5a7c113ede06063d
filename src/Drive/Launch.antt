-- ===== src/Drive/Launch.antt =====
-- The constructor and the destructor of `virtual_drive` in src/virtual_drive.h with their system
-- calls: the server socket, and the file that is grown to the size of the drive and mapped. The
-- fields that are numbers are those of `open_drive`.
pub mod Release
use coursework_file_system.Prelude.{
  ℕ, ◌-◌, ◌+◌, ◌%◌, ◌^◌, Bool, true, false, Option, none, some, List, [], ◌∷◌, if◌then◌else◌,
}
use coursework_file_system.Bytes.{Bytes}
use coursework_file_system.Run.{
  Run, done, thrown, Cmd, and_then, ◌>>=◌, ErrorCode, virtual_drive_invalid_args,
  virtual_drive_file_create, virtual_drive_mmap,
}
use coursework_file_system.Drive.{product, refused}
use coursework_file_system.Socket.Handle.{
  SocketHandle, ServerSocket, System, Net, Opened, descriptor, no_descriptor, Event, opened,
  close_fd, destruct, server_socket, unwound,
}

-- The calls on the file; a call that fails gives `false` or no mapping.
pub record Files (W : Type 0) : Type 0 where
  pub open_call : Bytes → W → Opened × W
  pub lseek_call : ℕ → ℕ → W → Bool × W
  pub write_call : ℕ → Bytes → W → Bool × W
  pub mmap_call : ℕ → ℕ → W → Option Bytes × W
  pub munmap_call : Bytes → ℕ → W → W

pub record Launched : Type 0 where
  pub server : ServerSocket
  pub file_fd : ℕ
  pub file_data : Bytes

module _ {W : Type 0} (net : Net W) (files : Files W) where
  -- A failure behind `open` closes the file, and the exception then destroys the server socket.
  abandoned : ErrorCode → ServerSocket → ℕ → Cmd (System W) Launched
  unfolding destruct
  abandoned e server fd s = unwound net e server.handle (close_fd net fd s)

  mapped : ServerSocket → ℕ → Option Bytes × W → List Event → Run (System W) Launched
  unfolding abandoned
  mapped server fd (none, world) log =
      abandoned virtual_drive_mmap server fd (record { world = world; log = log })
  mapped server fd (some content, world) log =
      done (record { server = server; file_fd = fd; file_data = content })
        (record { world = world; log = log })

  ended : ServerSocket → ℕ → ℕ → Bool × W → List Event → Run (System W) Launched
  unfolding abandoned mapped
  ended server fd size (false, world) log =
      abandoned virtual_drive_file_create server fd (record { world = world; log = log })
  ended server fd size (true, world) log = mapped server fd (files.mmap_call fd size world) log

  sought : ServerSocket → ℕ → ℕ → Bool × W → List Event → Run (System W) Launched
  unfolding abandoned ended
  sought server fd size (false, world) log =
      abandoned virtual_drive_file_create server fd (record { world = world; log = log })
  sought server fd size (true, world) log =
      ended server fd size (files.write_call fd (0 ∷ []) world) log

  -- `disk_size_ - 1` is a `uint64_t`.
  file_with : ServerSocket → ℕ → Opened × W → List Event → Run (System W) Launched
  unfolding sought destruct
  file_with server size (no_descriptor e, world) log =
      unwound net virtual_drive_file_create server.handle (record { world = world; log = log })
  file_with server size (descriptor fd, world) log =
      sought server fd size (files.lseek_call fd ((size + 2 ^ 64 - 1) % 2 ^ 64) world)
        (opened fd ∷ log)

  -- The body of the constructor, for cylinders, sectors per cylinder and bytes per sector.
  unfoldable pub launch_body : ℕ → ℕ → ℕ → Bytes → ServerSocket → Cmd (System W) Launched
  unfolding file_with destruct
  launch_body c s b path server sys =
      if refused c s b
      then unwound net virtual_drive_invalid_args server.handle sys
      else file_with server (product b s c) (files.open_call path sys.world) sys.log

  -- The constructor; `memory` is what the fields of the server socket hold before.
  unfoldable pub launch : SocketHandle → ℕ → ℕ → ℕ → Bytes → ℕ → Cmd (System W) Launched
  unfolding launch_body
  launch memory c s b path port = do
    server ← server_socket net memory port
    launch_body c s b path server

  -- The destructor, behind the end of the receiver's thread, with those of the fields;
  -- `connection` is `connection_socket_`.
  unfoldable pub shut_down : ℕ → SocketHandle → Launched → System W → System W
  unfolding destruct
  shut_down size connection d s =
      let unmapped = record s { world = files.munmap_call d.file_data size s.world } in
      destruct net d.server.handle (destruct net connection (close_fd net d.file_fd unmapped))
