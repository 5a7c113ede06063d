-- ===== src/Tests/Disks.antt =====
-- The formatted disk of 64 sectors, and what lies on it.
use coursework_file_system.Prelude.{refl, false, arith}
use coursework_file_system.Node.{
  DirectoryNode, AllocatorFits, HeaderFits, fresh_header, default_file,
}
use coursework_file_system.Node.Codec.{encode_directory}
use coursework_file_system.Disk.{Disk}
use coursework_file_system.DiskView.{stored}
use coursework_file_system.Allocator.Free.{Free, Free-stored_ne}
use coursework_file_system.Fs.{alloc_root}
use coursework_file_system.Fs.Mounted.{Holds-stored}
use coursework_file_system.Fs.Format.{formatted, IsFormatted, IsFormatted-formatted}
use coursework_file_system.Fs.Folder.Child.{EnvFits, fresh_node-DirectoryFits}
use coursework_file_system.Fs.File.RoundTrip.{FileAt}
use coursework_file_system.Tests.Basic.{zero_env, zero_disk}

pub header_fits : HeaderFits (fresh_header 0)
header_fits = omega arith

pub env_fits : EnvFits zero_env
env_fits = record { node_memory = ground (arith, header_fits); now = omega arith }

pub root_fits : AllocatorFits zero_env.root_memory
root_fits = ground (arith, header_fits)

abbrev pub empty_disk : Disk
empty_disk = formatted zero_env zero_disk 64

pub empty_disk-IsFormatted : IsFormatted zero_env empty_disk
empty_disk-IsFormatted =
    IsFormatted-formatted zero_env env_fits root_fits zero_disk refl (omega arith)

pub empty_disk-Free : Free empty_disk alloc_root 3 61
empty_disk-Free = empty_disk-IsFormatted.free

-- A new file in the sector that is reserved for the list of users.
abbrev pub file_node : DirectoryNode
file_node = default_file zero_env.node_memory 7

abbrev pub file_disk : Disk
file_disk = stored empty_disk 2 (encode_directory file_node)

pub file_disk-FileAt : FileAt file_disk 3 61 2 file_node (λ i. i)
unfolding default_file
file_disk-FileAt = record {
  holds =
      Holds-stored empty_disk 2 file_node refl (omega arith)
        (fresh_node-DirectoryFits zero_env false env_fits);
  extents = record {
    pointer = λ i h. absurd (omega arith);
    below = λ i h. omega arith;
    valid = λ i h. omega arith;
    distinct = λ i j h k. omega arith;
    not_self = λ i h. omega arith;
    not_root = λ i h. omega arith;
  };
  in_node = omega arith;
  below = omega arith;
  not_root = omega arith;
  free =
      Free-stored_ne empty_disk alloc_root 3 61 2 (encode_directory file_node) empty_disk-Free
        (omega arith);
  reserved = omega arith;
}
