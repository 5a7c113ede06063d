-- ===== src/Tests/PartWitness.antt =====
-- The theorems on the allocator, the disks, the layout of nodes and the helpers of src/, at
-- concrete values.
use coursework_file_system.Prelude.{
  ℕ, ◌*◌, ◌<◌, ◌^◌, ◌≡◌, ◌↔◌, ◌≢◌, false, refl, true, some, [], ◌∷◌, replicate, arith,
}
use coursework_file_system.Run.{done}
use coursework_file_system.Misc.{power_of_2}
use coursework_file_system.Misc.Power.{power_of_2_iff}
use coursework_file_system.Node.Codec.{
  encode_directory, decode_directory, encode_allocator, decode_allocator,
}
use coursework_file_system.Node.Codec.Layout.{
  DirectoryAt, AllocatorAt, encode_directory-DirectoryAt, encode_allocator-AllocatorAt,
}
use coursework_file_system.Disk.{Disk, read_sector, write_sector}
use coursework_file_system.RamDisk
use coursework_file_system.RamDisk.Refine.{
  IsSized, view, view_run, create-IsSized, read_refines, write_refines,
}
use coursework_file_system.Allocator.Leaf.{idle}
use coursework_file_system.Allocator.Free.{Free, SameBut, allocate, blocks_from, allocate-Free}
use coursework_file_system.Allocator.Exhausted.{allocate-Exhausted}
use coursework_file_system.Fs.Format.{formatted, IsFormatted-formatted}
use coursework_file_system.Memory.{slice}
use coursework_file_system.Drive.{
  refused, Receiver, serve_io, write_sector_at, read_sector_at, acknowledged, sector_content,
}
use coursework_file_system.Drive.Checks.{refused_iff}
use coursework_file_system.Drive.Store.{Inside, serve_io-write}
use coursework_file_system.Tests.Basic.{zero_env}
use coursework_file_system.Tests.Disks.{env_fits, root_fits, empty_disk, empty_disk-Free}

allocate-Free_example :
    (d' : Disk) × (allocate 10 (idle empty_disk 1) ≡ done (blocks_from 3 10) (idle d' 1))
    × Free d' 1 13 51
    × SameBut 1 empty_disk d'
allocate-Free_example = allocate-Free 10 empty_disk 1 3 61 empty_disk-Free (omega arith)

-- A disk with a single block behind the reserved ones.
abbrev small_disk : Disk
small_disk = record {
  description = record { cylinders = 1; sectors_per_cylinder = 4; bytes_per_sector = 256 };
  sector = λ addr. replicate 256 0;
}

abbrev small_formatted : Disk
small_formatted = formatted zero_env small_disk 4

small_formatted-Free : Free small_formatted 1 3 1
small_formatted-Free =
    let whole = IsFormatted-formatted zero_env env_fits root_fits small_disk refl (omega arith) in
    whole.free

allocate-Exhausted_example :
    (d' : Disk) × (allocate 2 (idle small_formatted 1) ≡ done (3 ∷ 3 ∷ []) (idle d' 1))
    × Free d' 1 3 1
    × SameBut 1 small_formatted d'
allocate-Exhausted_example = allocate-Exhausted 2 small_formatted 1 3 small_formatted-Free

small_ram-IsSized : IsSized (RamDisk.create 2 3 4)
small_ram-IsSized = create-IsSized 2 3 4 (omega arith) (omega arith)

read_refines_example :
    view_run (RamDisk.read 5 (RamDisk.create 2 3 4)) ≡ read_sector 5 (view (RamDisk.create 2 3 4))
read_refines_example = read_refines small_ram-IsSized 5

write_refines_example :
    view_run (RamDisk.write 5 (1 ∷ 2 ∷ 3 ∷ 4 ∷ []) (RamDisk.create 2 3 4))
    ≡ write_sector 5 (1 ∷ 2 ∷ 3 ∷ 4 ∷ []) (view (RamDisk.create 2 3 4))
write_refines_example = write_refines small_ram-IsSized 5 (1 ∷ 2 ∷ 3 ∷ 4 ∷ [])

encode_directory-DirectoryAt_example :
    DirectoryAt (encode_directory zero_env.node_memory) zero_env.node_memory
    × (decode_directory (encode_directory zero_env.node_memory) ≡ zero_env.node_memory)
encode_directory-DirectoryAt_example =
    encode_directory-DirectoryAt zero_env.node_memory env_fits.node_memory

encode_allocator-AllocatorAt_example :
    AllocatorAt (encode_allocator zero_env.root_memory) zero_env.root_memory
    × (decode_allocator (encode_allocator zero_env.root_memory) ≡ zero_env.root_memory)
encode_allocator-AllocatorAt_example = encode_allocator-AllocatorAt zero_env.root_memory root_fits

power_of_2_iff_example : (power_of_2 64 ≡ some 6) ↔ (64 ≡ 2 ^ 6)
power_of_2_iff_example = power_of_2_iff 64 6 (omega arith)

refused_iff_example :
    (refused 5 4 8 ≡ false)
    ↔ (((i : ℕ) × (8 ≡ 2 ^ i)) × ((j : ℕ) × (4 ≡ 2 ^ j)) × (8 * 4 * 5 < 2 ^ 64))
refused_iff_example = refused_iff 5 4 8 (omega arith) (omega arith)

-- Four cylinders of two sectors of two bytes.
abbrev pub small_receiver : Receiver
small_receiver = record {
  drive = record {
    cylinders = 4;
    sectors_per_cylinder = 2;
    bytes_per_sector = 2;
    disk_size = 16;
    addr_size = 8;
    sector_addr_bits = 1;
    sector_addr_bitmask = 1;
    sim_move_cost = 10;
    file_data = replicate 16 0;
    receiver_loop = true;
  };
  prev_cylinder_no = 0;
}

serve_io-write_example :
    (r' : Receiver) × (wait : ℕ) × (serve_io (write_sector_at 1 7 (8 ∷ 9 ∷ [])) small_receiver
      ≡ done (acknowledged 1, wait) r')
    × ((tid' : ℕ)
        → serve_io (read_sector_at tid' 7) r' ≡ done (sector_content tid' (8 ∷ 9 ∷ []), 0) r')
    × ((tid' other : ℕ)
        → 7 ≢ other
        → Inside small_receiver.drive other
        → (wait' : ℕ) × (r'' : Receiver) × (serve_io (read_sector_at tid' other) r'
            ≡ done
                (sector_content tid' (slice small_receiver.drive.file_data (other * 2) 2), wait')
                r''))
serve_io-write_example =
    serve_io-write small_receiver (omega arith) 1 7 (8 ∷ 9 ∷ []) (omega arith) refl
