-- ===== src/Tests/ProgramWitness.antt =====
-- Arguments of the programs, and the theorem on those of step1/disk.cpp.
use coursework_file_system.Prelude.{◌≡◌, refl, List, [], ◌∷◌}
use coursework_file_system.Bytes.{Bytes}
use coursework_file_system.CString.{same_text}
use coursework_file_system.Misc.{is_uint}
use coursework_file_system.Shell.{chars}
use coursework_file_system.Programs.{
  Options, defaults, launch, usage, crash, invalid_port, stoull, raw_client_args, fs_args,
  fs_client_args, one_port, two_ports, disk_args,
}
use coursework_file_system.Programs.Ports.{Launchable, disk_args-Launchable}

-- ./disk disk -c 16 -s 8 -p 10001
abbrev guide : List Bytes
guide =
    chars "disk"
    ∷ chars "-c"
    ∷ chars "16"
    ∷ chars "-s"
    ∷ chars "8"
    ∷ chars "-p"
    ∷ chars "10001"
    ∷ []

abbrev guide_options : Options
guide_options = record {
  cylinders = 16;
  sectors_per_cylinder = 8;
  bytes_per_sector = 256;
  delay_us = 0;
  port = 10001;
  filename = chars "disk.raw";
}

guide_launched : disk_args guide defaults ≡ launch guide_options
unfolding disk_args stoull is_uint same_text
guide_launched = refl

disk_args-Launchable_example : Launchable (disk_args guide defaults)
disk_args-Launchable_example = disk_args-Launchable guide

-- A number behind "-p" that is no port, and one that is missing.
port_too_small : disk_args (chars "-p" ∷ chars "999" ∷ guide) defaults ≡ invalid_port 999
unfolding disk_args stoull is_uint same_text
port_too_small = refl

no_sectors : disk_args (chars "-s" ∷ chars "0" ∷ []) defaults ≡ usage
unfolding disk_args stoull is_uint same_text
no_sectors = refl

-- The empty argument passes `is_uint`, and `std::stoull` throws.
empty_number : disk_args (chars "-c" ∷ [] ∷ []) defaults ≡ crash
unfolding disk_args stoull is_uint same_text
empty_number = refl

one_port_taken : raw_client_args (chars "client" ∷ chars "10001" ∷ []) ≡ launch 10001
unfolding one_port stoull is_uint
one_port_taken = refl

no_port : fs_args (chars "fs" ∷ []) ≡ usage
unfolding one_port
no_port = refl

big_port : fs_client_args (chars "client" ∷ chars "65536" ∷ []) ≡ invalid_port 65536
unfolding one_port stoull is_uint
big_port = refl

both_ports : two_ports (chars "fs" ∷ chars "10001" ∷ chars "2000" ∷ []) ≡ launch (10001, 2000)
unfolding two_ports stoull is_uint
both_ports = refl
