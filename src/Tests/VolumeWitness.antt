-- ===== src/Tests/VolumeWitness.antt =====
-- The theorems on whole volumes and on sequences of requests, on a formatted disk of 64 sectors.
use coursework_file_system.Prelude.{
  ℕ, ◌+◌, ◌-◌, ◌≡◌, refl, true, false, List, [], ◌∷◌, replicate, arith,
}
use coursework_file_system.Bytes.{Bytes}
use coursework_file_system.Run.{done}
use coursework_file_system.CString.{c_str, same_text, has_char}
use coursework_file_system.CString.Laws.{same_text_self}
use coursework_file_system.Node.{folder_bit, DirectoryNode, default_folder}
use coursework_file_system.Disk.{Disk}
use coursework_file_system.Table.{lookup}
use coursework_file_system.Fs.{is_name_valid}
use coursework_file_system.Fs.Mounted.{mounted}
use coursework_file_system.Fs.File.{write_all}
use coursework_file_system.Fs.Folder.{create, remove}
use coursework_file_system.Fs.Folder.Create.{Created, create-HasRoom}
use coursework_file_system.Fs.Folder.Search.{search}
use coursework_file_system.Fs.Volume.{Volume, Sound}
use coursework_file_system.Fs.Volume.Create.{created, Sound-created}
use coursework_file_system.Fs.Volume.Remove.{removed}
use coursework_file_system.Fs.Volume.Write.{written}
use coursework_file_system.Fs.Volume.Operations.{create-Sound, remove-Sound, write_all-Sound}
use coursework_file_system.Fs.Volume.Format.{root_volume, Sound-IsFormatted}
use coursework_file_system.Server.Fresh.{HasRoom-IsFormatted}
use coursework_file_system.Protocol.{reply_ok}
use coursework_file_system.Server.{
  Session, Message, Request, reply, number, text, ls, mk, cat, write, insert_at,
}
use coursework_file_system.Server.Tree.{spliced, View, find, is_taken, answers}
use coursework_file_system.Server.Tree.Names.{UniqueNames}
use coursework_file_system.Server.Serving.{session, Shows}
use coursework_file_system.Server.Serving.Sequence.{
  root_view, serve_all, FitsAll, serve_all-UniqueNames,
}
use coursework_file_system.Tests.Basic.{zero_env}
use coursework_file_system.Tests.Disks.{env_fits, root_fits, empty_disk, empty_disk-IsFormatted}

abbrev stack : Bytes
stack = replicate 0x100 0

abbrev ab : Bytes
ab = b'a' ∷ b'b' ∷ []

abbrev hi : Bytes
hi = b'h' ∷ b'i' ∷ []

abbrev top : View
top = root_view ((0, 1) ∷ []) (b'/' ∷ [])

-- `mk ab`, `w ab hi`, `i ab 1 hi`, `cat ab`, `ls`.
abbrev requests : List Request
requests = mk false ab ∷ write ab hi ∷ insert_at ab 1 hi ∷ cat ab ∷ ls ∷ []

abbrev replies : List (List Message)
replies =
    (reply reply_ok ∷ [])
    ∷ (reply reply_ok ∷ [])
    ∷ (reply reply_ok ∷ [])
    ∷ (reply reply_ok ∷ text (b'h' ∷ b'h' ∷ b'i' ∷ b'i' ∷ []) ∷ [])
    ∷ (reply reply_ok ∷ number 1 ∷ text ab ∷ [])
    ∷ []

answers-requests : (answers requests top).0 ≡ replies
unfolding answers find is_taken spliced same_text has_char c_str lookup
answers-requests = refl

requests-FitsAll : FitsAll requests top
unfolding find is_taken spliced same_text has_char c_str
requests-FitsAll = (
  tt,
  (
    record { nonempty = omega arith; small = omega arith },
    (record { nonempty = omega arith; small = omega arith }, (tt, (tt, tt))),
  ),
)

abbrev root_node : DirectoryNode
root_node = default_folder zero_env.node_memory 7

abbrev root : Volume
root = root_volume zero_env

empty-Sound : Sound empty_disk 3 61 root
empty-Sound = Sound-IsFormatted zero_env empty_disk empty_disk-IsFormatted (omega arith)

ab-valid : is_name_valid ab ≡ true
unfolding is_name_valid same_text has_char
ab-valid = refl

made :
    (d' : Disk) × (child : DirectoryNode) × (create zero_env 0 ab false (mounted empty_disk 64 [])
      ≡ done tt (mounted d' 64 []))
    × Created empty_disk d' 3 61 0 root_node [] ab false child
unfolding search
made =
    create-HasRoom empty_disk 64 [] 3 61 0 root_node [] zero_env ab false
      (HasRoom-IsFormatted zero_env env_fits empty_disk empty_disk-IsFormatted (omega arith))
      env_fits (ground arith) ab-valid (omega arith) refl

abbrev made_disk : Disk
made_disk = made.0

abbrev made_child : DirectoryNode
made_child = made.1

made-Created : Created empty_disk made_disk 3 61 0 root_node [] ab false made_child
made-Created = made.3

abbrev made_volume : Volume
made_volume = created root 0 [] 3 false made_child

Sound-made : Sound made_disk 4 60 made_volume
Sound-made =
    Sound-created empty_disk made_disk 3 61 root empty-Sound 0 [] refl ab false made_child
      made-Created

-- The file "ab" is made, filled and removed.
create-Sound_example :
    (d' : Disk) × (child : DirectoryNode) × (create zero_env 0 ab false (mounted empty_disk 64 [])
      ≡ done tt (mounted d' 64 []))
    × (c_str child.name ≡ ab)
    × (folder_bit child ≡ false)
    × (child.header.parent_addr ≡ 0)
    × Sound d' 4 60 (created root 0 [] 3 false child)
unfolding search
create-Sound_example =
    create-Sound empty_disk 64 [] 3 61 root empty-Sound 0 zero_env ab false [] env_fits refl
      (omega arith) (omega arith) (ground arith) ab-valid (omega arith) refl

write_all-Sound_example :
    (d' : Disk) × (node' : DirectoryNode) × (ext' : ℕ → ℕ) × (write_all stack 3 hi
        (mounted made_disk 64 [])
      ≡ done tt (mounted d' 64 []))
    × Sound d'
        (4 + (1 - made_child.header.entries))
        (60 - (1 - made_child.header.entries))
        (written made_volume 3 ext' hi node')
write_all-Sound_example =
    write_all-Sound made_disk 64 [] 4 60 made_volume Sound-made 3 stack (λ i. i) [] hi refl refl
      (omega arith) (omega arith) (omega (arith, made-Created.empty))

remove-Sound_example :
    (d' : Disk) × (remove 0 ab false (mounted made_disk 64 []) ≡ done tt (mounted d' 64 []))
    × Sound d' 4 60 (removed made_volume 0 (3 ∷ []) 0)
unfolding lookup search
remove-Sound_example =
    remove-Sound made_disk 64 [] 4 60 made_volume Sound-made 0 ab false (3 ∷ []) 0 3 refl
      (rw (made-Created.typed, made-Created.named, same_text_self ab) refl) refl

serve_all-UniqueNames_example :
    (out : List (List Message)) × (s' : Session) × (left : ℕ) × (w' : View) × (serve_all zero_env
        stack requests
        (session empty_disk 64 top)
      ≡ done out s')
    × Shows left s' w'
    × UniqueNames w'.tree
serve_all-UniqueNames_example =
    serve_all-UniqueNames zero_env env_fits root_fits stack refl empty_disk ((0, 1) ∷ [])
      (b'/' ∷ []) requests empty_disk-IsFormatted (omega arith) requests-FitsAll
