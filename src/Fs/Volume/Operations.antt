-- ===== src/Fs/Volume/Operations.antt =====
-- `create`, `remove` and `write_all` of src/fs.h on a sound volume: each runs to its end and leaves
-- the sound volume with its one change.
use coursework_file_system.Prelude.{
  ℕ, ◌+◌, ◌-◌, ◌%◌, ◌^◌, ◌<◌, ◌≤◌, ◌≡◌, Bool, true, none, some, List, length, arith,
}
use coursework_file_system.Bytes.{Bytes}
use coursework_file_system.Run.{done}
use coursework_file_system.Table.{lookup}
use coursework_file_system.CString.{c_str}
use coursework_file_system.CString.Laws.{IsText}
use coursework_file_system.Node.{DirectoryNode, folder_bit, name_length_max}
use coursework_file_system.Disk.{Disk}
use coursework_file_system.Fs.{Env, is_name_valid}
use coursework_file_system.Fs.Mounted.{mounted}
use coursework_file_system.Fs.File.{Stack, write_all}
use coursework_file_system.Fs.File.RoundTrip.{added, write_all-FileAt}
use coursework_file_system.Fs.Folder.{create, remove, is_child}
use coursework_file_system.Fs.Folder.Child.{EnvFits}
use coursework_file_system.Fs.Folder.Create.{has_name, create-HasRoom}
use coursework_file_system.Fs.Folder.Remove.{remove-FolderAt}
use coursework_file_system.Fs.Folder.Search.{search}
use coursework_file_system.Fs.Volume.{folder, file, Volume, view, length-view, Sound}
use coursework_file_system.Fs.Volume.Create.{created, Sound-created}
use coursework_file_system.Fs.Volume.Remove.{removed, Sound-removed}
use coursework_file_system.Fs.Volume.Write.{FileAt-Sound, written, Sound-written}

module _ (d : Disk) (max : ℕ) (counts : List (ℕ × ℕ)) (first count : ℕ) (v : Volume)
    (sound : Sound d first count v) (a : ℕ) where
  -- `create` with a valid name of fewer than 72 bytes that no child has, in a folder of a sound
  -- volume with fewer than 16 entries, and with more than one free block: it succeeds, and the
  -- volume is sound, with one block fewer in the pool and one child more, which has the name, the
  -- type and the folder as parent, and is empty. All other folders and files are as they were. The
  -- contents of memory and the clock fit their fields.
  pub create-Sound :
      (env : Env) (name : Bytes) (is_folder : Bool) (ps : List ℕ)
      → EnvFits env
      → v.items a ≡ some (folder ps)
      → length ps < 16
      → 1 < count
      → IsText name
      → is_name_valid name ≡ true
      → length name < name_length_max
      → search (has_name name) (view v.nodes ps) 0 ≡ none
      → (d' : Disk) × (child : DirectoryNode) × (create env a name is_folder (mounted d max counts)
          ≡ done tt (mounted d' max counts))
        × (c_str child.name ≡ name)
        × (folder_bit child ≡ is_folder)
        × (child.header.parent_addr ≡ a)
        × Sound d' (first + 1) (count - 1) (created v a ps first is_folder child)
  create-Sound env name is_folder ps ef item few more text valid short new =
      let f = sound.folders a ps item in
      let size = length-view v.nodes ps in
      let (d', child, run, made) =
        create-HasRoom d max counts first count a (v.nodes a) (view v.nodes ps) env name is_folder
          (record {
            at = f.at;
            free = sound.free;
            more = more;
            on_disk = omega (arith, sound.full, more);
            reserved = sound.reserved;
            below_capacity = omega (arith, f.capacity, f.at.count, size, few);
            room = omega (arith, size, few);
          })
          ef text valid short new in
      (
        d',
        child,
        run,
        made.named,
        made.typed,
        made.parent,
        Sound-created d d' first count v sound a ps item name is_folder child made,
      )

  -- `remove` of a name and a type of which the `i`th entry of a folder of a sound volume is the first, with no
  -- handle in the table under that entry's address modulo 2 ^ 32: it succeeds, and the volume is
  -- sound with the same pool, and the folder without that entry. All other folders and files are as
  -- they were.
  pub remove-Sound :
      (name : Bytes) (is_folder : Bool) (ps : List ℕ) (i p : ℕ)
      → v.items a ≡ some (folder ps)
      → search (is_child is_folder name) (view v.nodes ps) 0 ≡ some (i, p)
      → lookup (p % 2 ^ 32) counts ≡ none
      → (d' : Disk) × (remove a name is_folder (mounted d max counts)
          ≡ done tt (mounted d' max counts))
        × Sound d' first count (removed v a ps i)
  remove-Sound name is_folder ps i p item found idle =
      let (d', run, at, free, kept, same) =
        remove-FolderAt d max counts first count a (v.nodes a) (view v.nodes ps) name is_folder i p
          (sound.folders a ps item).at sound.free found idle in
      (d', run, Sound-removed d d' first count v sound a ps item i same at free kept)

  -- `write_all` of a text of 1 to 2048 characters to a file of a sound volume, with a pool that
  -- keeps a free block behind those that the file grows by: it succeeds, and the volume is sound,
  -- with that text as the file's content and those blocks taken off the pool. All other folders and
  -- files are as they were. The buffer has 256 bytes.
  pub write_all-Sound :
      (stack : Stack) (ext : ℕ → ℕ) (old bytes : Bytes)
      → v.items a ≡ some (file ext old)
      → length stack ≡ 0x100
      → 0 < length bytes
      → length bytes ≤ 2048
      → added (v.nodes a) (length bytes) < count
      → (d' : Disk) × (node' : DirectoryNode) × (ext' : ℕ → ℕ) × (write_all stack a bytes
            (mounted d max counts)
          ≡ done tt (mounted d' max counts))
        × Sound d'
            (first + added (v.nodes a) (length bytes))
            (count - added (v.nodes a) (length bytes))
            (written v a ext' bytes node')
  write_all-Sound stack ext old bytes item buffer nonempty small more =
      let (d', node', ext', run, w) =
        write_all-FileAt d max counts first count a (v.nodes a) ext stack bytes
          (FileAt-Sound sound a ext old item) buffer nonempty small more
          (omega (arith, sound.full, more)) in
      (
        d',
        node',
        ext',
        run,
        Sound-written d d' first count v sound a ext ext' old bytes node' item w
            (omega (arith, more)),
      )
