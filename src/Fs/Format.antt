-- ===== src/Fs/Format.antt =====
-- `format` and the constructor of `file_system` of src/fs.h: what a formatted disk holds, and when
-- a disk is formatted.
use coursework_file_system.Prelude.{
  ℕ, ◌+◌, ◌-◌, ◌%◌, ◌^◌, ◌<◌, ◌≡◌, refl, ◌∙◌, Bool, true, false, ◌&&◌, List, [], set, length-set,
  All-set, get_or-set_self, get_or-set_ne, arith, ◌==◌,
}
use coursework_file_system.Run.{done}
use coursework_file_system.Node.{
  AllocatorNode, AllocatorFits, Extent, IsWord, magic_number, default_folder, default_root,
}
use coursework_file_system.Node.Codec.{
  encode_directory, encode_allocator, decode_directory, decode_allocator, length-encode_allocator,
}
use coursework_file_system.Disk.{Disk, sectors}
use coursework_file_system.DiskView.{block_size, stored, read_as-done, write_as-done}
use coursework_file_system.Allocator.{extent}
use coursework_file_system.Allocator.Free.{Free}
use coursework_file_system.Fs.{
  Env, file_root, alloc_root, reserved_blocks, format, check_magic, open_disk, read_node, on_disk,
}
use coursework_file_system.Fs.Mounted.{mounted, Holds-stored, Holds-frame, write_node-done}
use coursework_file_system.Fs.Folder.Layout.{FolderAt}
use coursework_file_system.Fs.Folder.Child.{EnvFits, fresh_node-DirectoryFits, entries-fresh_node}

-- The extent of all blocks behind the reserved ones.
abbrev pub initial : ℕ → Extent
initial max = record {
  disk_block_no = reserved_blocks;
  len = (max + 2 ^ 64 - reserved_blocks) % 2 ^ 64;
}

root_node : Env → ℕ → AllocatorNode
root_node env max = default_root env.root_memory (initial max)

default_root-AllocatorFits :
    (memory : AllocatorNode) (e : Extent)
    → AllocatorFits memory
    → IsWord e.disk_block_no
    → IsWord e.len
    → AllocatorFits (default_root memory e)
unfolding default_root
default_root-AllocatorFits memory e f lo hi =
    let words = set memory.tree_words 0 e.disk_block_no in
    ground (
      arith,
      length-set memory.tree_words 0 e.disk_block_no,
      length-set words 1 e.len,
      All-set IsWord words 1 e.len
          (All-set IsWord memory.tree_words 0 e.disk_block_no f.in_words lo) hi,
    )

extent-default_root :
    (memory : AllocatorNode) (e : Extent)
    → AllocatorFits memory
    → ((extent (default_root memory e) 0).disk_block_no ≡ e.disk_block_no)
      × ((extent (default_root memory e) 0).len ≡ e.len)
unfolding default_root
extent-default_root memory e f = (
  get_or-set_ne (set memory.tree_words 0 e.disk_block_no) 1 0 e.len 0 (omega arith)
      ∙ get_or-set_self memory.tree_words 0 e.disk_block_no 0 (omega (arith, f.words)),
  get_or-set_self (set memory.tree_words 0 e.disk_block_no) 1 e.len 0
      (omega (arith, f.words, length-set memory.tree_words 0 e.disk_block_no)),
)

-- A disk as `format` leaves it.
abbrev pub formatted : Env → Disk → ℕ → Disk
formatted env d max =
    stored (stored d file_root (encode_directory (default_folder env.node_memory env.now)))
      alloc_root (encode_allocator (default_root env.root_memory (initial max)))

-- The root folder is empty, and all blocks behind the reserved ones are free.
pub record IsFormatted (env : Env) (d : Disk) : Type 0 where
  pub root : FolderAt d reserved_blocks file_root (default_folder env.node_memory env.now) []
  pub free : Free d alloc_root reserved_blocks (sectors d.description - reserved_blocks)

-- Both root sectors carry the magic number.
unfoldable pub has_magic : Disk → Bool
has_magic d =
    (decode_directory (d.sector file_root)).magic == magic_number
    && (decode_allocator (d.sector alloc_root)).header.magic == magic_number

module _ (env : Env) (ef : EnvFits env) (rf : AllocatorFits env.root_memory) (d : Disk)
    (ready : d.description.bytes_per_sector ≡ block_size)
    (room : reserved_blocks < sectors d.description) where
  len-lt : sectors d.description < 2 ^ 64
  len-lt = omega arith

  pub IsFormatted-formatted : IsFormatted env (formatted env d (sectors d.description))
  unfolding default_root
  IsFormatted-formatted = record {
    root = record {
      holds =
          Holds-frame
            (Holds-stored d file_root (default_folder env.node_memory env.now) ready (omega arith)
              (fresh_node-DirectoryFits env true ef))
            refl refl;
      below = omega arith;
      not_root = omega arith;
      count = entries-fresh_node env true;
      small = omega arith;
      children = tt;
      apart = tt;
    };
    free = record {
      node = default_root env.root_memory (initial (sectors d.description));
      rest = record {
        ready = ready;
        valid = omega arith;
        holds = refl;
        fits =
            default_root-AllocatorFits env.root_memory (initial (sectors d.description)) rf
              (omega arith) (omega arith);
        leaf = refl;
        has_entry = omega arith;
      };
      first_free = (extent-default_root env.root_memory (initial (sectors d.description)) rf).0;
      count_free =
          (extent-default_root env.root_memory (initial (sectors d.description)) rf).1
          ∙ omega (arith, len-lt);
      some_free = omega arith;
      in_range = omega (arith, len-lt);
    };
  }

  -- On a disk of more than three sectors of 256 bytes, `format` empties the root folder, frees all blocks behind the reserved ones, and leaves the
  -- open handles and the geometry alone.
  pub format-IsFormatted :
      (counts : List (ℕ × ℕ))
      → (d' : Disk) × (format env (mounted d (sectors d.description) counts)
          ≡ done tt (mounted d' (sectors d.description) counts))
        × IsFormatted env d'
        × (d'.description ≡ d.description)
  unfolding format on_disk
  format-IsFormatted counts = (
    formatted env d (sectors d.description),
    rw (
      write_node-done d (sectors d.description) counts file_root
          (default_folder env.node_memory env.now) ready (omega arith)
          (fresh_node-DirectoryFits env true ef),
      write_as-done (stored d file_root (encode_directory (default_folder env.node_memory env.now)))
          ready alloc_root (omega arith) encode_allocator
          (default_root env.root_memory (initial (sectors d.description)))
          (length-encode_allocator _ (
            default_root-AllocatorFits env.root_memory (initial (sectors d.description)) rf
              (omega arith) (omega arith))),
    ),
    IsFormatted-formatted,
    refl,
  )

  check_magic-formats :
      has_magic d ≡ false
      → check_magic env (mounted d (sectors d.description) [])
        ≡ format env (mounted d (sectors d.description) [])
  unfolding check_magic read_node on_disk has_magic
  check_magic-formats missing = ground (
    arith,
    read_as-done d ready file_root (omega arith) decode_directory,
    read_as-done d ready alloc_root (omega arith) decode_allocator,
  )

  -- On such a disk the constructor leaves all alone if the root sectors both carry the magic number, and else formats
  -- any other.
  pub open_disk-IsFormatted :
      (has_magic d ≡ true → open_disk env d ≡ done tt (mounted d (sectors d.description) []))
      × (has_magic d ≡ false
          → (d' : Disk) × (open_disk env d ≡ done tt (mounted d' (sectors d.description) []))
            × IsFormatted env d')
  unfolding open_disk check_magic read_node on_disk has_magic
  open_disk-IsFormatted = (
    λ kept. ground (
      arith,
      read_as-done d ready file_root (omega arith) decode_directory,
      read_as-done d ready alloc_root (omega arith) decode_allocator,
    ),
    λ missing.
        let (d', run, whole, same) = format-IsFormatted [] in
        (d', check_magic-formats missing ∙ run, whole),
  )
