-- ===== src/Node.antt =====
-- The structs of src/fs_block_structure.h that the file system keeps in sectors: directory nodes
-- (files and folders) and allocator nodes. A field of a fixed width holds a number below
-- 256 ^ width; the hosts are little-endian.
--
-- `char data[0x80]` and `char tree_data[0xD0]` are only reached through `file_pointer`, `extent`
-- and `extent_index`, always at multiples of 8, so they are lists of 64-bit words (16 and 26).
-- C++ leaves what an initialiser does not assign indeterminate: a `default_*` function takes the
-- previous content of the memory as an argument.
pub mod Codec
pub mod Bits
use coursework_file_system.Prelude.{
  All, ℕ, ◌+◌, ◌-◌, ◌*◌, ◌/◌, ◌%◌, ◌^◌, ◌≤◌, ◌<◌, ◌≡◌, Bool, true, false, List, [], ◌∷◌, ◌==◌,
  length, set, get_elem?, if◌then◌else◌, Option, none, some,
}
use coursework_file_system.Bytes.{Bytes}

-- `bit_proxy`: reading bit `digit` of a `char`, and assigning it (`|=` and `&= ~`).
unfoldable pub bit : ℕ → ℕ → Bool
bit ch digit = ch / 2 ^ digit % 2 == 1

unfoldable pub set_bit : ℕ → ℕ → Bool → ℕ
unfolding bit
set_bit ch digit true = if bit ch digit then ch else ch + 2 ^ digit
set_bit ch digit false = if bit ch digit then ch - 2 ^ digit else ch

-- `file_extent_header`
pub record ExtentHeader : Type 0 where
  pub magic : ℕ
  pub entries : ℕ
  pub entries_capacity : ℕ
  pub tree_depth : ℕ
  pub parent_addr : ℕ
  pub left_addr : ℕ
  pub right_addr : ℕ

-- `directory_node`; `data_words` is `data`.
pub record DirectoryNode : Type 0 where
  pub magic : ℕ
  pub attrib_bits : ℕ
  pub access_bits : ℕ
  pub owner_id : ℕ
  pub size_blocks : ℕ
  pub size_offset : ℕ
  pub timestamp : ℕ
  pub name : Bytes
  pub header : ExtentHeader
  pub data_words : List ℕ

-- `allocator_node` with its `alloc_extent_header`; `tree_words` is `tree_data`.
pub record AllocatorNode : Type 0 where
  pub header : ExtentHeader
  pub free_blocks : ℕ
  pub max_cont_blocks : ℕ
  pub tree_words : List ℕ

-- `extent_token`, `alloc_extent_entry`
pub record Extent : Type 0 where
  pub disk_block_no : ℕ
  pub len : ℕ

abbrev pub magic_number : ℕ
magic_number = 0x0909

abbrev pub name_length_max : ℕ
name_length_max = 0x48

unfoldable pub folder_bit : DirectoryNode → Bool
unfolding bit
folder_bit n = bit n.attrib_bits 0

unfoldable pub set_folder_bit : DirectoryNode → Bool → DirectoryNode
unfolding set_bit
set_folder_bit n b = record n { attrib_bits = set_bit n.attrib_bits 0 b }

-- `file_pointer(index)`, as a value and as the target of an assignment; `none` is out of bounds.
abbrev pub file_pointer : DirectoryNode → ℕ → Option ℕ
file_pointer n index = get_elem? n.data_words index

abbrev pub set_file_pointer : DirectoryNode → ℕ → ℕ → DirectoryNode
set_file_pointer n index addr = record n { data_words = set n.data_words index addr }

-- `extent(index).disk_addr`. The second word of an `extent_entry` holds `file_block_no` and, in
-- its upper half, `len`.
abbrev pub extent_addr : DirectoryNode → ℕ → Option ℕ
extent_addr n index = get_elem? n.data_words (2 * index)

abbrev pub set_extent_addr : DirectoryNode → ℕ → ℕ → DirectoryNode
set_extent_addr n index addr = record n { data_words = set n.data_words (2 * index) addr }

-- `extent(index).len = len` on the second word of the entry.
abbrev pub with_len : Option ℕ → ℕ → ℕ
with_len none len = 0
with_len (some w) len = w % 2 ^ 32 + len * 2 ^ 32

abbrev pub set_extent_len : DirectoryNode → ℕ → ℕ → DirectoryNode
set_extent_len n index len =
    let w = with_len (get_elem? n.data_words (2 * index + 1)) len in
    record n { data_words = set n.data_words (2 * index + 1) w }

-- The header that both `default_folder` and `default_file` write.
abbrev pub fresh_header : ℕ → ExtentHeader
fresh_header capacity = record {
  magic = magic_number;
  entries = 0;
  entries_capacity = capacity;
  tree_depth = 0;
  parent_addr = 0;
  left_addr = 0;
  right_addr = 0;
}

unfoldable pub default_folder : DirectoryNode → ℕ → DirectoryNode
unfolding set_folder_bit
default_folder memory now =
    let node = set_folder_bit (record memory { magic = magic_number; attrib_bits = 0 }) true in
    record node { name = set memory.name 0 0; timestamp = now; header = fresh_header 16 }

unfoldable pub default_file : DirectoryNode → ℕ → DirectoryNode
unfolding set_folder_bit
default_file memory now =
    let node = set_folder_bit (record memory { magic = magic_number; attrib_bits = 0 }) false in
    record node {
      size_blocks = 0;
      size_offset = 0;
      name = set memory.name 0 0;
      timestamp = now;
      header = fresh_header 8;
    }

-- `allocator_node::default_root`
unfoldable pub default_root : AllocatorNode → Extent → AllocatorNode
default_root memory init =
    let mh = memory.header in
    let header = record mh {
      magic = magic_number;
      entries = 1;
      entries_capacity = 13;
      tree_depth = 0;
    } in
    record {
      header = header;
      free_blocks = init.len;
      max_cont_blocks = init.len;
      tree_words = set (set memory.tree_words 0 init.disk_block_no) 1 init.len;
    }

-- Every field fits its width, and the arrays have their sizes.
pub record HeaderFits (h : ExtentHeader) : Type 0 where
  pub magic : h.magic < 256 ^ 2
  pub entries : h.entries < 256 ^ 2
  pub entries_capacity : h.entries_capacity < 256 ^ 2
  pub tree_depth : h.tree_depth < 256 ^ 2
  pub parent_addr : h.parent_addr < 256 ^ 8
  pub left_addr : h.left_addr < 256 ^ 8
  pub right_addr : h.right_addr < 256 ^ 8

abbrev pub IsWord : ℕ → Type 0
IsWord n = n < 256 ^ 8

pub record DirectoryFits (n : DirectoryNode) : Type 0 where
  pub magic : n.magic < 256 ^ 2
  pub attrib_bits : n.attrib_bits < 256 ^ 1
  pub access_bits : n.access_bits < 256 ^ 1
  pub owner_id : n.owner_id < 256 ^ 4
  pub size_blocks : n.size_blocks < 256 ^ 4
  pub size_offset : n.size_offset < 256 ^ 4
  pub timestamp : n.timestamp < 256 ^ 8
  pub name : length n.name ≡ name_length_max
  pub header : HeaderFits n.header
  pub words : length n.data_words ≡ 16
  pub in_words : All IsWord n.data_words

pub record AllocatorFits (n : AllocatorNode) : Type 0 where
  pub header : HeaderFits n.header
  pub free_blocks : n.free_blocks < 256 ^ 8
  pub max_cont_blocks : n.max_cont_blocks < 256 ^ 8
  pub words : length n.tree_words ≡ 26
  pub in_words : All IsWord n.tree_words
