-- ===== src/Node/Codec.antt =====
-- The memory layout of the nodes of src/fs_block_structure.h: the bytes that `disk_view` writes
-- for a node, and the node that it reads from a sector.
pub mod Layout
use coursework_file_system.Prelude.{All, ℕ, ◌+◌, ◌≡◌, List, [], ◌++◌, arith, length, length-append}
use mathlib.Core.List.{append-nil}
use coursework_file_system.Bytes.{
  Bytes, put_word, get_word, put_words, get_words, get_bytes, get_word-put_word,
  get_words-put_words, get_bytes-append, length-put_word, length-put_words,
}
use coursework_file_system.Node.{
  ExtentHeader, DirectoryNode, AllocatorNode, HeaderFits, DirectoryFits, AllocatorFits, IsWord,
}

-- The header's 32 bytes, before `rest`.
unfoldable pub put_header : ExtentHeader → Bytes → Bytes
put_header h rest =
    put_word 2 h.magic
    ++ (put_word 2 h.entries
        ++ (put_word 2 h.entries_capacity
            ++ (put_word 2 h.tree_depth
                ++ (put_word 8 h.parent_addr
                    ++ (put_word 8 h.left_addr ++ (put_word 8 h.right_addr ++ rest))))))

unfoldable pub get_header : Bytes → ExtentHeader × Bytes
get_header b =
    let (magic, b1) = get_word 2 b in
    let (entries, b2) = get_word 2 b1 in
    let (capacity, b3) = get_word 2 b2 in
    let (depth, b4) = get_word 2 b3 in
    let (parent, b5) = get_word 8 b4 in
    let (left, b6) = get_word 8 b5 in
    let (right, b7) = get_word 8 b6 in
    (
      record {
        magic = magic;
        entries = entries;
        entries_capacity = capacity;
        tree_depth = depth;
        parent_addr = parent;
        left_addr = left;
        right_addr = right;
      },
      b7,
    )

get_header-put_header :
    (h : ExtentHeader) (rest : Bytes) → HeaderFits h → get_header (put_header h rest) ≡ (h, rest)
unfolding get_header put_header
get_header-put_header h rest f = simp (
  get_word-put_word 2 h.magic _ f.magic,
  get_word-put_word 2 h.entries _ f.entries,
  get_word-put_word 2 h.entries_capacity _ f.entries_capacity,
  get_word-put_word 2 h.tree_depth _ f.tree_depth,
  get_word-put_word 8 h.parent_addr _ f.parent_addr,
  get_word-put_word 8 h.left_addr _ f.left_addr,
  get_word-put_word 8 h.right_addr _ f.right_addr,
)

length-put_header :
    (h : ExtentHeader) (rest : Bytes) → length (put_header h rest) ≡ 32 + length rest
unfolding put_header
length-put_header h rest = simp (length-append, length-put_word) (omega arith)

-- `directory_node` as the 256 bytes of a sector.
unfoldable pub encode_directory : DirectoryNode → Bytes
encode_directory n =
    put_word 2 n.magic
    ++ (put_word 1 n.attrib_bits
        ++ (put_word 1 n.access_bits
            ++ (put_word 4 n.owner_id
                ++ (put_word 4 n.size_blocks
                    ++ (put_word 4 n.size_offset
                        ++ (put_word 8 n.timestamp
                            ++ (n.name ++ put_header n.header (put_words n.data_words))))))))

unfoldable pub decode_directory : Bytes → DirectoryNode
decode_directory b =
    let (magic, b1) = get_word 2 b in
    let (attrib, b2) = get_word 1 b1 in
    let (access, b3) = get_word 1 b2 in
    let (owner, b4) = get_word 4 b3 in
    let (blocks, b5) = get_word 4 b4 in
    let (offset, b6) = get_word 4 b5 in
    let (time, b7) = get_word 8 b6 in
    let (name, b8) = get_bytes 72 b7 in
    let (header, b9) = get_header b8 in
    let (words, b10) = get_words 16 b9 in
    record {
      magic = magic;
      attrib_bits = attrib;
      access_bits = access;
      owner_id = owner;
      size_blocks = blocks;
      size_offset = offset;
      timestamp = time;
      name = name;
      header = header;
      data_words = words;
    }

-- `allocator_node`, likewise.
unfoldable pub encode_allocator : AllocatorNode → Bytes
encode_allocator n =
    put_header n.header
      (put_word 8 n.free_blocks ++ (put_word 8 n.max_cont_blocks ++ put_words n.tree_words))

unfoldable pub decode_allocator : Bytes → AllocatorNode
decode_allocator b =
    let (header, b1) = get_header b in
    let (free, b2) = get_word 8 b1 in
    let (cont, b3) = get_word 8 b2 in
    let (words, b4) = get_words 26 b3 in
    record { header = header; free_blocks = free; max_cont_blocks = cont; tree_words = words }

get_bytes_72 : (bs rest : Bytes) → length bs ≡ 72 → get_bytes 72 (bs ++ rest) ≡ (bs, rest)
get_bytes_72 bs rest h = rw (← h) (get_bytes-append bs rest)

get_words-All :
    (k : ℕ) (ns : List ℕ) → length ns ≡ k → All IsWord ns → get_words k (put_words ns) ≡ (ns, [])
get_words-All k ns h f = rw (← h, ← append-nil (put_words ns)) (get_words-put_words ns [] f)

-- A directory node whose fields fit their widths is read back as it was written.
pub decode_directory-encode_directory :
    (n : DirectoryNode) → DirectoryFits n → decode_directory (encode_directory n) ≡ n
unfolding decode_directory encode_directory
decode_directory-encode_directory n f = simp (
  get_word-put_word 2 n.magic _ f.magic,
  get_word-put_word 1 n.attrib_bits _ f.attrib_bits,
  get_word-put_word 1 n.access_bits _ f.access_bits,
  get_word-put_word 4 n.owner_id _ f.owner_id,
  get_word-put_word 4 n.size_blocks _ f.size_blocks,
  get_word-put_word 4 n.size_offset _ f.size_offset,
  get_word-put_word 8 n.timestamp _ f.timestamp,
  get_bytes_72 n.name _ f.name,
  get_header-put_header n.header _ f.header,
  get_words-All 16 n.data_words f.words f.in_words,
)

-- An allocator node whose fields fit their widths is read back as it was written.
pub decode_allocator-encode_allocator :
    (n : AllocatorNode) → AllocatorFits n → decode_allocator (encode_allocator n) ≡ n
unfolding decode_allocator encode_allocator
decode_allocator-encode_allocator n f = simp (
  get_word-put_word 8 n.free_blocks _ f.free_blocks,
  get_word-put_word 8 n.max_cont_blocks _ f.max_cont_blocks,
  get_header-put_header n.header _ f.header,
  get_words-All 26 n.tree_words f.words f.in_words,
)

-- `static_assert(sizeof(directory_node) == 0x100)`
pub length-encode_directory :
    (n : DirectoryNode) → DirectoryFits n → length (encode_directory n) ≡ 256
unfolding encode_directory
length-encode_directory n f =
    simp (length-append, length-put_word, length-put_words, length-put_header, f.name, f.words)
      (omega arith)

-- `static_assert(sizeof(allocator_node) == 0x100)`
pub length-encode_allocator :
    (n : AllocatorNode) → AllocatorFits n → length (encode_allocator n) ≡ 256
unfolding encode_allocator
length-encode_allocator n f =
    simp (length-append, length-put_word, length-put_words, length-put_header, f.words)
      (omega arith)
