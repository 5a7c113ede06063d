-- ===== src/Node/Codec/Layout.antt =====
-- Where the fields of the structs of src/fs_block_structure.h lie in a sector: at the offsets that
-- its comments name (10, 18, 60 and 80) and those that the widths of the fields give, on a
-- little-endian host.
use coursework_file_system.Prelude.{
  ℕ, zero, suc, ◌+◌, ◌*◌, ◌/◌, ◌^◌, ◌<◌, ◌≡◌, refl, sym, ap, subst, ◌∙◌, List, [], ◌∷◌, ◌++◌,
  length, take, drop, get_elem?, some, All, arith,
}
use coursework_file_system.Bytes.{Bytes, put_word, get_word, put_words, get_word-put_word}
use coursework_file_system.Node.{
  ExtentHeader, DirectoryNode, AllocatorNode, HeaderFits, DirectoryFits, AllocatorFits, IsWord,
}
use coursework_file_system.Node.Codec.{
  put_header, encode_directory, decode_directory, encode_allocator, decode_allocator,
  decode_directory-encode_directory, decode_allocator-encode_allocator,
}

-- The number in the `w` bytes from `offset` on.
abbrev pub number_at : Bytes → ℕ → ℕ → ℕ
number_at b offset w = (get_word w (drop offset b)).0

-- `file_extent_header`, and the first fields of `alloc_extent_header`, from `offset` on.
pub record HeaderAt (b : Bytes) (h : ExtentHeader) : Type 0 where
  pub magic : number_at b 0x0 2 ≡ h.magic
  pub entries : number_at b 0x2 2 ≡ h.entries
  pub entries_capacity : number_at b 0x4 2 ≡ h.entries_capacity
  pub tree_depth : number_at b 0x6 2 ≡ h.tree_depth
  pub parent_addr : number_at b 0x8 8 ≡ h.parent_addr
  pub left_addr : number_at b 0x10 8 ≡ h.left_addr
  pub right_addr : number_at b 0x18 8 ≡ h.right_addr

-- Words of 8 bytes, one behind the other.
abbrev pub WordsAt : Bytes → List ℕ → Type 0
WordsAt b ns = (i n : ℕ) → get_elem? ns i ≡ some n → number_at b (8 * i) 8 ≡ n

-- `directory_node`
pub record DirectoryAt (b : Bytes) (n : DirectoryNode) : Type 0 where
  pub magic : number_at b 0x0 2 ≡ n.magic
  pub attrib_bits : number_at b 0x2 1 ≡ n.attrib_bits
  pub access_bits : number_at b 0x3 1 ≡ n.access_bits
  pub owner_id : number_at b 0x4 4 ≡ n.owner_id
  pub size_blocks : number_at b 0x8 4 ≡ n.size_blocks
  pub size_offset : number_at b 0xC 4 ≡ n.size_offset
  pub timestamp : number_at b 0x10 8 ≡ n.timestamp
  pub name : take 0x48 (drop 0x18 b) ≡ n.name
  pub header : HeaderAt (drop 0x60 b) n.header
  pub words : WordsAt (drop 0x80 b) n.data_words

-- `allocator_node`
pub record AllocatorAt (b : Bytes) (n : AllocatorNode) : Type 0 where
  pub header : HeaderAt b n.header
  pub free_blocks : number_at b 0x20 8 ≡ n.free_blocks
  pub max_cont_blocks : number_at b 0x28 8 ≡ n.max_cont_blocks
  pub words : WordsAt (drop 0x30 b) n.tree_words

-- The bytes behind a word.
drop-put_word : (w n k : ℕ) (rest : Bytes) → drop (w + k) (put_word w n ++ rest) ≡ drop k rest
unfolding put_word
drop-put_word zero n k rest = ap (λ j. drop j rest) (omega arith)
drop-put_word (suc w) n k rest =
    ap (λ j. drop j (put_word (suc w) n ++ rest)) (shift w k) ∙ drop-put_word w (n / 256) k rest
  where
    shift : (w k : ℕ) → suc w + k ≡ suc (w + k)
    shift w k = omega arith

number_here :
    (w n : ℕ) (b rest : Bytes) → n < 256 ^ w → b ≡ put_word w n ++ rest → (get_word w b).0 ≡ n
number_here w n b rest fits is =
    ap (λ x. (get_word w x).0) is ∙ ap (λ x. x.0) (get_word-put_word w n rest fits)

take_front : (bs rest : Bytes) → take (length bs) (bs ++ rest) ≡ bs
take_front [] rest = refl
take_front (c ∷ bs) rest = ap (λ s. c ∷ s) (take_front bs rest)

drop_front : (bs rest : Bytes) (k : ℕ) → drop (length bs + k) (bs ++ rest) ≡ drop k rest
drop_front [] rest k = ap (λ j. drop j rest) (omega arith)
drop_front (c ∷ bs) rest k =
    ap (λ j. drop j (c ∷ (bs ++ rest))) (shift (length bs) k) ∙ drop_front bs rest k
  where
    shift : (w k : ℕ) → suc w + k ≡ suc (w + k)
    shift w k = omega arith

WordsAt-put_words : (ns : List ℕ) → All IsWord ns → WordsAt (put_words ns) ns
unfolding put_words
WordsAt-put_words [] fits i n h = cc
WordsAt-put_words (m ∷ ns) fits zero n h =
    ap (λ x. x.0) (get_word-put_word 8 m (put_words ns) fits.0) ∙ same h
  where
    same : some m ≡ some n → m ≡ n
    same e = cc
WordsAt-put_words (m ∷ ns) fits (suc i) n h =
    let further : 8 * suc i ≡ 8 + 8 * i = omega arith in
    ap (λ j. number_at (put_words (m ∷ ns)) j 8) further
    ∙ ap (λ b. (get_word 8 b).0) (drop-put_word 8 m (8 * i) (put_words ns))
    ∙ WordsAt-put_words ns fits.1 i n h

HeaderAt-put_header :
    (h : ExtentHeader) (rest : Bytes) → HeaderFits h → HeaderAt (put_header h rest) h
unfolding put_header
HeaderAt-put_header h rest f = record {
  magic = number_here 2 h.magic _ _ f.magic (refl);
  entries = number_here 2 h.entries _ _ f.entries (drop-put_word 2 h.magic 0 _);
  entries_capacity =
      number_here 2 h.entries_capacity _ _ f.entries_capacity
        (drop-put_word 2 h.magic 2 _ ∙ drop-put_word 2 h.entries 0 _);
  tree_depth = number_here 2 h.tree_depth _ _ f.tree_depth (
      drop-put_word 2 h.magic 4 _
      ∙ drop-put_word 2 h.entries 2 _
      ∙ drop-put_word 2 h.entries_capacity 0 _);
  parent_addr = number_here 8 h.parent_addr _ _ f.parent_addr (
      drop-put_word 2 h.magic 6 _
      ∙ drop-put_word 2 h.entries 4 _
      ∙ drop-put_word 2 h.entries_capacity 2 _
      ∙ drop-put_word 2 h.tree_depth 0 _);
  left_addr = number_here 8 h.left_addr _ _ f.left_addr (
      drop-put_word 2 h.magic 14 _
      ∙ drop-put_word 2 h.entries 12 _
      ∙ drop-put_word 2 h.entries_capacity 10 _
      ∙ drop-put_word 2 h.tree_depth 8 _
      ∙ drop-put_word 8 h.parent_addr 0 _);
  right_addr = number_here 8 h.right_addr _ _ f.right_addr (
      drop-put_word 2 h.magic 22 _
      ∙ drop-put_word 2 h.entries 20 _
      ∙ drop-put_word 2 h.entries_capacity 18 _
      ∙ drop-put_word 2 h.tree_depth 16 _
      ∙ drop-put_word 8 h.parent_addr 8 _
      ∙ drop-put_word 8 h.left_addr 0 _);
}

drop-put_header :
    (h : ExtentHeader) (k : ℕ) (rest : Bytes) → drop (32 + k) (put_header h rest) ≡ drop k rest
unfolding put_header
drop-put_header h k rest =
    let past : 32 + k ≡ 2 + (2 + (2 + (2 + (8 + (8 + (8 + k)))))) = omega arith in
    ap (λ j. drop j (put_header h rest)) past
    ∙ drop-put_word 2 h.magic _ _
    ∙ drop-put_word 2 h.entries _ _
    ∙ drop-put_word 2 h.entries_capacity _ _
    ∙ drop-put_word 2 h.tree_depth _ _
    ∙ drop-put_word 8 h.parent_addr _ _
    ∙ drop-put_word 8 h.left_addr _ _
    ∙ drop-put_word 8 h.right_addr k rest

module _ (n : DirectoryNode) (f : DirectoryFits n) where
  abbrev behind_name : Bytes
  behind_name = put_header n.header (put_words n.data_words)

  past_numbers : (k : ℕ) → drop (24 + k) (encode_directory n) ≡ drop k (n.name ++ behind_name)
  unfolding encode_directory
  past_numbers k =
      let past : 24 + k ≡ 2 + (1 + (1 + (4 + (4 + (4 + (8 + k)))))) = omega arith in
      ap (λ j. drop j (encode_directory n)) past
      ∙ drop-put_word 2 n.magic _ _
      ∙ drop-put_word 1 n.attrib_bits _ _
      ∙ drop-put_word 1 n.access_bits _ _
      ∙ drop-put_word 4 n.owner_id _ _
      ∙ drop-put_word 4 n.size_blocks _ _
      ∙ drop-put_word 4 n.size_offset _ _
      ∙ drop-put_word 8 n.timestamp k _

  past_name : (k : ℕ) → drop (96 + k) (encode_directory n) ≡ drop k behind_name
  past_name k =
      let past : 96 + k ≡ 24 + (72 + k) = omega arith in
      let size : 72 + k ≡ length n.name + k = omega (arith, f.name) in
      ap (λ j. drop j (encode_directory n)) past
      ∙ past_numbers (72 + k)
      ∙ ap (λ j. drop j (n.name ++ behind_name)) size
      ∙ drop_front n.name behind_name k

  -- The bytes that are written for a directory node whose fields fit their widths hold each field
  -- at its offset in the struct: the fields from 00 on, the time at 10, the name at 18, the header
  -- at 60 and the words of `data` from 80 on. And they are read back as the same node.
  pub encode_directory-DirectoryAt :
      DirectoryAt (encode_directory n) n × (decode_directory (encode_directory n) ≡ n)
  unfolding encode_directory
  encode_directory-DirectoryAt = (
    record {
      magic = number_here 2 n.magic _ _ f.magic (refl);
      attrib_bits = number_here 1 n.attrib_bits _ _ f.attrib_bits (drop-put_word 2 n.magic 0 _);
      access_bits =
          number_here 1 n.access_bits _ _ f.access_bits
            (drop-put_word 2 n.magic 1 _ ∙ drop-put_word 1 n.attrib_bits 0 _);
      owner_id = number_here 4 n.owner_id _ _ f.owner_id (
          drop-put_word 2 n.magic 2 _
          ∙ drop-put_word 1 n.attrib_bits 1 _
          ∙ drop-put_word 1 n.access_bits 0 _);
      size_blocks = number_here 4 n.size_blocks _ _ f.size_blocks (
          drop-put_word 2 n.magic 6 _
          ∙ drop-put_word 1 n.attrib_bits 5 _
          ∙ drop-put_word 1 n.access_bits 4 _
          ∙ drop-put_word 4 n.owner_id 0 _);
      size_offset = number_here 4 n.size_offset _ _ f.size_offset (
          drop-put_word 2 n.magic 10 _
          ∙ drop-put_word 1 n.attrib_bits 9 _
          ∙ drop-put_word 1 n.access_bits 8 _
          ∙ drop-put_word 4 n.owner_id 4 _
          ∙ drop-put_word 4 n.size_blocks 0 _);
      timestamp = number_here 8 n.timestamp _ _ f.timestamp (
          drop-put_word 2 n.magic 14 _
          ∙ drop-put_word 1 n.attrib_bits 13 _
          ∙ drop-put_word 1 n.access_bits 12 _
          ∙ drop-put_word 4 n.owner_id 8 _
          ∙ drop-put_word 4 n.size_blocks 4 _
          ∙ drop-put_word 4 n.size_offset 0 _);
      name =
          ap (take 72) (past_numbers 0)
          ∙ ap (λ j. take j (n.name ++ behind_name)) (sym f.name)
          ∙ take_front n.name behind_name;
      header =
          subst (λ b. HeaderAt b n.header) (sym (past_name 0))
            (HeaderAt-put_header n.header (put_words n.data_words) f.header);
      words =
          subst (λ b. WordsAt b n.data_words)
            (sym (past_name 32 ∙ drop-put_header n.header 0 (put_words n.data_words)))
            (WordsAt-put_words n.data_words f.in_words);
    },
    decode_directory-encode_directory n f,
  )

module _ (n : AllocatorNode) (f : AllocatorFits n) where
  -- The bytes that are written for an allocator node whose fields fit their widths hold each field
  -- at its offset in the struct: the header's from 00 on, the number of free blocks at 20, the other
  -- at 28, and the words of `tree_data` from 30 on. And they are read back as the same node.
  pub encode_allocator-AllocatorAt :
      AllocatorAt (encode_allocator n) n × (decode_allocator (encode_allocator n) ≡ n)
  unfolding encode_allocator
  encode_allocator-AllocatorAt =
      let rest =
        put_word 8 n.free_blocks ++ (put_word 8 n.max_cont_blocks ++ put_words n.tree_words) in
      (
        record {
          header = HeaderAt-put_header n.header rest f.header;
          free_blocks =
              number_here 8 n.free_blocks _ _ f.free_blocks (drop-put_header n.header 0 rest);
          max_cont_blocks =
              number_here 8 n.max_cont_blocks _ _ f.max_cont_blocks
                (drop-put_header n.header 8 rest ∙ drop-put_word 8 n.free_blocks 0 _);
          words =
              subst (λ b. WordsAt b n.tree_words)
                (sym (
                  drop-put_header n.header 16 rest
                  ∙ drop-put_word 8 n.free_blocks 8 _
                  ∙ drop-put_word 8 n.max_cont_blocks 0 _))
                (WordsAt-put_words n.tree_words f.in_words);
        },
        decode_allocator-encode_allocator n f,
      )
