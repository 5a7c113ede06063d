-- ===== src/Fs/Folder/Child.antt =====
-- The node that `create` of src/fs.h makes for a new child, and the folder's node with the pointer
-- to it: their fields fit, and the child has the name and the type that were asked for.
use coursework_file_system.Prelude.{
  ℕ, ◌^◌, ◌<◌, ◌≡◌, refl, ◌∙◌, Bool, true, false, length, length-set, All-set, arith,
}
use coursework_file_system.Bytes.{Bytes}
use coursework_file_system.Run.{pure}
use coursework_file_system.CString.{c_str, strcpy}
use coursework_file_system.CString.Laws.{IsText, c_str-strcpy}
use coursework_file_system.Node.{
  DirectoryNode, DirectoryFits, IsWord, folder_bit, set_folder_bit, default_folder, default_file,
  name_length_max,
}
use coursework_file_system.Fs.{Env}
use coursework_file_system.Fs.Folder.{fresh_node, append_pointer, named}

pub record EnvFits (env : Env) : Type 0 where
  pub node_memory : DirectoryFits env.node_memory
  pub now : env.now < 256 ^ 8

abbrev pub with_parent : DirectoryNode → Bytes → ℕ → DirectoryNode
with_parent node name parent =
    let header = node.header in
    record node { name = name; header = record header { parent_addr = parent } }

pub fresh_node-DirectoryFits :
    (env : Env) (is_folder : Bool) → EnvFits env → DirectoryFits (fresh_node env is_folder)
unfolding default_folder default_file set_folder_bit
fresh_node-DirectoryFits env true f = ground (arith, length-set env.node_memory.name 0 0)
fresh_node-DirectoryFits env false f = ground (arith, length-set env.node_memory.name 0 0)

folder_bit-fresh_node :
    (env : Env) (is_folder : Bool) → folder_bit (fresh_node env is_folder) ≡ is_folder
unfolding default_folder default_file folder_bit set_folder_bit
folder_bit-fresh_node env true = refl
folder_bit-fresh_node env false = refl

-- What `create` writes to the child's sector.
pub record IsChild (env : Env) (parent : ℕ) (name : Bytes) (is_folder : Bool)
    (child : DirectoryNode) : Type 0 where
  pub made :
      named (fresh_node env is_folder) parent (strcpy (fresh_node env is_folder).name name)
      ≡ pure child
  pub fits : DirectoryFits child
  pub text : c_str child.name ≡ name
  pub type : folder_bit child ≡ is_folder
  pub empty : child.header.entries ≡ 0
  pub up : child.header.parent_addr ≡ parent
  pub capacity : is_folder ≡ true → child.header.entries_capacity ≡ 16
  pub blank : is_folder ≡ false → child.size_blocks ≡ 0

with_parent-DirectoryFits :
    (node : DirectoryNode) (name : Bytes) (parent : ℕ)
    → DirectoryFits node
    → length name ≡ name_length_max
    → parent < 256 ^ 8
    → DirectoryFits (with_parent node name parent)
with_parent-DirectoryFits node name parent f len word = ground arith

pub entries-fresh_node :
    (env : Env) (is_folder : Bool) → (fresh_node env is_folder).header.entries ≡ 0
unfolding default_folder default_file
entries-fresh_node env true = refl
entries-fresh_node env false = refl

capacity-fresh_node :
    (env : Env) (is_folder : Bool)
    → is_folder ≡ true
    → (fresh_node env is_folder).header.entries_capacity ≡ 16
unfolding default_folder
capacity-fresh_node env true h = refl
capacity-fresh_node env false h = cc

blank-fresh_node :
    (env : Env) (is_folder : Bool) → is_folder ≡ false → (fresh_node env is_folder).size_blocks ≡ 0
unfolding default_file
blank-fresh_node env true h = cc
blank-fresh_node env false h = refl

pub IsChild-IsChild :
    (env : Env) (parent : ℕ) (name : Bytes) (is_folder : Bool)
    → EnvFits env
    → IsText name
    → length name < name_length_max
    → parent < 256 ^ 8
    → (child : DirectoryNode) × IsChild env parent name is_folder child
unfolding named folder_bit
IsChild-IsChild env parent name is_folder f text short word =
    let node = fresh_node env is_folder in
    let fits = fresh_node-DirectoryFits env is_folder f in
    let (out, copied, shown, len) = c_str-strcpy node.name name text (omega (arith, fits.name)) in
    (
      with_parent node out parent,
      record {
        made = rw copied;
        fits = with_parent-DirectoryFits node out parent fits (len ∙ fits.name) word;
        text = shown;
        type = folder_bit-fresh_node env is_folder;
        empty = entries-fresh_node env is_folder;
        up = refl;
        capacity = capacity-fresh_node env is_folder;
        blank = blank-fresh_node env is_folder;
      },
    )

pub append_pointer-DirectoryFits :
    (node : DirectoryNode) (addr : ℕ)
    → DirectoryFits node
    → addr < 256 ^ 8
    → DirectoryFits (append_pointer node addr)
append_pointer-DirectoryFits node addr f word = ground (
  arith,
  length-set node.data_words node.header.entries addr,
  All-set IsWord node.data_words node.header.entries addr f.in_words word,
)
