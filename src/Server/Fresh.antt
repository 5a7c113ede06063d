-- ===== src/Server/Fresh.antt =====
-- A client of src/fs_server.h on a freshly formatted disk of src/fs.h: `mk`, `w` and `cat`.
use coursework_file_system.Prelude.{
  ℕ, ◌+◌, ◌-◌, ◌<◌, ◌≤◌, ◌≡◌, refl, Bool, true, false, none, some, List, [], ◌∷◌, length, arith,
}
use coursework_file_system.Bytes.{Bytes}
use coursework_file_system.Run.{done}
use coursework_file_system.CString.{c_str}
use coursework_file_system.CString.Laws.{c_str-IsText, same_text_self}
use coursework_file_system.Node.{DirectoryNode, default_folder, name_length_max}
use coursework_file_system.Disk.{Disk, sectors}
use coursework_file_system.Fs.{Env, file_root, reserved_blocks, is_name_valid}
use coursework_file_system.Fs.Mounted.{mounted}
use coursework_file_system.Fs.Format.{IsFormatted}
use coursework_file_system.Fs.File.{Stack}
use coursework_file_system.Fs.File.RoundTrip.{FileAt}
use coursework_file_system.Fs.Folder.{is_child, append_pointer}
use coursework_file_system.Fs.Folder.Child.{EnvFits}
use coursework_file_system.Fs.Folder.Create.{HasRoom, Created, create-HasRoom}
use coursework_file_system.Fs.Folder.Search.{search}
use coursework_file_system.Protocol.{reply_ok}
use coursework_file_system.Server.{Session, reply, text, serve, mk, write, cat}
use coursework_file_system.Server.Write.{OwnBlocks, serve_cat-write}

module _ (env : Env) (ef : EnvFits env) (d : Disk) (formatted : IsFormatted env d)
    (room : 13 < sectors d.description) where
  pub HasRoom-IsFormatted :
      HasRoom d reserved_blocks
        (sectors d.description - reserved_blocks)
        file_root
        (default_folder env.node_memory env.now)
        []
  unfolding default_folder
  HasRoom-IsFormatted = record {
    at = formatted.root;
    free = formatted.free;
    more = omega arith;
    on_disk = omega arith;
    reserved = omega arith;
    below_capacity = omega arith;
    room = omega arith;
  }

  none_yet : (test : DirectoryNode → Bool) → search test [] 0 ≡ none
  unfolding search
  none_yet test = refl

  module _ {d' : Disk} {name : Bytes} {child : DirectoryNode}
      (made : Created d d' reserved_blocks
        (sectors d.description - reserved_blocks)
        file_root
        (default_folder env.node_memory env.now)
        []
        name
        false
        child) where
    pub FileAt-Created :
        FileAt d'
          (reserved_blocks + 1)
          (sectors d.description - reserved_blocks - 1)
          reserved_blocks
          child
          (λ i. i)
    FileAt-Created = record {
      holds = made.folder.children.1;
      extents = record {
        pointer = λ i h. absurd (omega (arith, h, made.empty));
        below = λ i h. absurd (omega (arith, h, made.empty));
        valid = λ i h. absurd (omega (arith, h, made.empty));
        distinct = λ i j h k. absurd (omega (arith, h, made.empty));
        not_self = λ i h. absurd (omega (arith, h, made.empty));
        not_root = λ i h. absurd (omega (arith, h, made.empty));
      };
      in_node = omega (arith, made.empty);
      below = omega arith;
      not_root = omega arith;
      free = made.free;
      reserved = omega arith;
    }

    pub OwnBlocks-Created :
        OwnBlocks file_root reserved_blocks child (λ i. i) ((reserved_blocks, child) ∷ [])
    OwnBlocks-Created = record {
      not_folder = omega arith;
      folder = λ i h. absurd (omega (arith, h, made.empty));
      siblings = (λ ne i h. absurd (ne refl), tt);
    }

    pub found :
        search (is_child false name) ((reserved_blocks, child) ∷ []) 0 ≡ some (0, reserved_blocks)
    unfolding search
    found = rw (made.typed, made.named, same_text_self name) refl

  -- On a formatted disk of more than 13 sectors, in the root folder, the requests `mk` with a valid
  -- name of fewer than 72 characters, `w` to it with a text of 1 to 2048 characters and `cat` of it
  -- are all answered with OK, and the last one with exactly that text. The contents of memory and
  -- the clock fit their fields, and the buffer has 256 bytes.
  pub serve-IsFormatted :
      (max : ℕ) (counts : List (ℕ × ℕ)) (stack : Stack) (path name bytes : Bytes)
      → is_name_valid (c_str name) ≡ true
      → length (c_str name) < name_length_max
      → length stack ≡ 0x100
      → 0 < length (c_str bytes)
      → length (c_str bytes) ≤ 2048
      → (s1 : Session) × (s2 : Session) × (s3 : Session) × (serve env stack
            (mk false name)
            (record {
              fs = mounted d max counts;
              current_folder = record { addr = file_root; abandoned = false };
              path = path;
            })
          ≡ done (reply reply_ok ∷ []) s1)
        × (serve env stack (write name bytes) s1 ≡ done (reply reply_ok ∷ []) s2)
        × (serve env stack (cat name) s2 ≡ done (reply reply_ok ∷ text (c_str bytes) ∷ []) s3)
  unfolding serve
  serve-IsFormatted max counts stack path name bytes valid short buffer nonempty small =
      let (d', child, run, made) =
        create-HasRoom d max counts reserved_blocks (sectors d.description - reserved_blocks)
          file_root (default_folder env.node_memory env.now) [] env (c_str name) false
          HasRoom-IsFormatted ef (c_str-IsText name) valid short (none_yet _) in
      let (s2, s3, wrote, read) =
        serve_cat-write d' max counts (reserved_blocks + 1)
          (sectors d.description - reserved_blocks - 1) reserved_blocks
          (append_pointer (default_folder env.node_memory env.now) reserved_blocks) child
          ((reserved_blocks, child) ∷ []) (λ i. i) (record { addr = file_root; abandoned = false })
          made.folder (OwnBlocks-Created made) env stack path name bytes 0 (FileAt-Created made)
          (found made) buffer nonempty small (omega (arith, small, made.empty))
          (rw made.description (omega (arith, small, made.empty))) in
      (
        record {
          fs = mounted d' max counts;
          current_folder = record { addr = file_root; abandoned = false };
          path = path;
        },
        s2,
        s3,
        rw run refl,
        wrote,
        read,
      )
