-- ===== src/Server/Tree/Edits.antt =====
-- The functions of src/fs_server.h, src/fs.h and src/fs_protocol.h on texts, names, paths and codes
-- compute those of the tree.
use coursework_file_system.Prelude.{
  ℕ, zero, suc, ◌+◌, ◌≡◌, refl, ap, ◌∙◌, Option, Bool, true, false, not, ◌&&◌, ◌||◌, [], ◌∷◌, ◌++◌,
  length, take, drop, ltb, ◌==◌, if◌then◌else◌, Bool-cases, inl, inr, arith,
}
use coursework_file_system.Bytes.{Bytes}
use coursework_file_system.Run.{
  ErrorCode, socket_create_fail, socket_connect_fail, socket_send_fail, socket_recv_fail,
  socket_closed_by_remote, socket_terminated, pwd_init_fail, pwd_compute_fail, disk_addr_invalid,
  virtual_drive_invalid_args, virtual_drive_file_create, virtual_drive_mmap, fs_busy_handle,
  fs_capacity_exceeded, fs_access_denied, fs_name_not_exist, fs_name_already_exist,
  fs_name_too_long, fs_name_invalid,
}
use coursework_file_system.Protocol.{error_reply}
use coursework_file_system.CString.{same_text, has_char}
use coursework_file_system.Fs.{is_name_valid}
use coursework_file_system.Fs.Folder.{same_type}
use coursework_file_system.Server.{inserted, erased, moved, pop_back, keep_folder}
use coursework_file_system.Server.Tree.{
  spliced, cut_out, is_legal, front, up, walked, code_of, is_kind, Entry, is_branch,
}

-- The code's own bound on a position.
abbrev clamped : ℕ → Bytes → ℕ
clamped pos s = if ltb (length s) pos then length s else pos

clamped-suc : (pos c : ℕ) (s : Bytes) → clamped (suc pos) (c ∷ s) ≡ suc (clamped pos s)
clamped-suc pos c s = ground arith

clamped-zero : (s : Bytes) → clamped zero s ≡ zero
clamped-zero s = ground arith

clamped_nil : (pos : ℕ) → clamped pos [] ≡ zero
clamped_nil pos = ground arith

append_nil : (s : Bytes) → s ++ [] ≡ s
append_nil [] = refl
append_nil (c ∷ s) = ap (λ t. c ∷ t) (append_nil s)

drop_nil : (n : ℕ) → drop {A = ℕ} n [] ≡ []
drop_nil zero = refl
drop_nil (suc n) = refl

pub inserted-spliced : (pos : ℕ) (new s : Bytes) → inserted pos new s ≡ spliced pos new s
unfolding spliced
inserted-spliced pos new [] = rw (clamped_nil pos) (append_nil new)
inserted-spliced zero new (c ∷ s) = rw (clamped-zero (c ∷ s)) refl
inserted-spliced (suc pos) new (c ∷ s) =
    rw (clamped-suc pos c s) (ap (λ t. c ∷ t) (inserted-spliced pos new s))

cut_out-drop : (len : ℕ) (s : Bytes) → drop len s ≡ cut_out zero len s
unfolding cut_out
cut_out-drop len [] = drop_nil len
cut_out-drop zero (c ∷ s) = refl
cut_out-drop (suc len) (c ∷ s) = cut_out-drop len s

pub erased-cut_out : (pos len : ℕ) (s : Bytes) → erased pos len s ≡ cut_out pos len s
unfolding cut_out
erased-cut_out pos len [] = rw (clamped_nil pos) (drop_nil (0 + len))
erased-cut_out zero len (c ∷ s) =
    rw (clamped-zero (c ∷ s)) (ap (λ n. drop n (c ∷ s)) (omega arith) ∙ cut_out-drop len (c ∷ s))
erased-cut_out (suc pos) len (c ∷ s) =
    let behind : suc (clamped pos s) + len ≡ suc (clamped pos s + len) = omega arith in
    rw (clamped-suc pos c s) (
      ap (λ n. c ∷ (take (clamped pos s) s ++ drop n (c ∷ s))) behind
      ∙ ap (λ t. c ∷ t) (erased-cut_out pos len s))

regroup : (x y z : Bool) → not x && (not y && not z) ≡ not (x || (y || false)) && not z
regroup true y z = refl
regroup false true z = refl
regroup false false z = refl

pub is_name_valid-is_legal : (name : Bytes) → is_name_valid name ≡ is_legal name
unfolding is_name_valid same_text
is_name_valid-is_legal [] = refl
is_name_valid-is_legal (c ∷ s) =
    regroup (same_text (c ∷ s) (b'.' ∷ [])) (same_text (c ∷ s) (b'.' ∷ b'.' ∷ []))
      (has_char b'/' (c ∷ s))

-- `keep_folder` leaves nothing of a text without a slash, and something of any other.
keep_folder-none : (s : Bytes) → has_char b'/' s ≡ false → keep_folder s ≡ []
unfolding keep_folder
keep_folder-none [] h = refl
keep_folder-none (c ∷ s) h = rw h refl

keep_folder-some :
    (s : Bytes) → has_char b'/' s ≡ true → (d : ℕ) × (r : Bytes) × (keep_folder s ≡ d ∷ r)
unfolding keep_folder has_char
keep_folder-some [] h = cc
keep_folder-some (c ∷ s) h = (c, keep_folder s, rw h refl)

keep_folder-front : (c d : ℕ) (s t : Bytes) → keep_folder (c ∷ t) ≡ front c (d ∷ s) (keep_folder t)
unfolding keep_folder has_char
keep_folder-front c d s t = elim (Bool-cases (has_char b'/' t)) [
  | inl has ↦
      let (e, r, is) = keep_folder-some t has in
      rw (has, is) (elim (Bool-cases (c == b'/')) [ inl k ↦ rw k refl | inr k ↦ rw k refl ])
  | inr lacks ↦
      rw (lacks, keep_folder-none t lacks)
        (elim (Bool-cases (c == b'/')) [ inl k ↦ rw k refl | inr k ↦ rw k refl ])
]

keep_folder-up : (s : Bytes) → keep_folder (pop_back s) ≡ up s
unfolding pop_back up keep_folder
keep_folder-up [] = refl
keep_folder-up (c ∷ []) = refl
keep_folder-up (c ∷ (d ∷ s)) =
    keep_folder-front c d s (pop_back (d ∷ s)) ∙ ap (front c (d ∷ s)) (keep_folder-up (d ∷ s))

pub moved-walked : (name path : Bytes) → moved name path ≡ walked name path
unfolding moved walked
moved-walked name path = rw (keep_folder-up path) refl

pub same_type-is_kind : (b : Bool) (e : Option Entry) → same_type b (is_branch e) ≡ is_kind b e
same_type-is_kind true e = refl
same_type-is_kind false e = refl

pub error_reply-code_of : (e : ErrorCode) → error_reply e ≡ code_of e
unfolding error_reply code_of
error_reply-code_of socket_create_fail = refl
error_reply-code_of socket_connect_fail = refl
error_reply-code_of socket_send_fail = refl
error_reply-code_of socket_recv_fail = refl
error_reply-code_of socket_closed_by_remote = refl
error_reply-code_of socket_terminated = refl
error_reply-code_of pwd_init_fail = refl
error_reply-code_of pwd_compute_fail = refl
error_reply-code_of disk_addr_invalid = refl
error_reply-code_of virtual_drive_invalid_args = refl
error_reply-code_of virtual_drive_file_create = refl
error_reply-code_of virtual_drive_mmap = refl
error_reply-code_of fs_busy_handle = refl
error_reply-code_of fs_capacity_exceeded = refl
error_reply-code_of fs_access_denied = refl
error_reply-code_of fs_name_not_exist = refl
error_reply-code_of fs_name_already_exist = refl
error_reply-code_of fs_name_too_long = refl
error_reply-code_of fs_name_invalid = refl
