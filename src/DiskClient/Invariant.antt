-- ===== src/DiskClient/Invariant.antt =====
-- What holds of a `disk_client` of src/disk_client.h whatever its threads, its handler and the drive
-- have done.
use coursework_file_system.Prelude.{
  ℕ, ◌+◌, ◌≤◌, ◌≡◌, ◌≢◌, ◌⊎◌, inl, inr, refl, sym, ap, ◌∙◌, List, [], ◌∷◌, ◌++◌, All, All-append,
  map, some, arith, ◌==◌, ==_self, ==_ne, ==_iff, Bool-cases,
}
use coursework_file_system.Bytes.{Bytes}
use coursework_file_system.Table.{lookup}
use coursework_file_system.Drive.{
  IoRequest, read_sector_at, write_sector_at, describe, shut_down, unknown_io, IoReply,
  sector_content, acknowledged,
}
use coursework_file_system.DiskClient.{
  Op, read, write, shutdown, constructed, request_of, reply_tid, filled, update,
}
use coursework_file_system.DiskClient.Steps.{Stage, listed, posted, busy, System}

abbrev pub request_tid : IoRequest → ℕ
request_tid (read_sector_at tid addr) = tid
request_tid (write_sector_at tid addr bytes) = tid
request_tid (describe tid) = tid
request_tid (shut_down tid) = tid
request_tid (unknown_io tid) = tid

-- The numbers on the connection, the next to be handled first.
abbrev pub queue : System → List ℕ
queue s = map reply_tid s.incoming ++ map request_tid s.outgoing

abbrev pub Within : ℕ → List ℕ → Type 0
Within n [] = ⊥
Within n (x ∷ xs) = (n ≡ x) ⊎ Within n xs

abbrev pub IsDistinct : List ℕ → Type 0
IsDistinct [] = Unit {0}
IsDistinct (x ∷ xs) = All (λ y. x ≢ y) xs × IsDistinct xs

abbrev pub Logged : IoRequest → IoReply → List (IoRequest × IoReply) → Type 0
Logged r reply [] = ⊥
Logged r reply (e ∷ log) = ((e.0 ≡ r) × (e.1 ≡ reply)) ⊎ Logged r reply log

-- The replies that fit a call.
abbrev pub Fits : ℕ → Op → IoReply → Type 0
Fits tid (read addr buf) reply = (bytes : Bytes) × (reply ≡ sector_content tid bytes)
Fits tid (write addr bytes) reply = reply ≡ acknowledged tid
Fits tid shutdown reply = reply ≡ acknowledged tid

-- A thread that waits for the answer to its call.
abbrev pub Own : System → ℕ → ℕ → Op → Type 0
Own s t tid op =
    (s.calls t ≡ busy posted tid op)
    × (lookup tid s.client.waiting_list ≡ some t)
    × (s.client.transactions t ≡ constructed op)

abbrev pub Owned : System → ℕ → Type 0
Owned s tid = (t : ℕ) × (op : Op) × Own s t tid op

abbrev pub Asked : System → IoRequest → Type 0
Asked s r = (t : ℕ) × (tid : ℕ) × (op : Op) × (r ≡ request_of tid op) × Own s t tid op

abbrev pub Replied : System → IoReply → Type 0
Replied s reply =
    (t : ℕ) × (tid : ℕ) × (op : Op) × Fits tid op reply
    × Logged (request_of tid op) reply s.log
    × Own s t tid op

-- The thread has been woken, by what the drive answered to its own request.
abbrev pub Result : System → ℕ → ℕ → Op → Type 0
Result s t tid op =
    (reply : IoReply) × Fits tid op reply
    × Logged (request_of tid op) reply s.log
    × (filled reply (constructed op) ≡ some (s.client.transactions t))

pub record Inv (s : System) : Type 0 where
  pub counter : s.client.tid_counter ≡ s.entered + 1
  pub below :
      (t tid : ℕ) (stage : Stage) (op : Op) → s.calls t ≡ busy stage tid op → tid ≤ s.entered
  pub apart :
      (t t' tid : ℕ) (stage stage' : Stage) (op op' : Op)
      → s.calls t ≡ busy stage tid op
      → s.calls t' ≡ busy stage' tid op'
      → t ≡ t'
  pub fresh :
      (t tid : ℕ) (stage : Stage) (op : Op)
      → s.calls t ≡ busy stage tid op
      → stage ≢ posted
      → s.client.transactions t ≡ constructed op
  pub enlisted :
      (t tid : ℕ) (op : Op)
      → s.calls t ≡ busy listed tid op
      → lookup tid s.client.waiting_list ≡ some t
  pub distinct : IsDistinct (queue s)
  pub asked : All (Asked s) s.outgoing
  pub replied : All (Replied s) s.incoming
  pub settled :
      (t tid : ℕ) (op : Op)
      → s.calls t ≡ busy posted tid op
      → Result s t tid op ⊎ Within tid (queue s)

pub IsDistinct-append :
    (xs : List ℕ) (x : ℕ) → IsDistinct xs → All (λ y. y ≢ x) xs → IsDistinct (xs ++ (x ∷ []))
IsDistinct-append [] x d h = (tt, tt)
IsDistinct-append (y ∷ xs) x d h =
    (All-append (λ z. y ≢ z) xs (x ∷ []) d.0 (h.0, tt), IsDistinct-append xs x d.1 h.1)

pub Within-append_left : (n : ℕ) (xs ys : List ℕ) → Within n xs → Within n (xs ++ ys)
Within-append_left n [] ys h = absurd h
Within-append_left n (x ∷ xs) ys (inl e) = inl e
Within-append_left n (x ∷ xs) ys (inr h) = inr (Within-append_left n xs ys h)

pub Within-last : (n : ℕ) (xs : List ℕ) → Within n (xs ++ (n ∷ []))
Within-last n [] = inl refl
Within-last n (x ∷ xs) = inr (Within-last n xs)

-- Changing a function at one place.
pub update_self : {A : Type 0} (f : ℕ → A) (i : ℕ) (a : A) → update f i a i ≡ a
update_self f i a = rw (==_self i) refl

pub update_ne : {A : Type 0} (f : ℕ → A) (i : ℕ) (a : A) (j : ℕ) → i ≢ j → update f i a j ≡ f j
update_ne f i a j ne = rw (==_ne i j ne) refl

pub update-cases :
    {A : Type 0} (f : ℕ → A) (i : ℕ) (a : A) (j : ℕ) (b : A)
    → update f i a j ≡ b
    → ((i ≡ j) × (a ≡ b)) ⊎ ((i ≢ j) × (f j ≡ b))
update-cases f i a j b h = elim (Bool-cases (i == j)) [
  | inl e ↦
      let same = (==_iff i j).0 e in
      inl (same, sym (ap (update f i a) (sym same) ∙ update_self f i a) ∙ h)
  | inr ne ↦
      let differ : i ≢ j = λ e. ground (arith, e, ne) in
      inr (differ, sym (update_ne f i a j differ) ∙ h)
]
