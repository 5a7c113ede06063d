-- ===== src/DiskClient/Steps.antt =====
-- The threads that call a `disk_client` of src/disk_client.h, its handler thread and the drive, in
-- any interleaving.
use coursework_file_system.Prelude.{ℕ, ◌+◌, ◌≡◌, true, List, [], ◌∷◌, ◌++◌}
use coursework_file_system.Run.{done}
use coursework_file_system.Drive.{IoRequest, IoReply, silent, Receiver, serve_io}
use coursework_file_system.DiskClient.{
  update, Client, Op, request_of, tid_step, construct_transaction, waiting_list_add, handle,
}

-- How far a call has come.
pub data Stage : Type 0 where
  numbered listed posted : Stage

-- What a thread does: nothing with the disk, or a call with its transaction number.
pub data Call : Type 0 where
  idle : Call
  busy : Stage → ℕ → Op → Call

-- The client, its threads, the two directions of the connection and the drive. `entered` counts the
-- calls and `log` keeps what the drive has answered; the program has neither.
pub record System : Type 0 where
  pub client : Client
  pub calls : ℕ → Call
  pub outgoing : List IoRequest
  pub incoming : List IoReply
  pub receiver : Receiver
  pub entered : ℕ
  pub log : List (IoRequest × IoReply)

-- A reply as the connection carries it.
abbrev pub on_wire : IoReply → List IoReply
on_wire silent = []
on_wire reply = reply ∷ []

abbrev pub enter_call : ℕ → Op → System → System
enter_call t op s =
    let (tid, c) = tid_step s.client in
    record s {
      client = construct_transaction t op c;
      calls = update s.calls t (busy numbered tid op);
      entered = s.entered + 1;
    }

abbrev pub enlist_call : ℕ → ℕ → Op → System → System
enlist_call t tid op s = record s {
  client = waiting_list_add tid t s.client;
  calls = update s.calls t (busy listed tid op);
}

abbrev pub post_call : ℕ → ℕ → Op → System → System
post_call t tid op s = record s {
  calls = update s.calls t (busy posted tid op);
  outgoing = s.outgoing ++ (request_of tid op ∷ []);
}

abbrev pub answer_with : IoRequest → List IoRequest → IoReply → Receiver → System → System
answer_with r rest reply receiver s = record s {
  outgoing = rest;
  incoming = s.incoming ++ on_wire reply;
  receiver = receiver;
  log = (r, reply) ∷ s.log;
}

pub data Step (s : System) : System → Type 0 where
  enter : (t : ℕ) (op : Op) → s.calls t ≡ idle → Step s (enter_call t op s)
  enlist :
      (t tid : ℕ) (op : Op) → s.calls t ≡ busy numbered tid op → Step s (enlist_call t tid op s)
  post : (t tid : ℕ) (op : Op) → s.calls t ≡ busy listed tid op → Step s (post_call t tid op s)
  answer :
      (r : IoRequest) (rest : List IoRequest) (reply : IoReply) (wait : ℕ) (receiver : Receiver)
      → s.outgoing ≡ r ∷ rest
      → serve_io r s.receiver ≡ done (reply, wait) receiver
      → Step s (answer_with r rest reply receiver s)
  respond :
      (reply : IoReply) (rest : List IoReply) (c : Client)
      → s.incoming ≡ reply ∷ rest
      → handle reply s.client ≡ done tt c
      → Step s (record s { client = c; incoming = rest })
  leave :
      (t tid : ℕ) (op : Op)
      → s.calls t ≡ busy posted tid op
      → (s.client.transactions t).sig_wake ≡ true
      → Step s (record s { calls = update s.calls t idle })

-- A client behind its constructor, which has used the number 0, before any call.
pub record Started (s : System) : Type 0 where
  pub counter : s.client.tid_counter ≡ 1
  pub none_waits : s.client.waiting_list ≡ []
  pub all_idle : (t : ℕ) → s.calls t ≡ idle
  pub quiet : (s.outgoing ≡ []) × (s.incoming ≡ [])
  pub no_calls : s.entered ≡ 0

pub data Reach : System → Type 0 where
  start : (s : System) → Started s → Reach s
  next : {s s' : System} → Reach s → Step s s' → Reach s'
