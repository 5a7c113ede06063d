-- ===== src/DiskClient.antt =====
-- `disk_client` of src/disk_client.h, and the threads that call it over one connection to the
-- `virtual_drive` of Drive. A thread has one transaction at a time, on its own stack, so that the
-- transactions are named by their threads. The mutexes make `tid_step`, `waiting_list_add`, the
-- sends of a request and the search in the waiting list one step each.
pub mod Steps
pub mod Invariant
pub mod Keep
pub mod Exchange
pub mod Respond
pub mod Reachable
pub mod Safe
use coursework_file_system.Prelude.{
  ℕ, ◌+◌, ◌%◌, ◌^◌, Bool, true, false, Option, none, some, List, [], ◌∷◌, ◌++◌, if◌then◌else◌, ◌==◌,
}
use coursework_file_system.Bytes.{Bytes}
use coursework_file_system.Run.{Run, done, undefined, Cmd, pure, ◌>>=◌, ◌>>◌}
use coursework_file_system.Table.{lookup, insert, erase}
use coursework_file_system.Drive.{
  IoRequest, read_sector_at, write_sector_at, describe, shut_down, unknown_io, IoReply,
  sector_content, acknowledged, described, silent,
}

abbrev pub update : {A : Type 0} → (ℕ → A) → ℕ → A → ℕ → A
update f i a j = if i == j then a else f j

-- `disk_client_transaction`; `writeback_data` is the buffer behind the pointer, if there is one.
pub record Transaction : Type 0 where
  pub writeback_data : Option Bytes
  pub sig_wake : Bool

-- The members that change; `transactions` are those on the stacks of the threads.
pub record Client : Type 0 where
  pub tid_counter : ℕ
  pub waiting_list : List (ℕ × ℕ)
  pub transactions : ℕ → Transaction

-- What a thread calls: `read` with its buffer, `write`, `shutdown`.
pub data Op : Type 0 where
  read : ℕ → Bytes → Op
  write : ℕ → Bytes → Op
  shutdown : Op

-- The transaction that a call constructs.
abbrev pub constructed : Op → Transaction
constructed (read addr buf) = record { writeback_data = some buf; sig_wake = false }
constructed (write addr data_) = record { writeback_data = none; sig_wake = false }
constructed shutdown = record { writeback_data = none; sig_wake = false }

-- What a call sends, between the lock of `socket_write_mutex_` and its release.
abbrev pub request_of : ℕ → Op → IoRequest
request_of tid (read addr buf) = read_sector_at tid addr
request_of tid (write addr data_) = write_sector_at tid addr data_
request_of tid shutdown = shut_down tid

abbrev pub tid_step : Client → ℕ × Client
tid_step c = (c.tid_counter, record c { tid_counter = (c.tid_counter + 1) % 2 ^ 32 })

abbrev pub construct_transaction : ℕ → Op → Client → Client
construct_transaction thread op c = record c {
  transactions = update c.transactions thread (constructed op);
}

abbrev pub waiting_list_add : ℕ → ℕ → Client → Client
waiting_list_add tid thread c = record c { waiting_list = insert tid thread c.waiting_list }

abbrev pub reply_tid : IoReply → ℕ
reply_tid (sector_content tid bytes) = tid
reply_tid (acknowledged tid) = tid
reply_tid (described tid d) = tid
reply_tid silent = 0

-- What the handler does to the transaction of a reply: the bytes of a sector go behind the pointer,
-- which must not be null, and the thread is woken. Of a description nothing is read, so that its
-- bytes are taken for the next reply; this counts as undefined.
abbrev pub filled : IoReply → Transaction → Option Transaction
filled (sector_content tid bytes) x = elim x.writeback_data [
  | none ↦ none
  | some buf ↦ some (record { writeback_data = some bytes; sig_wake = true })
]
filled (acknowledged tid) x = some (record x { sig_wake = true })
filled (described tid d) x = none
filled silent x = none

-- A reply that no transaction waits for is dropped, but not what follows its number.
abbrev pub unclaimed : IoReply → Cmd Client (Unit {0})
unclaimed (sector_content tid bytes) c = undefined
unclaimed (acknowledged tid) c = done tt c
unclaimed (described tid d) c = undefined
unclaimed silent c = undefined

-- A round of `response_handler`, for a reply that has arrived.
unfoldable pub handle : IoReply → Cmd Client (Unit {0})
handle reply c = elim (lookup (reply_tid reply) c.waiting_list) [
  | none ↦ unclaimed reply c
  | some thread ↦ elim (filled reply (c.transactions thread)) [
    | none ↦ undefined
    | some x ↦ done tt (record c {
      waiting_list = erase (reply_tid reply) c.waiting_list;
      transactions = update c.transactions thread x;
    })
  ]
]

-- The rounds of `response_handler` for the replies that have arrived.
unfoldable pub handle_all : List IoReply → Cmd Client (Unit {0})
unfolding handle
handle_all [] = pure tt
handle_all (reply ∷ rest) = do handle reply; handle_all rest
