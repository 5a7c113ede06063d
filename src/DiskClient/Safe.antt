-- ===== src/DiskClient/Safe.antt =====
-- What a `disk_client` of src/disk_client.h gives the threads that call it at the same time.
use coursework_file_system.Prelude.{
  ℕ, ◌+◌, ◌<◌, ◌^◌, ◌≡◌, ◌⊎◌, inl, inr, refl, sym, ap, ◌∙◌, subst, Option, none, List, [], ◌∷◌,
  ◌++◌, All, map, some, Bool, true, false,
}
use coursework_file_system.Bytes.{Bytes}
use coursework_file_system.Run.{done}
use coursework_file_system.Drive.{
  read_sector_at, write_sector_at, shut_down, IoReply, sector_content, acknowledged,
}
use coursework_file_system.DiskClient.{
  Transaction, Client, Op, read, write, shutdown, constructed, reply_tid, filled, handle_all,
}
use coursework_file_system.DiskClient.Steps.{posted, busy, System, Reach}
use coursework_file_system.DiskClient.Invariant.{
  Inv, Owned, Result, Fits, Logged, queue, request_tid, Within,
}
use coursework_file_system.DiskClient.Exchange.{owned}
use coursework_file_system.DiskClient.Reachable.{Own-asleep, respond-next, Reach-Inv}

-- What the drive has answered to the request of a call; to a `read`, with the bytes that are now in
-- its buffer.
abbrev pub Answered : System → ℕ → ℕ → Op → Type 0
Answered s t tid (read addr buf) =
    (bytes : Bytes) × Logged (read_sector_at tid addr) (sector_content tid bytes) s.log
    × ((s.client.transactions t).writeback_data ≡ some bytes)
Answered s t tid (write addr bytes) =
    Logged (write_sector_at tid addr bytes) (acknowledged tid) s.log
Answered s t tid shutdown = Logged (shut_down tid) (acknowledged tid) s.log

Answered-Result : (s : System) (t tid : ℕ) (op : Op) → Result s t tid op → Answered s t tid op
Answered-Result s t tid (read addr buf) (reply, (bytes, e), logged, full) = (
  bytes,
  subst (λ p. Logged (read_sector_at tid addr) p s.log) e logged,
  ap buffer (sym full ∙ ap (λ p. filled p (constructed (read addr buf))) e),
)
  where
    buffer : Option Transaction → Option Bytes
    buffer none = none
    buffer (some x) = x.writeback_data
Answered-Result s t tid (write addr bytes) (reply, e, logged, full) =
    subst (λ p. Logged (write_sector_at tid addr bytes) p s.log) e logged
Answered-Result s t tid shutdown (reply, e, logged, full) =
    subst (λ p. Logged (shut_down tid) p s.log) e logged

in_queue : (n : ℕ) (P : ℕ → Type 0) (xs : List ℕ) → All P xs → Within n xs → P n
in_queue n P [] h way = absurd way
in_queue n P (x ∷ xs) h (inl e) = subst P (sym e) h.0
in_queue n P (x ∷ xs) h (inr way) = in_queue n P xs h.1 way

-- Whatever the threads, the handler and the drive have done, with fewer than 2 ^ 32 - 1 calls: a
-- thread that is woken has been answered by the drive to its own request, and the buffer of a `read`
-- holds the bytes of that answer.
pub Answered-Reach :
    {s : System} (t tid : ℕ) (op : Op)
    → Reach s
    → s.entered + 1 < 2 ^ 32
    → s.calls t ≡ busy posted tid op
    → (s.client.transactions t).sig_wake ≡ true
    → Answered s t tid op
Answered-Reach {s} t tid op reach few at awake =
    let inv = Reach-Inv reach few in
    elim (inv.settled t tid op at) [
      | inl result ↦ Answered-Result s t tid op result
      | inr way ↦
          let (t0, op0, own) = in_queue tid (Owned s) (queue s) (owned s inv) way in
          let same = inv.apart t t0 tid posted posted op op0 at own.0 in
          absurd (
            Own-asleep s t0 tid op0 own
              (ap (λ k. (s.client.transactions k).sig_wake) (sym same) ∙ awake))
    ]

abbrev wake : Option Transaction → Bool
wake none = false
wake (some x) = x.sig_wake

filled-awake :
    (tid : ℕ) (op : Op) (reply : IoReply) (x : Transaction)
    → Fits tid op reply
    → filled reply (constructed op) ≡ some x
    → x.sig_wake ≡ true
filled-awake tid (read addr buf) reply x (bytes, e) full =
    ap wake (sym full ∙ ap (λ p. filled p (constructed (read addr buf))) e)
filled-awake tid (write addr bytes) reply x e full =
    ap wake (sym full ∙ ap (λ p. filled p (constructed (write addr bytes))) e)
filled-awake tid shutdown reply x e full =
    ap wake (sym full ∙ ap (λ p. filled p (constructed shutdown)) e)

-- After the handler's rounds every posted call is awake, or the drive still has its request.
abbrev pub Woken : System → Client → Type 0
Woken s c =
    (t tid : ℕ) (op : Op)
    → s.calls t ≡ busy posted tid op
    → ((c.transactions t).sig_wake ≡ true) ⊎ Within tid (map request_tid s.outgoing)

handle_all-Inv :
    (replies : List IoReply) (s : System)
    → Inv s
    → s.incoming ≡ replies
    → (c : Client) × (handle_all replies s.client ≡ done tt c) × Woken s c
unfolding handle_all
handle_all-Inv [] s inv e = (
  s.client,
  refl,
  λ t tid op at. elim (inv.settled t tid op at) [
    | inl (reply, fits, logged, full) ↦
        inl (filled-awake tid op reply (s.client.transactions t) fits full)
    | inr way ↦ inr (subst (λ l. Within tid (map reply_tid l ++ map request_tid s.outgoing)) e way)
  ],
)
handle_all-Inv (reply ∷ rest) s inv e =
    let (c, run, inv') = respond-next s inv reply rest e in
    let (c', run', woken) =
      handle_all-Inv rest (record s { client = c; incoming = rest }) inv' refl in
    (c', rw (run, run') refl, woken)

-- Whatever has been done, with fewer than 2 ^ 32 - 1 calls: the handler gets through all replies
-- that have arrived and never reads past one, and then every thread that waits is awake, or its
-- request is still on the way to the drive.
pub handle_all-Reach :
    {s : System}
    → Reach s
    → s.entered + 1 < 2 ^ 32
    → (c : Client) × (handle_all s.incoming s.client ≡ done tt c) × Woken s c
handle_all-Reach {s} reach few = handle_all-Inv s.incoming s (Reach-Inv reach few) refl
