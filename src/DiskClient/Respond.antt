-- ===== src/DiskClient/Respond.antt =====
-- The drive and the handler of a `disk_client` of src/disk_client.h keep the invariant of Invariant.
use mathlib.Core.List.{append_assoc, map-append}
use coursework_file_system.Prelude.{
  ℕ, ◌≡◌, ◌≢◌, inl, inr, refl, sym, ap, ◌∙◌, subst, List, [], ◌∷◌, ◌++◌, All, All-append, All-mono,
  map, none, some, true, ==_ne, ==_iff, arith, ◌==◌, Bool-cases,
}
use coursework_file_system.Run.{Run, done, thrown, undefined}
use coursework_file_system.Table.{erase, lookup-erase}
use coursework_file_system.Drive.{IoRequest, IoReply, Receiver, serve_io}
use coursework_file_system.DiskClient.{
  Transaction, Client, Op, read, write, shutdown, constructed, request_of, reply_tid, update,
  filled, handle,
}
use coursework_file_system.DiskClient.Steps.{listed, posted, busy, System, answer_with, on_wire}
use coursework_file_system.DiskClient.Invariant.{
  Inv, Own, Asked, Replied, Result, Fits, Logged, queue, request_tid, Within, IsDistinct,
  update_self, update_ne,
}
use coursework_file_system.DiskClient.Keep.{tid_of, op_of, stage_of, listed-ne-posted, Asked-Keeps}
use coursework_file_system.DiskClient.Exchange.{
  request_tid-request_of, reply_tid-Fits, on_wire-Fits, serve_io-Fits,
}

module _ (s : System) (inv : Inv s) where
  -- The number of the request goes from one direction of the connection to the other.
  queue-answer_with :
      (r : IoRequest) (rest : List IoRequest) (reply : IoReply) (receiver : Receiver)
      → s.outgoing ≡ r ∷ rest
      → on_wire reply ≡ reply ∷ []
      → reply_tid reply ≡ request_tid r
      → queue (answer_with r rest reply receiver s) ≡ queue s
  queue-answer_with r rest reply receiver out wire same =
      ap (λ l. map reply_tid (s.incoming ++ l) ++ map request_tid rest) wire
      ∙ ap (λ l. l ++ map request_tid rest) (map-append reply_tid s.incoming (reply ∷ []))
      ∙ append_assoc (map reply_tid s.incoming) (reply_tid reply ∷ []) (map request_tid rest)
      ∙ ap (λ n. map reply_tid s.incoming ++ (n ∷ map request_tid rest)) same
      ∙ ap (λ l. map reply_tid s.incoming ++ map request_tid l) (sym out)

  pub answer-Inv :
      (r : IoRequest) (rest : List IoRequest) (reply : IoReply) (wait : ℕ) (receiver : Receiver)
      → s.outgoing ≡ r ∷ rest
      → serve_io r s.receiver ≡ done (reply, wait) receiver
      → Inv (answer_with r rest reply receiver s)
  answer-Inv r rest reply wait receiver out run =
      let s' = answer_with r rest reply receiver s in
      let asked = subst (All (Asked s)) out inv.asked in
      let (t, tid, op, is, own) = asked.0 in
      let fits : Fits tid op reply =
        serve_io-Fits tid op s.receiver receiver reply wait
          (ap (λ q. serve_io q s.receiver) (sym is) ∙ run) in
      let wire = on_wire-Fits tid op reply fits in
      let same = queue-answer_with r rest reply receiver out wire (
        reply_tid-Fits tid op reply fits
        ∙ sym (ap request_tid is ∙ request_tid-request_of tid op)) in
      record {
        counter = inv.counter;
        below = inv.below;
        apart = inv.apart;
        fresh = inv.fresh;
        enlisted = inv.enlisted;
        distinct = subst IsDistinct (sym same) inv.distinct;
        asked = Asked-Keeps s s' rest (λ t0 tid0 op0 own0. own0) asked.1;
        replied =
            All-append (Replied s') s.incoming (on_wire reply)
              (All-mono (Replied s) (Replied s') s.incoming
                (λ p (t0, tid0, op0, fits0, logged0, own0).
                  (t0, tid0, op0, fits0, inr logged0, own0))
                inv.replied)
              (subst (All (Replied s')) (sym wire) ((t, tid, op, fits, inl (is, refl), own), tt));
        settled = λ t0 tid0 op0 h. elim (inv.settled t0 tid0 op0 h) [
          | inl (reply0, fits0, logged0, full) ↦ inl (reply0, fits0, inr logged0, full)
          | inr way ↦ inr (subst (Within tid0) (sym same) way)
        ];
      }

-- The handler finds the transaction of a reply that fits its call, and wakes it.
pub filled-Fits :
    (tid : ℕ) (op : Op) (reply : IoReply)
    → Fits tid op reply
    → (x : Transaction) × (filled reply (constructed op) ≡ some x)
filled-Fits tid (read addr buf) reply (bytes, e) =
    (record { writeback_data = some bytes; sig_wake = true }, rw e refl)
filled-Fits tid (write addr bytes) reply e =
    (record { writeback_data = none; sig_wake = true }, rw e refl)
filled-Fits tid shutdown reply e = (record { writeback_data = none; sig_wake = true }, rw e refl)

abbrev pub client_of : Client → Run Client (Unit {0}) → Client
client_of c (done a c') = c'
client_of c (thrown e c') = c'
client_of c undefined = c

-- The client behind a round of the handler.
abbrev pub handled : ℕ → ℕ → Transaction → Client → Client
handled t tid x c = record c {
  waiting_list = erase tid c.waiting_list;
  transactions = update c.transactions t x;
}

pub handle-Own :
    (s : System) (t tid : ℕ) (op : Op) (reply : IoReply) (x : Transaction)
    → Own s t tid op
    → reply_tid reply ≡ tid
    → filled reply (constructed op) ≡ some x
    → handle reply s.client ≡ done tt (handled t tid x s.client)
unfolding handle
handle-Own s t tid op reply x own same full =
    rw (handle, same, own.1, own.2, full) (ap (λ n. done tt (handled t n x s.client)) same)

All-map_ne :
    {A : Type 0} (f : A → ℕ) (P R : A → Type 0) (Q : ℕ → Type 0) (xs : List A)
    → ((x : A) → P x → Q (f x) → R x)
    → All P xs
    → All Q (map f xs)
    → All R xs
All-map_ne f P R Q [] g h q = tt
All-map_ne f P R Q (x ∷ xs) g h q = (g x h.0 q.0, All-map_ne f P R Q xs g h.1 q.1)

All-split : (Q : ℕ → Type 0) (xs ys : List ℕ) → All Q (xs ++ ys) → All Q xs × All Q ys
All-split Q [] ys h = (tt, h)
All-split Q (x ∷ xs) ys h = let (left, right) = All-split Q xs ys h.1 in ((h.0, left), right)

-- The system behind that round.
abbrev pub responded : ℕ → ℕ → Transaction → List IoReply → System → System
responded t tid x rest s = record s { client = handled t tid x s.client; incoming = rest }

module _ (s : System) (inv : Inv s) (reply : IoReply) (rest : List IoReply)
    (in_front : s.incoming ≡ reply ∷ rest) (t tid : ℕ) (op : Op) (x : Transaction)
    (own : Own s t tid op) (same : reply_tid reply ≡ tid)
    (full : filled reply (constructed op) ≡ some x) (fits : Fits tid op reply)
    (logged : Logged (request_of tid op) reply s.log) where
  queue-responded : queue s ≡ tid ∷ queue (responded t tid x rest s)
  queue-responded =
      ap (λ l. map reply_tid l ++ map request_tid s.outgoing) in_front
      ∙ ap (λ n. n ∷ (map reply_tid rest ++ map request_tid s.outgoing)) same

  others : IsDistinct (tid ∷ queue (responded t tid x rest s))
  others = subst IsDistinct queue-responded inv.distinct

  responded-Keeps :
      (t0 tid0 : ℕ) (op0 : Op)
      → Own s t0 tid0 op0
      → tid ≢ tid0
      → Own (responded t tid x rest s) t0 tid0 op0
  responded-Keeps t0 tid0 op0 (h, l, y) ne = (
    h,
    lookup-erase tid tid0 s.client.waiting_list ∙ rw (==_ne tid tid0 ne) l,
    update_ne s.client.transactions t x t0 (λ e. ne (ap tid_of (sym own.0 ∙ ap s.calls e ∙ h))) ∙ y,
  )

  Result-responded :
      (t' tid' : ℕ) (op' : Op)
      → t ≡ t'
      → s.calls t' ≡ busy posted tid' op'
      → Result (responded t tid x rest s) t' tid' op'
  Result-responded t' tid' op' e h =
      let call : busy posted tid op ≡ busy posted tid' op' = sym own.0 ∙ ap s.calls e ∙ h in
      subst (λ k. Result (responded t tid x rest s) k tid' op') e
        (subst (λ o. Result (responded t tid x rest s) t tid' o) (ap op_of call)
          (subst (λ n. Result (responded t tid x rest s) t n op) (ap tid_of call)
            (reply, fits, logged, full ∙ ap some (sym (update_self s.client.transactions t x)))))

  pub responded-Inv : Inv (responded t tid x rest s)
  responded-Inv =
      let (in_rest, in_outgoing) =
        All-split (λ y. tid ≢ y) (map reply_tid rest) (map request_tid s.outgoing) others.0 in
      record {
        counter = inv.counter;
        below = inv.below;
        apart = inv.apart;
        fresh = λ t' tid' stage op' h early.
            update_ne s.client.transactions t x t'
              (λ e. early (sym (ap stage_of (sym own.0 ∙ ap s.calls e ∙ h))))
            ∙ inv.fresh t' tid' stage op' h early;
        enlisted = λ t' tid' op' h.
            let ne : tid ≢ tid' = λ e.
              let same_thread =
                inv.apart t t' tid posted listed op op' own.0
                  (h ∙ ap (λ n. busy listed n op') (sym e)) in
              listed-ne-posted (ap stage_of (sym h ∙ ap s.calls (sym same_thread) ∙ own.0)) in
            lookup-erase tid tid' s.client.waiting_list
            ∙ rw (==_ne tid tid' ne) (inv.enlisted t' tid' op' h);
        distinct = others.1;
        asked =
            All-map_ne request_tid (Asked s) (Asked (responded t tid x rest s)) (λ y. tid ≢ y)
              s.outgoing
              (λ r (t0, tid0, op0, e, own0) ne. (
                t0,
                tid0,
                op0,
                e,
                responded-Keeps t0 tid0 op0 own0
                    (λ e'. ne (e' ∙ sym (ap request_tid e ∙ request_tid-request_of tid0 op0))),
              ))
              inv.asked in_outgoing;
        replied =
            All-map_ne reply_tid (Replied s) (Replied (responded t tid x rest s)) (λ y. tid ≢ y)
              rest
              (λ r (t0, tid0, op0, fits0, logged0, own0) ne. (
                t0,
                tid0,
                op0,
                fits0,
                logged0,
                responded-Keeps t0 tid0 op0 own0
                    (λ e'. ne (e' ∙ sym (reply_tid-Fits tid0 op0 r fits0))),
              ))
              (subst (All (Replied s)) in_front inv.replied).1 in_rest;
        settled = λ t' tid' op' h. elim (Bool-cases (t == t')) [
          | inl e ↦ inl (Result-responded t' tid' op' ((==_iff t t').0 e) h)
          | inr e ↦
              let ne : t ≢ t' = λ p. ground (arith, p, e) in
              elim (inv.settled t' tid' op' h) [
                | inl (reply0, fits0, logged0, full0) ↦ inl (
                  reply0,
                  fits0,
                  logged0,
                  full0 ∙ ap some (sym (update_ne s.client.transactions t x t' ne)),
                )
                | inr way ↦ elim (subst (Within tid') queue-responded way) [
                  | inl p ↦ absurd (
                      ne (
                        inv.apart t t' tid posted posted op op' own.0
                          (h ∙ ap (λ n. busy posted n op') p)))
                  | inr behind ↦ inr behind
                ]
              ]
        ];
      }
