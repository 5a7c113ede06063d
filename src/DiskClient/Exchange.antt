-- ===== src/DiskClient/Exchange.antt =====
-- The connection of a `disk_client` of src/disk_client.h to the drive, and its handler, keep the
-- invariant of Invariant.
use mathlib.Core.List.{append_assoc, map-append}
use coursework_file_system.Prelude.{
  ℕ, ◌≡◌, ◌≢◌, inl, inr, refl, sym, ap, ◌∙◌, subst, List, [], ◌∷◌, ◌++◌, All, All-append, All-mono,
  map, Option, none, some, arith,
}
use coursework_file_system.Bytes.{Bytes}
use coursework_file_system.Run.{Run, done, thrown, undefined}
use coursework_file_system.Drive.{
  IoReply, sector_content, acknowledged, silent, Receiver, Answer, serve_io, sent, received,
}
use coursework_file_system.DiskClient.{Op, read, write, shutdown, request_of, reply_tid}
use coursework_file_system.DiskClient.Steps.{listed, posted, busy, System, post_call, on_wire}
use coursework_file_system.DiskClient.Invariant.{
  Inv, Owned, Asked, Replied, Fits, queue, request_tid, Within, IsDistinct, IsDistinct-append,
  Within-append_left, Within-last, update_self, update_ne, update-cases,
}
use coursework_file_system.DiskClient.Keep.{
  tid_of, stage_of, Keeps, Asked-Keeps, Replied-Keeps, apart_update, below_update, alone,
  fresh_update, listed-ne-posted,
}

All-map :
    {A : Type 0} (f : A → ℕ) (P : A → Type 0) (Q : ℕ → Type 0) (xs : List A)
    → ((x : A) → P x → Q (f x))
    → All P xs
    → All Q (map f xs)
All-map f P Q [] g h = tt
All-map f P Q (x ∷ xs) g h = (g x h.0, All-map f P Q xs g h.1)

pub request_tid-request_of : (tid : ℕ) (op : Op) → request_tid (request_of tid op) ≡ tid
request_tid-request_of tid (read addr buf) = refl
request_tid-request_of tid (write addr bytes) = refl
request_tid-request_of tid shutdown = refl

pub reply_tid-Fits :
    (tid : ℕ) (op : Op) (reply : IoReply) → Fits tid op reply → reply_tid reply ≡ tid
reply_tid-Fits tid (read addr buf) reply (bytes, e) = ap reply_tid e
reply_tid-Fits tid (write addr bytes) reply e = ap reply_tid e
reply_tid-Fits tid shutdown reply e = ap reply_tid e

pub on_wire-Fits :
    (tid : ℕ) (op : Op) (reply : IoReply) → Fits tid op reply → on_wire reply ≡ reply ∷ []
on_wire-Fits tid (read addr buf) reply (bytes, e) = rw e refl
on_wire-Fits tid (write addr bytes) reply e = rw e refl
on_wire-Fits tid shutdown reply e = rw e refl

abbrev reply_of : Run Receiver Answer → IoReply
reply_of (done answer r) = answer.0
reply_of (thrown e r) = silent
reply_of undefined = silent

sent-Fits :
    (tid next wait : ℕ) (found : Option Bytes) (r r' : Receiver) (reply : IoReply) (wait' : ℕ)
    → sent tid next wait found r ≡ done (reply, wait') r'
    → (bytes : Bytes) × (reply ≡ sector_content tid bytes)
unfolding sent
sent-Fits tid next wait none r r' reply wait' h = cc
sent-Fits tid next wait (some bytes) r r' reply wait' h = (bytes, sym (ap reply_of h))

received-Fits :
    (tid next wait : ℕ) (found : Option Bytes) (r r' : Receiver) (reply : IoReply) (wait' : ℕ)
    → received tid next wait found r ≡ done (reply, wait') r'
    → reply ≡ acknowledged tid
unfolding received
received-Fits tid next wait none r r' reply wait' h = cc
received-Fits tid next wait (some bytes) r r' reply wait' h = sym (ap reply_of h)

-- The drive's reply fits the call that the request comes from.
pub serve_io-Fits :
    (tid : ℕ) (op : Op) (r r' : Receiver) (reply : IoReply) (wait : ℕ)
    → serve_io (request_of tid op) r ≡ done (reply, wait) r'
    → Fits tid op reply
unfolding serve_io
serve_io-Fits tid (read addr buf) r r' reply wait h = sent-Fits tid _ _ _ r r' reply wait h
serve_io-Fits tid (write addr bytes) r r' reply wait h = received-Fits tid _ _ _ r r' reply wait h
serve_io-Fits tid shutdown r r' reply wait h = sym (ap reply_of h)

pub owned : (s : System) → Inv s → All (Owned s) (queue s)
owned s inv =
    All-append (Owned s) (map reply_tid s.incoming) (map request_tid s.outgoing)
      (All-map reply_tid (Replied s) (Owned s) s.incoming
        (λ reply (t, tid, op, fits, logged, own).
          subst (Owned s) (sym (reply_tid-Fits tid op reply fits)) (t, op, own))
        inv.replied)
      (All-map request_tid (Asked s) (Owned s) s.outgoing
        (λ r (t, tid, op, e, own).
          subst (Owned s) (sym (ap request_tid e ∙ request_tid-request_of tid op)) (t, op, own))
        inv.asked)

module _ (s : System) (inv : Inv s) where
  post-Keeps :
      (t tid : ℕ) (op : Op) → s.calls t ≡ busy listed tid op → Keeps s (post_call t tid op s)
  post-Keeps t tid op at t0 tid0 op0 (h, l, x) =
      let ne : t ≢ t0 = λ e. listed-ne-posted (ap stage_of (sym at ∙ ap s.calls e ∙ h)) in
      (update_ne s.calls t _ t0 ne ∙ h, l, x)

  queue-post_call : (t tid : ℕ) (op : Op) → queue (post_call t tid op s) ≡ queue s ++ (tid ∷ [])
  queue-post_call t tid op =
      ap (λ l. map reply_tid s.incoming ++ l)
        (map-append request_tid s.outgoing (request_of tid op ∷ []))
      ∙ sym (append_assoc (map reply_tid s.incoming) (map request_tid s.outgoing) _)
      ∙ ap (λ n. queue s ++ (n ∷ [])) (request_tid-request_of tid op)

  pub post-Inv : (t tid : ℕ) (op : Op) → s.calls t ≡ busy listed tid op → Inv (post_call t tid op s)
  post-Inv t tid op at = record {
    counter = inv.counter;
    below =
        below_update s inv t tid s.entered posted op (inv.below t tid listed op at) (omega arith);
    apart = apart_update s inv t tid posted op (alone s inv t tid listed op at);
    fresh = fresh_update s inv t tid listed posted op at listed-ne-posted;
    enlisted = λ t' tid' op' h.
        elim (update-cases s.calls t (busy posted tid op) t' (busy listed tid' op') h) [
          | inl (e, new) ↦ absurd (listed-ne-posted (sym (ap stage_of new)))
          | inr (ne, old) ↦ inv.enlisted t' tid' op' old
        ];
    distinct = subst IsDistinct (sym (queue-post_call t tid op)) (
        IsDistinct-append (queue s) tid inv.distinct (
          All-mono (Owned s) (λ y. y ≢ tid) (queue s)
            (λ y (t0, op0, own) e.
              let same = alone s inv t tid listed op at t0 y posted op0 (sym e) own.0 in
              listed-ne-posted (ap stage_of (sym at ∙ ap s.calls same ∙ own.0)))
            (owned s inv)));
    asked =
        All-append (Asked (post_call t tid op s)) s.outgoing (request_of tid op ∷ [])
          (Asked-Keeps s (post_call t tid op s) s.outgoing (post-Keeps t tid op at) inv.asked)
          (
            (
              t,
              tid,
              op,
              refl,
              (
                update_self s.calls t (busy posted tid op),
                inv.enlisted t tid op at,
                inv.fresh t tid listed op at listed-ne-posted,
              ),
            ),
            tt,
          );
    replied =
        Replied-Keeps s (post_call t tid op s) s.incoming refl (post-Keeps t tid op at) inv.replied;
    settled = λ t' tid' op' h.
        elim (update-cases s.calls t (busy posted tid op) t' (busy posted tid' op') h) [
          | inl (e, new) ↦ inr (
              subst (Within tid') (sym (queue-post_call t tid op)) (
                subst (λ n. Within tid' (queue s ++ (n ∷ []))) (sym (ap tid_of new))
                  (Within-last tid' (queue s))))
          | inr (ne, old) ↦ elim (inv.settled t' tid' op' old) [
            | inl result ↦ inl result
            | inr way ↦ inr (
                subst (Within tid') (sym (queue-post_call t tid op))
                  (Within-append_left tid' (queue s) (tid ∷ []) way))
          ]
        ];
  }
