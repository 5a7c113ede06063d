-- ===== src/DiskClient/Reachable.antt =====
-- Every state that a `disk_client` of src/disk_client.h reaches meets the invariant of Invariant.
use coursework_file_system.Prelude.{
  ℕ, ◌+◌, ◌≤◌, ◌<◌, ◌^◌, ◌≡◌, ◌≢◌, inl, inr, refl, sym, ap, ◌∙◌, subst, List, ◌∷◌, All, true, false,
  arith,
}
use coursework_file_system.Run.{done}
use coursework_file_system.Drive.{IoReply}
use coursework_file_system.DiskClient.{
  Client, Op, read, write, shutdown, constructed, update, handle,
}
use coursework_file_system.DiskClient.Steps.{
  Stage, posted, listed, idle, busy, System, Step, enter, enlist, post, answer, respond, leave,
  Started, Reach, start, next,
}
use coursework_file_system.DiskClient.Invariant.{Inv, Own, Replied, update_ne, update-cases}
use coursework_file_system.DiskClient.Keep.{
  Keeps, Asked-Keeps, Replied-Keeps, idle-ne-busy, enter-Inv, enlist-Inv,
}
use coursework_file_system.DiskClient.Exchange.{post-Inv, reply_tid-Fits}
use coursework_file_system.DiskClient.Respond.{
  answer-Inv, filled-Fits, client_of, handled, handle-Own, responded-Inv,
}

constructed-asleep : (op : Op) → (constructed op).sig_wake ≡ false
constructed-asleep (read addr buf) = refl
constructed-asleep (write addr bytes) = refl
constructed-asleep shutdown = refl

pub Own-asleep :
    (s : System) (t tid : ℕ) (op : Op) → Own s t tid op → (s.client.transactions t).sig_wake ≢ true
Own-asleep s t tid op own e =
    true-ne-false (sym e ∙ ap (λ x. x.sig_wake) own.2 ∙ constructed-asleep op)
  where
    true-ne-false : true ≢ false
    true-ne-false e = cc

module _ (s : System) (inv : Inv s) where
  leave-Inv :
      (t tid : ℕ) (op : Op)
      → s.calls t ≡ busy posted tid op
      → (s.client.transactions t).sig_wake ≡ true
      → Inv (record s { calls = update s.calls t idle })
  leave-Inv t tid op at awake =
      let s' : System = record s { calls = update s.calls t idle } in
      let keeps : Keeps s s' = λ t0 tid0 op0 own.
        let ne : t ≢ t0 = λ e.
          Own-asleep s t0 tid0 op0 own
            (ap (λ k. (s.client.transactions k).sig_wake) (sym e) ∙ awake) in
        (update_ne s.calls t idle t0 ne ∙ own.0, own.1, own.2) in
      record {
        counter = inv.counter;
        below = λ t' tid' stage' op' h. inv.below t' tid' stage' op' (was t t' tid' stage' op' h);
        apart = λ t1 t2 tid' stage1 stage2 op1 op2 h1 h2.
            inv.apart t1 t2 tid' stage1 stage2 op1 op2 (was t t1 tid' stage1 op1 h1)
              (was t t2 tid' stage2 op2 h2);
        fresh = λ t' tid' stage' op' h. inv.fresh t' tid' stage' op' (was t t' tid' stage' op' h);
        enlisted = λ t' tid' op' h. inv.enlisted t' tid' op' (was t t' tid' listed op' h);
        distinct = inv.distinct;
        asked = Asked-Keeps s s' s.outgoing keeps inv.asked;
        replied = Replied-Keeps s s' s.incoming refl keeps inv.replied;
        settled = λ t' tid' op' h. inv.settled t' tid' op' (was t t' tid' posted op' h);
      }
    where
      was :
          (t t' tid' : ℕ) (stage' : Stage) (op' : Op)
          → update s.calls t idle t' ≡ busy stage' tid' op'
          → s.calls t' ≡ busy stage' tid' op'
      was t t' tid' stage' op' h = elim (update-cases s.calls t idle t' (busy stage' tid' op') h) [
        | inl (e, new) ↦ absurd (idle-ne-busy new)
        | inr (ne, old) ↦ old
      ]

  -- The first reply of the connection is handled, and how.
  pub respond-next :
      (reply : IoReply) (rest : List IoReply)
      → s.incoming ≡ reply ∷ rest
      → (c : Client) × (handle reply s.client ≡ done tt c)
        × Inv (record s { client = c; incoming = rest })
  respond-next reply rest in_front =
      let (t, tid, op, fits, logged, own) = (subst (All (Replied s)) in_front inv.replied).0 in
      let (x, full) = filled-Fits tid op reply fits in
      let same = reply_tid-Fits tid op reply fits in
      (
        handled t tid x s.client,
        handle-Own s t tid op reply x own same full,
        responded-Inv s inv reply rest in_front t tid op x own same full fits logged,
      )

Started-Inv : (s : System) → Started s → Inv s
Started-Inv s new = record {
  counter = omega (arith, new.counter, new.no_calls);
  below = λ t tid stage op h. absurd (idle-ne-busy (sym (new.all_idle t) ∙ h));
  apart = λ t t' tid stage stage' op op' h h'. absurd (idle-ne-busy (sym (new.all_idle t) ∙ h));
  fresh = λ t tid stage op h early. absurd (idle-ne-busy (sym (new.all_idle t) ∙ h));
  enlisted = λ t tid op h. absurd (idle-ne-busy (sym (new.all_idle t) ∙ h));
  distinct = rw (new.quiet.0, new.quiet.1) tt;
  asked = rw new.quiet.0 tt;
  replied = rw new.quiet.1 tt;
  settled = λ t tid op h. absurd (idle-ne-busy (sym (new.all_idle t) ∙ h));
}

Step-entered : {s s' : System} → Step s s' → s.entered ≤ s'.entered
Step-entered (enter t op free) = omega arith
Step-entered (enlist t tid op at) = omega arith
Step-entered (post t tid op at) = omega arith
Step-entered (answer r rest reply wait receiver out run) = omega arith
Step-entered (respond reply rest c in_front run) = omega arith
Step-entered (leave t tid op at awake) = omega arith

Step-Inv : {s s' : System} → Step s s' → s'.entered + 1 < 2 ^ 32 → Inv s → Inv s'
Step-Inv {s} (enter t op free) few inv = enter-Inv s inv t op free (omega (arith, few))
Step-Inv {s} (enlist t tid op at) few inv = enlist-Inv s inv t tid op at
Step-Inv {s} (post t tid op at) few inv = post-Inv s inv t tid op at
Step-Inv {s} (answer r rest reply wait receiver out run) few inv =
    answer-Inv s inv r rest reply wait receiver out run
Step-Inv {s} (respond reply rest c in_front run) few inv =
    let (c', run', inv') = respond-next s inv reply rest in_front in
    subst (λ k. Inv (record s { client = k; incoming = rest }))
      (ap (client_of s.client) (sym run' ∙ run)) inv'
Step-Inv {s} (leave t tid op at awake) few inv = leave-Inv s inv t tid op at awake

pub Reach-Inv : {s : System} → Reach s → s.entered + 1 < 2 ^ 32 → Inv s
Reach-Inv (start s new) few = Started-Inv s new
Reach-Inv (next before step) few =
    Step-Inv step few (Reach-Inv before (omega (arith, few, Step-entered step)))
