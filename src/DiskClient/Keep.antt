-- ===== src/DiskClient/Keep.antt =====
-- The threads of a `disk_client` of src/disk_client.h keep the invariant of Invariant.
use coursework_file_system.Prelude.{
  ℕ, ◌+◌, ◌≤◌, ◌<◌, ◌^◌, ◌≡◌, ◌≢◌, inl, inr, refl, sym, ap, ◌∙◌, List, All, All-mono, some, arith,
  ==_self, ==_ne,
}
use coursework_file_system.Table.{lookup-insert}
use coursework_file_system.Drive.{IoRequest, IoReply}
use coursework_file_system.DiskClient.{Op, shutdown, constructed, update}
use coursework_file_system.DiskClient.Steps.{
  Stage, numbered, listed, posted, Call, idle, busy, System, enter_call, enlist_call,
}
use coursework_file_system.DiskClient.Invariant.{
  Inv, Own, Asked, Replied, update_self, update_ne, update-cases,
}

abbrev pub tid_of : Call → ℕ
tid_of idle = 0
tid_of (busy stage tid op) = tid

abbrev pub stage_of : Call → Stage
stage_of idle = posted
stage_of (busy stage tid op) = stage

abbrev pub op_of : Call → Op
op_of idle = shutdown
op_of (busy stage tid op) = op

pub idle-ne-busy : {stage : Stage} {tid : ℕ} {op : Op} → idle ≢ busy stage tid op
idle-ne-busy e = cc

numbered-ne-listed : numbered ≢ listed
numbered-ne-listed e = cc

pub numbered-ne-posted : numbered ≢ posted
numbered-ne-posted e = cc

pub listed-ne-posted : listed ≢ posted
listed-ne-posted e = cc

-- What a step must leave to the threads that wait, for the requests and the replies on the way.
abbrev pub Keeps : System → System → Type 0
Keeps s s' = (t tid : ℕ) (op : Op) → Own s t tid op → Own s' t tid op

pub Asked-Keeps :
    (s s' : System) (rs : List IoRequest) → Keeps s s' → All (Asked s) rs → All (Asked s') rs
Asked-Keeps s s' rs keeps =
    All-mono (Asked s) (Asked s') rs (λ r (t, tid, op, e, own). (t, tid, op, e, keeps t tid op own))

pub Replied-Keeps :
    (s s' : System) (rs : List IoReply)
    → s'.log ≡ s.log
    → Keeps s s'
    → All (Replied s) rs
    → All (Replied s') rs
Replied-Keeps s s' rs same keeps =
    All-mono (Replied s) (Replied s') rs
      (λ r (t, tid, op, fits, logged, own). (t, tid, op, fits, rw same logged, keeps t tid op own))

module _ (s : System) (inv : Inv s) where
  pub apart_update :
      (t tid : ℕ) (stage : Stage) (op : Op)
      → ((t' tid' : ℕ) (stage' : Stage) (op' : Op)
          → tid ≡ tid'
          → s.calls t' ≡ busy stage' tid' op'
          → t ≡ t')
      → (t1 t2 tid' : ℕ) (stage1 stage2 : Stage) (op1 op2 : Op)
      → update s.calls t (busy stage tid op) t1 ≡ busy stage1 tid' op1
      → update s.calls t (busy stage tid op) t2 ≡ busy stage2 tid' op2
      → t1 ≡ t2
  apart_update t tid stage op alone t1 t2 tid' stage1 stage2 op1 op2 h1 h2 =
      elim (update-cases s.calls t (busy stage tid op) t1 (busy stage1 tid' op1) h1) [
        | inl (e1, new1) ↦
            elim (update-cases s.calls t (busy stage tid op) t2 (busy stage2 tid' op2) h2) [
              | inl (e2, new2) ↦ sym e1 ∙ e2
              | inr (ne2, old2) ↦ sym e1 ∙ alone t2 tid' stage2 op2 (ap tid_of new1) old2
            ]
        | inr (ne1, old1) ↦
            elim (update-cases s.calls t (busy stage tid op) t2 (busy stage2 tid' op2) h2) [
              | inl (e2, new2) ↦ sym (sym e2 ∙ alone t1 tid' stage1 op1 (ap tid_of new2) old1)
              | inr (ne2, old2) ↦ inv.apart t1 t2 tid' stage1 stage2 op1 op2 old1 old2
            ]
      ]

  pub below_update :
      (t tid bound : ℕ) (stage : Stage) (op : Op)
      → tid ≤ bound
      → s.entered ≤ bound
      → (t' tid' : ℕ) (stage' : Stage) (op' : Op)
      → update s.calls t (busy stage tid op) t' ≡ busy stage' tid' op'
      → tid' ≤ bound
  below_update t tid bound stage op small more t' tid' stage' op' h =
      elim (update-cases s.calls t (busy stage tid op) t' (busy stage' tid' op') h) [
        | inl (e, new) ↦ omega (arith, small, ap tid_of new)
        | inr (ne, old) ↦ omega (arith, more, inv.below t' tid' stage' op' old)
      ]

  -- A call that goes on to its next stage.
  pub alone :
      (t tid : ℕ) (stage : Stage) (op : Op)
      → s.calls t ≡ busy stage tid op
      → (t' tid' : ℕ) (stage' : Stage) (op' : Op) → tid ≡ tid'
      → s.calls t' ≡ busy stage' tid' op'
      → t ≡ t'
  alone t tid stage op at t' tid' stage' op' e h =
      inv.apart t t' tid' stage stage' op op' (at ∙ ap (λ n. busy stage n op) e) h

  pub fresh_update :
      (t tid : ℕ) (stage next : Stage) (op : Op)
      → s.calls t ≡ busy stage tid op
      → stage ≢ posted
      → (t' tid' : ℕ) (stage' : Stage) (op' : Op)
      → update s.calls t (busy next tid op) t' ≡ busy stage' tid' op'
      → stage' ≢ posted
      → s.client.transactions t' ≡ constructed op'
  fresh_update t tid stage next op at early t' tid' stage' op' h early' =
      elim (update-cases s.calls t (busy next tid op) t' (busy stage' tid' op') h) [
        | inl (e, new) ↦
            ap s.client.transactions (sym e)
            ∙ inv.fresh t tid stage op at early
            ∙ ap constructed (ap op_of new)
        | inr (ne, old) ↦ inv.fresh t' tid' stage' op' old early'
      ]

  enter-Keeps : (t : ℕ) (op : Op) → s.calls t ≡ idle → Keeps s (enter_call t op s)
  enter-Keeps t op free t0 tid0 op0 (h, l, x) =
      let ne : t ≢ t0 = λ e. idle-ne-busy (sym free ∙ ap s.calls e ∙ h) in
      (update_ne s.calls t _ t0 ne ∙ h, l, update_ne s.client.transactions t _ t0 ne ∙ x)

  pub enter-Inv :
      (t : ℕ) (op : Op) → s.calls t ≡ idle → s.entered + 2 < 2 ^ 32 → Inv (enter_call t op s)
  enter-Inv t op free few = record {
    counter = omega (arith, inv.counter, few);
    below =
        below_update t s.client.tid_counter (s.entered + 1) numbered op (omega (arith, inv.counter))
          (omega arith);
    apart = apart_update t s.client.tid_counter numbered op (λ t' tid' stage' op' e h.
        absurd (omega (arith, inv.counter, e, inv.below t' tid' stage' op' h)));
    fresh = λ t' tid' stage' op' h early.
        elim (update-cases s.calls t (busy numbered s.client.tid_counter op) t'
          (busy stage' tid' op') h) [
            | inl (e, new) ↦
                ap (update s.client.transactions t (constructed op)) (sym e)
                ∙ update_self s.client.transactions t (constructed op)
                ∙ ap constructed (ap op_of new)
            | inr (ne, old) ↦
                update_ne s.client.transactions t (constructed op) t' ne
                ∙ inv.fresh t' tid' stage' op' old early
          ];
    enlisted = λ t' tid' op' h.
        elim (update-cases s.calls t (busy numbered s.client.tid_counter op) t'
          (busy listed tid' op') h) [
            | inl (e, new) ↦ absurd (numbered-ne-listed (ap stage_of new))
            | inr (ne, old) ↦ inv.enlisted t' tid' op' old
          ];
    distinct = inv.distinct;
    asked = Asked-Keeps s (enter_call t op s) s.outgoing (enter-Keeps t op free) inv.asked;
    replied =
        Replied-Keeps s (enter_call t op s) s.incoming refl (enter-Keeps t op free) inv.replied;
    settled = λ t' tid' op' h.
        elim (update-cases s.calls t (busy numbered s.client.tid_counter op) t'
          (busy posted tid' op') h) [
            | inl (e, new) ↦ absurd (numbered-ne-posted (ap stage_of new))
            | inr (ne, old) ↦ elim (inv.settled t' tid' op' old) [
              | inl (reply, fits, logged, full) ↦ inl (
                reply,
                fits,
                logged,
                full ∙ ap some (sym (update_ne s.client.transactions t (constructed op) t' ne)),
              )
              | inr way ↦ inr way
            ]
          ];
  }

  enlist-Keeps :
      (t tid : ℕ) (op : Op) → s.calls t ≡ busy numbered tid op → Keeps s (enlist_call t tid op s)
  enlist-Keeps t tid op at t0 tid0 op0 (h, l, x) =
      let ne : t ≢ t0 = λ e. numbered-ne-posted (ap stage_of (sym at ∙ ap s.calls e ∙ h)) in
      let other : tid ≢ tid0 = λ e. ne (alone t tid numbered op at t0 tid0 posted op0 e h) in
      (
        update_ne s.calls t _ t0 ne ∙ h,
        lookup-insert tid tid0 t s.client.waiting_list ∙ rw (==_ne tid tid0 other) l,
        x,
      )

  pub enlist-Inv :
      (t tid : ℕ) (op : Op) → s.calls t ≡ busy numbered tid op → Inv (enlist_call t tid op s)
  enlist-Inv t tid op at = record {
    counter = inv.counter;
    below = below_update t tid s.entered listed op (inv.below t tid numbered op at) (omega arith);
    apart = apart_update t tid listed op (alone t tid numbered op at);
    fresh = fresh_update t tid numbered listed op at numbered-ne-posted;
    enlisted = λ t' tid' op' h.
        elim (update-cases s.calls t (busy listed tid op) t' (busy listed tid' op') h) [
          | inl (e, new) ↦
              lookup-insert tid tid' t s.client.waiting_list
              ∙ rw (ap tid_of new, ==_self tid') (ap some e)
          | inr (ne, old) ↦
              lookup-insert tid tid' t s.client.waiting_list
              ∙ rw (==_ne tid tid' (λ e. ne (alone t tid numbered op at t' tid' listed op' e old)))
                  (inv.enlisted t' tid' op' old)
        ];
    distinct = inv.distinct;
    asked = Asked-Keeps s (enlist_call t tid op s) s.outgoing (enlist-Keeps t tid op at) inv.asked;
    replied =
        Replied-Keeps s (enlist_call t tid op s) s.incoming refl (enlist-Keeps t tid op at)
          inv.replied;
    settled = λ t' tid' op' h.
        elim (update-cases s.calls t (busy listed tid op) t' (busy posted tid' op') h) [
          | inl (e, new) ↦ absurd (listed-ne-posted (ap stage_of new))
          | inr (ne, old) ↦ inv.settled t' tid' op' old
        ];
  }
