-- ===== src/Socket/Handle/Owners.antt =====
-- Who closes a descriptor of src/utils/socket.h: in any sequence of operations on socket objects
-- each open descriptor has one owner.
use coursework_file_system.Prelude.{
  ℕ, ◌≡◌, ◌≢◌, ◌⊎◌, inl, inr, refl, sym, ap, ◌∙◌, Bool, true, false, List, [], ◌∷◌, ◌==◌,
  if◌then◌else◌, ℕ_discrete, Bool-cases, ==_ne, ==_self,
}
use coursework_file_system.Disk.{update, update_self, update_ne}
use coursework_file_system.Socket.Handle.{SocketHandle, moved_from, Event, opened, closed_fd}

-- The descriptor has been opened and not closed since.
abbrev pub live : List Event → ℕ → Bool
live [] fd = false
live (opened e ∷ log) fd = if fd == e then true else live log fd
live (closed_fd e ∷ log) fd = if fd == e then false else live log fd

-- Only open descriptors are closed.
abbrev pub Clean : List Event → Type 0
Clean [] = Unit {0}
Clean (opened e ∷ log) = Clean log
Clean (closed_fd e ∷ log) = (live log e ≡ true) × Clean log

abbrev pub Slots : Type 0
Slots = ℕ → SocketHandle

-- Each socket object that is not closed has an open descriptor of its own, and each open descriptor
-- has such an object.
pub record Owned (slots : Slots) (log : List Event) : Type 0 where
  pub clean : Clean log
  pub held : (i : ℕ) → (slots i).closed ≡ false → live log (slots i).sockfd ≡ true
  pub unique :
      (i j : ℕ)
      → (slots i).closed ≡ false
      → (slots j).closed ≡ false
      → (slots i).sockfd ≡ (slots j).sockfd
      → i ≡ j
  pub owner :
      (fd : ℕ) → live log fd ≡ true → (i : ℕ) × ((slots i).closed ≡ false) × ((slots i).sockfd ≡ fd)

true-false : {A : Type 0} {b : Bool} → b ≡ true → b ≡ false → A
true-false p q = cc

slot-cases :
    (slots : Slots) (i : ℕ) (h : SocketHandle) (k : ℕ)
    → ((k ≡ i) × (update slots i h k ≡ h)) ⊎ ((k ≢ i) × (update slots i h k ≡ slots k))
slot-cases slots i h k = elim (ℕ_discrete k i) [
  | yes e ↦ inl (e, ap (update slots i h) e ∙ update_self slots i h)
  | no ne ↦ inr (ne, update_ne slots i h k ne)
]

module _ (slots : Slots) (log : List Event) (o : Owned slots log) where
  -- An object that is not closed in the place of which there is a closed one.
  module _ (i : ℕ) (h : SocketHandle) (dead : h.closed ≡ true) where
    other : (k : ℕ) → (update slots i h k).closed ≡ false → (k ≢ i) × (update slots i h k ≡ slots k)
    other k up = elim (slot-cases slots i h k) [
      | inl (e, here) ↦ true-false (ap (λ x. x.closed) here ∙ dead) up
      | inr rest ↦ rest
    ]

    still_open : (k : ℕ) → (update slots i h k).closed ≡ false → (slots k).closed ≡ false
    still_open k up = sym (ap (λ x. x.closed) (other k up).1) ∙ up

    unique-update :
        (j k : ℕ)
        → (update slots i h j).closed ≡ false
        → (update slots i h k).closed ≡ false
        → (update slots i h j).sockfd ≡ (update slots i h k).sockfd
        → j ≡ k
    unique-update j k p q e =
        o.unique j k (still_open j p) (still_open k q)
          (sym (ap (λ x. x.sockfd) (other j p).1) ∙ e ∙ ap (λ x. x.sockfd) (other k q).1)

    pub Owned-dead : (slots i).closed ≡ true → Owned (update slots i h) log
    Owned-dead was = record {
      clean = o.clean;
      held = λ k up. ap (λ x. live log x.sockfd) (other k up).1 ∙ o.held k (still_open k up);
      unique = unique-update;
      owner = λ fd alive.
          let (k, up, is) = o.owner fd alive in
          let ne : k ≢ i = λ e. true-false (was) (ap (λ x. (slots x).closed) (sym e) ∙ up) in
          let same = update_ne slots i h k ne in
          (k, ap (λ x. x.closed) same ∙ up, ap (λ x. x.sockfd) same ∙ is);
    }

    pub Owned-closed :
        (slots i).closed ≡ false → Owned (update slots i h) (closed_fd (slots i).sockfd ∷ log)
    Owned-closed was = record {
      clean = (o.held i was, o.clean);
      held = λ k up.
          let apart : (slots k).sockfd ≢ (slots i).sockfd =
            λ e. (other k up).0 (o.unique k i (still_open k up) was e) in
          ap (λ x. live (closed_fd (slots i).sockfd ∷ log) x.sockfd) (other k up).1
          ∙ rw (==_ne (slots k).sockfd (slots i).sockfd apart) (o.held k (still_open k up));
      unique = unique-update;
      owner = λ fd alive.
          let (ne_fd, before) = survives fd alive in
          let (k, up, is) = o.owner fd before in
          let ne : k ≢ i = λ e. ne_fd (sym is ∙ ap (λ x. (slots x).sockfd) e) in
          let same = update_ne slots i h k ne in
          (k, ap (λ x. x.closed) same ∙ up, ap (λ x. x.sockfd) same ∙ is);
    }
      where
        survives :
            (fd : ℕ)
            → live (closed_fd (slots i).sockfd ∷ log) fd ≡ true
            → (fd ≢ (slots i).sockfd) × (live log fd ≡ true)
        survives fd alive = elim (ℕ_discrete fd (slots i).sockfd) [
          | yes e ↦ true-false alive (rw (e, ==_self (slots i).sockfd) refl)
          | no ne ↦ (ne, rw (==_ne fd (slots i).sockfd ne) at alive)
        ]

  -- A new descriptor that was not open, in a free place.
  pub Owned-opened :
      (i : ℕ) (h : SocketHandle)
      → (slots i).closed ≡ true
      → h.closed ≡ false
      → live log h.sockfd ≡ false
      → Owned (update slots i h) (opened h.sockfd ∷ log)
  Owned-opened i h was up fresh = record {
    clean = o.clean;
    held = λ k p. elim (slot-cases slots i h k) [
      | inl (e, here) ↦
          ap (λ x. live (opened h.sockfd ∷ log) x.sockfd) here ∙ rw (==_self h.sockfd) refl
      | inr (ne, rest) ↦
          let p' : (slots k).closed ≡ false = sym (ap (λ x. x.closed) rest) ∙ p in
          ap (λ x. live (opened h.sockfd ∷ log) x.sockfd) rest
          ∙ rw (==_ne (slots k).sockfd h.sockfd (new_fd k p')) (o.held k p')
    ];
    unique = λ j k p q e. elim (slot-cases slots i h j) [
      | inl (ej, hj) ↦ elim (slot-cases slots i h k) [
        | inl (ek, hk) ↦ ej ∙ sym ek
        | inr (nk, rk) ↦ absurd (
            new_fd k (sym (ap (λ x. x.closed) rk) ∙ q)
              (sym (ap (λ x. x.sockfd) rk) ∙ sym e ∙ ap (λ x. x.sockfd) hj))
      ]
      | inr (nj, rj) ↦ elim (slot-cases slots i h k) [
        | inl (ek, hk) ↦ absurd (
            new_fd j (sym (ap (λ x. x.closed) rj) ∙ p)
              (sym (ap (λ x. x.sockfd) rj) ∙ e ∙ ap (λ x. x.sockfd) hk))
        | inr (nk, rk) ↦
            o.unique j k (sym (ap (λ x. x.closed) rj) ∙ p) (sym (ap (λ x. x.closed) rk) ∙ q)
              (sym (ap (λ x. x.sockfd) rj) ∙ e ∙ ap (λ x. x.sockfd) rk)
      ]
    ];
    owner = λ fd alive. elim (ℕ_discrete fd h.sockfd) [
      | yes e ↦
          let here = update_self slots i h in
          (i, ap (λ x. x.closed) here ∙ up, ap (λ x. x.sockfd) here ∙ sym e)
      | no ne ↦
          let (k, p, is) = o.owner fd (rw (==_ne fd h.sockfd ne) at alive) in
          let nk : k ≢ i = λ e. true-false was (ap (λ x. (slots x).closed) (sym e) ∙ p) in
          let rest = update_ne slots i h k nk in
          (k, ap (λ x. x.closed) rest ∙ p, ap (λ x. x.sockfd) rest ∙ is)
    ];
  }
    where
      new_fd : (k : ℕ) → (slots k).closed ≡ false → (slots k).sockfd ≢ h.sockfd
      new_fd k p e = true-false (sym (ap (live log) e) ∙ o.held k p) fresh

  Owned-live :
      (log' : List Event) → Clean log' → ((fd : ℕ) → live log' fd ≡ live log fd) → Owned slots log'
  Owned-live log' clean same = record {
    clean = clean;
    held = λ k up. same (slots k).sockfd ∙ o.held k up;
    unique = o.unique;
    owner = λ fd alive. o.owner fd (sym (same fd) ∙ alive);
  }

-- The two objects of a move: the new one at `i`, and what is left at `j`.
abbrev pub placed : Slots → ℕ → ℕ → SocketHandle × SocketHandle → Slots
placed slots i j (new, rest) = update (update slots j rest) i new

-- It is as if its descriptor were closed and opened again.
live-reopened :
    (log : List Event) (e : ℕ)
    → live log e ≡ true
    → (fd : ℕ) → live log fd ≡ live (opened e ∷ closed_fd e ∷ log) fd
live-reopened log e alive fd = elim (ℕ_discrete fd e) [
  | yes same ↦ rw (same, ==_self e) alive
  | no ne ↦ rw (==_ne fd e ne) refl
]

pub Owned-placed :
    (slots : Slots) (log : List Event)
    → Owned slots log
    → (i j : ℕ) → i ≢ j
    → (slots i).closed ≡ true
    → Owned (placed slots i j (moved_from (slots j))) log
Owned-placed slots log o i j ne was =
    let other = slots j in
    let rest : SocketHandle = record other { closed = true } in
    let free : (update slots j rest i).closed ≡ true =
      ap (λ x. x.closed) (update_ne slots j rest i ne) ∙ was in
    elim (Bool-cases other.closed) [
      | inl dead ↦
          Owned-dead (update slots j rest) log (Owned-dead slots log o j rest refl dead) i other
            dead free
      | inr up ↦
          Owned-live (placed slots i j (moved_from (slots j)))
            (opened other.sockfd ∷ closed_fd other.sockfd ∷ log)
            (Owned-opened (update slots j rest) (closed_fd other.sockfd ∷ log)
              (Owned-closed slots log o j rest refl up) i other free up
              (rw (==_self other.sockfd) refl))
            log o.clean (live-reopened log other.sockfd (o.held j up))
    ]
