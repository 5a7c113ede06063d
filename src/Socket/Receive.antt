-- ===== src/Socket/Receive.antt =====
-- What the receive loop of src/utils/socket.h takes from the stream.
use mathlib.Core.List.{append_assoc, append-nil}
use coursework_file_system.Prelude.{
  ℕ, zero, suc, ◌+◌, ◌-◌, ◌^◌, ◌<◌, ◌≤◌, ◌≡◌, ◌⊎◌, inl, inr, refl, sym, ap, ◌∙◌, true, [], ◌∷◌,
  ◌++◌, length, take, drop, ltb, arith, Bool-cases, ltb→lt, le_of_ltb-false, length-append,
}
use coursework_file_system.Bytes.{Bytes, put_word, get_word, length-put_word, get_word-put_word}
use coursework_file_system.Run.{ErrorCode, Run, done, thrown, socket_closed_by_remote}
use coursework_file_system.Socket.{
  Received, received, not_received, Errno, interrupted, recv_error, recv_from, recv_raw, recv_str,
  framed,
}

-- The documented behaviour of `::recv`: it takes at most as many bytes as it is asked for off the
-- front of the stream, or fails and takes none. `patience` bounds the interruptions.
pub record Receives {W : Type 0} (recv_call : ℕ → ℕ → W → Received × W) (incoming : W → Bytes)
    (patience : W → ℕ) : Type 0 where
  pub stores :
      (fd asked : ℕ) (bytes : Bytes) (w : W)
      → (recv_call fd asked w).0 ≡ received bytes
      → (length bytes ≤ asked)
        × (incoming w ≡ bytes ++ incoming (recv_call fd asked w).1)
        × (patience (recv_call fd asked w).1 ≤ patience w)
  pub fails :
      (fd asked : ℕ) (e : Errno) (w : W)
      → (recv_call fd asked w).0 ≡ not_received e
      → (incoming w ≡ incoming (recv_call fd asked w).1)
        × (interrupted e ≡ true → patience (recv_call fd asked w).1 < patience w)

module _ {W : Type 0} (recv_call : ℕ → ℕ → W → Received × W) (incoming : W → Bytes)
    (patience : W → ℕ) (os : Receives recv_call incoming patience) (fd : ℕ) where
  -- The loop returned the next `len` bytes of the stream, or it threw.
  abbrev pub Outcome : ℕ → W → Run W Bytes → Type 0
  Outcome len w0 run =
      ((bytes : Bytes) × (w' : W) × (run ≡ done bytes w')
        × (length bytes ≡ len)
        × (incoming w0 ≡ bytes ++ incoming w')
        × (patience w' ≤ patience w0))
      ⊎ ((e : ErrorCode) × (w' : W) × (run ≡ thrown e w'))

  abbrev At : ℕ → W → Bytes → W → ℕ → Type 0
  At len w0 stored w fuel =
      (length stored ≤ len)
      × (incoming w0 ≡ stored ++ incoming w)
      × (patience w ≤ patience w0)
      × (len - length stored + patience w < fuel)

  recv_step :
      (fuel len : ℕ) (w0 w : W) (stored : Bytes) (result : Received)
      → ((stored' : Bytes) (w'' : W)
          → At len w0 stored' w'' fuel
          → Outcome len w0 (recv_from recv_call fuel fd len stored' w''))
      → At len w0 stored w (suc fuel)
      → ltb (length stored) len ≡ true
      → (recv_call fd (len - length stored) w).0 ≡ result
      → Outcome len w0 (recv_from recv_call (suc fuel) fd len stored w)
  unfolding recv_from
  recv_step fuel len w0 w stored (received []) ih at more call =
      rw (recv_from, more, call)
        (inr (socket_closed_by_remote, (recv_call fd (len - length stored) w).1, refl))
  recv_step fuel len w0 w stored (received (b ∷ bs)) ih at more call =
      let (small, taken, calm) = os.stores fd (len - length stored) (b ∷ bs) w call in
      rw (recv_from, more, call)
        (ih (stored ++ (b ∷ bs)) (recv_call fd (len - length stored) w).1 (
          omega (arith, small, length-append stored (b ∷ bs), ltb→lt (length stored) len more),
          at.1
              ∙ ap (λ s. stored ++ s) taken
              ∙ sym (
                  append_assoc stored (b ∷ bs) (incoming (recv_call fd (len - length stored) w).1)),
          omega (arith, calm, at.2),
          omega (
            arith,
            small,
            calm,
            at.3,
            length-append stored (b ∷ bs),
            ltb→lt (length stored) len more,
          ),
        ))
  recv_step fuel len w0 w stored (not_received e) ih at more call =
      let (kept, calm) = os.fails fd (len - length stored) e w call in
      elim (Bool-cases (interrupted e)) [
        | inl again ↦
            rw (recv_from, more, call, again)
              (ih stored (recv_call fd (len - length stored) w).1 (
                at.0,
                at.1 ∙ ap (λ s. stored ++ s) kept,
                omega (arith, calm again, at.2),
                omega (arith, calm again, at.3),
              ))
        | inr final ↦
            rw (recv_from, more, call, final)
              (inr (recv_error e, (recv_call fd (len - length stored) w).1, refl))
      ]

  recv_from_lem :
      (fuel len : ℕ) (w0 w : W) (stored : Bytes)
      → At len w0 stored w fuel
      → Outcome len w0 (recv_from recv_call fuel fd len stored w)
  unfolding recv_from
  recv_from_lem zero len w0 w stored at = absurd (omega (arith, at.3))
  recv_from_lem (suc fuel) len w0 w stored at = elim (Bool-cases (ltb (length stored) len)) [
    | inl more ↦
        recv_step fuel len w0 w stored (recv_call fd (len - length stored) w).0
          (λ stored' w''. recv_from_lem fuel len w0 w'' stored') at more refl
    | inr over ↦
        rw (recv_from, over)
          (inl (
            stored,
            w,
            refl,
            omega (arith, at.0, le_of_ltb-false (length stored) len over),
            at.1,
            at.2,
          ))
  ]

  -- With more fuel than the bytes asked for and the system's patience, `recv_raw` ends: it returns
  -- exactly the next bytes of the stream, as many as asked for, or it throws.
  pub recv_raw-ends :
      (fuel len : ℕ) (w : W)
      → len + patience w < fuel
      → Outcome len w (recv_raw recv_call fuel fd len w)
  recv_raw-ends fuel len w lt =
      recv_from_lem fuel len w w [] (omega arith, refl, omega arith, omega (arith, lt))

take-append_left : (xs ys : Bytes) → take (length xs) (xs ++ ys) ≡ xs
take-append_left [] ys = refl
take-append_left (x ∷ xs) ys = ap (λ r. x ∷ r) (take-append_left xs ys)

drop-append_left : (xs ys : Bytes) → drop (length xs) (xs ++ ys) ≡ ys
drop-append_left [] ys = refl
drop-append_left (x ∷ xs) ys = drop-append_left xs ys

-- Front parts of one length of the same stream are the same.
split_unique :
    (xs xs' ys ys' : Bytes)
    → length xs ≡ length xs'
    → xs ++ ys ≡ xs' ++ ys'
    → (xs ≡ xs') × (ys ≡ ys')
split_unique xs xs' ys ys' size e = (
  sym (take-append_left xs ys)
      ∙ ap (λ s. take (length xs) s) e
      ∙ ap (λ n. take n (xs' ++ ys')) size
      ∙ take-append_left xs' ys',
  sym (drop-append_left xs ys)
      ∙ ap (λ s. drop (length xs) s) e
      ∙ ap (λ n. drop n (xs' ++ ys')) size
      ∙ drop-append_left xs' ys',
)

module _ {W : Type 0} (recv_call : ℕ → ℕ → W → Received × W) (incoming : W → Bytes)
    (patience : W → ℕ) (os : Receives recv_call incoming patience) (fd : ℕ) where
  -- On a stream that goes on with a string as `send_str` frames it, and with fuel for the bytes and
  -- the system's patience, `recv_str` ends: it returns exactly that string and leaves what follows
  -- it, or it throws.
  pub recv_str-framed :
      (fuel : ℕ) (str rest : Bytes) (w : W)
      → length str < 256 ^ 8
      → incoming w ≡ framed str ++ rest
      → 8 + length str + patience w < fuel
      → ((w' : W) × (recv_str recv_call fuel fd w ≡ done str w') × (incoming w' ≡ rest))
        ⊎ ((e : ErrorCode) × (w' : W) × (recv_str recv_call fuel fd w ≡ thrown e w'))
  unfolding recv_str
  recv_str-framed fuel str rest w small stream lt =
      elim (recv_raw-ends recv_call incoming patience os fd fuel 8 w (omega (arith, lt))) [
        | inr (e, w1, run1) ↦ inr (e, w1, rw run1 refl)
        | inl (bytes, w1, run1, size, taken, calm) ↦
            let (header, behind) =
              split_unique bytes (put_word 8 (length str)) (incoming w1) (str ++ rest)
                (size ∙ sym (length-put_word 8 (length str)))
                (sym taken ∙ stream ∙ append_assoc (put_word 8 (length str)) str rest) in
            let number : (get_word 8 bytes).0 ≡ length str =
              ap (λ b. (get_word 8 b).0) (header ∙ sym (append-nil (put_word 8 (length str))))
              ∙ ap (λ p. p.0) (get_word-put_word 8 (length str) [] small) in
            elim (recv_raw-ends recv_call incoming patience os fd fuel (length str) w1
              (omega (arith, lt, calm))) [
                | inr (e, w2, run2) ↦ inr (e, w2, rw (run1, number, run2) refl)
                | inl (bytes', w2, run2, size', taken', calm') ↦
                    let (same, left) =
                      split_unique bytes' str (incoming w2) rest size' (sym taken' ∙ behind) in
                    inl (w2, rw (run1, number, run2, same) refl, left)
              ]
      ]
