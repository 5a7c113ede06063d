-- ===== src/Socket/Send.antt =====
-- What the send loop of src/utils/socket.h leaves on the wire.
use coursework_file_system.Prelude.{
  ℕ, zero, suc, ◌+◌, ◌-◌, ◌<◌, ◌≤◌, ◌≡◌, ◌⊎◌, inl, inr, refl, sym, ap, ◌∙◌, true, ◌++◌, length,
  take, drop, ltb, arith, Bool-cases, length-drop, take-add, take-append-drop, take_all, ltb→lt,
  le_of_ltb-false,
}
use mathlib.Core.List.{append_assoc, append-nil}
use coursework_file_system.Bytes.{Bytes, put_word, length-put_word}
use coursework_file_system.Run.{ErrorCode, Run, done, thrown}
use coursework_file_system.Socket.{
  Sent, sent, not_sent, Errno, interrupted, send_error, send_from, send_raw, send_str, framed,
}

-- The documented behaviour of `::send` on a buffer that is not empty: it puts a front part of it on
-- the wire and returns its length, or fails and puts nothing. `patience` bounds how often it returns without progress.
pub record Sends {W : Type 0} (send_call : ℕ → Bytes → W → Sent × W) (wire : W → Bytes)
    (patience : W → ℕ) : Type 0 where
  pub counts :
      (fd n : ℕ) (buf : Bytes) (w : W)
      → 0 < length buf
      → (send_call fd buf w).0 ≡ sent n
      → (n ≤ length buf)
        × (wire (send_call fd buf w).1 ≡ wire w ++ take n buf)
        × (patience (send_call fd buf w).1 ≤ patience w)
        × ((0 < n) ⊎ (patience (send_call fd buf w).1 < patience w))
  pub fails :
      (fd : ℕ) (e : Errno) (buf : Bytes) (w : W)
      → (send_call fd buf w).0 ≡ not_sent e
      → (wire (send_call fd buf w).1 ≡ wire w)
        × (interrupted e ≡ true → patience (send_call fd buf w).1 < patience w)

module _ {W : Type 0} (send_call : ℕ → Bytes → W → Sent × W) (wire : W → Bytes) (patience : W → ℕ)
    (os : Sends send_call wire patience) (fd : ℕ) (buf : Bytes) where
  -- The loop returned with everything on the wire, or it threw with a front part of it there.
  abbrev pub Outcome : W → Run W (Unit {0}) → Type 0
  Outcome w0 run =
      ((w' : W) × (run ≡ done tt w') × (wire w' ≡ wire w0 ++ buf) × (patience w' ≤ patience w0))
      ⊎ ((e : ErrorCode) × (w' : W) × (front : Bytes) × (rest : Bytes) × (run ≡ thrown e w')
          × (buf ≡ front ++ rest)
          × (wire w' ≡ wire w0 ++ front))

  -- What the loop has done before a round.
  abbrev At : W → ℕ → W → ℕ → Type 0
  At w0 total w fuel =
      (total ≤ length buf)
      × (wire w ≡ wire w0 ++ take total buf)
      × (patience w ≤ patience w0)
      × (length buf - total + patience w < fuel)

  send_step :
      (fuel total : ℕ) (w0 w : W) (result : Sent)
      → ((total' : ℕ) (w'' : W)
          → At w0 total' w'' fuel
          → Outcome w0 (send_from send_call fuel fd buf total' w''))
      → At w0 total w (suc fuel)
      → ltb total (length buf) ≡ true
      → (send_call fd (drop total buf) w).0 ≡ result
      → Outcome w0 (send_from send_call (suc fuel) fd buf total w)
  unfolding send_from
  send_step fuel total w0 w (sent n) ih at more call =
      let (small, wrote, calm, progress) =
        os.counts fd n (drop total buf) w
          (omega (arith, length-drop total buf, ltb→lt total (length buf) more)) call in
      rw (send_from, more, call)
        (ih (total + n) (send_call fd (drop total buf) w).1 (
          omega (arith, small, length-drop total buf, ltb→lt total (length buf) more),
          wrote
              ∙ ap (λ b. b ++ take n (drop total buf)) at.1
              ∙ append_assoc (wire w0) (take total buf) (take n (drop total buf))
              ∙ ap (λ b. wire w0 ++ b) (sym (take-add total n buf)),
          omega (arith, calm, at.2),
          omega (
            arith,
            small,
            calm,
            progress,
            at.3,
            length-drop total buf,
            ltb→lt total (length buf) more,
          ),
        ))
  send_step fuel total w0 w (not_sent e) ih at more call =
      let (kept, calm) = os.fails fd e (drop total buf) w call in
      elim (Bool-cases (interrupted e)) [
        | inl again ↦
            rw (send_from, more, call, again)
              (ih total (send_call fd (drop total buf) w).1 (
                at.0,
                kept ∙ at.1,
                omega (arith, calm again, at.2),
                omega (arith, calm again, at.3),
              ))
        | inr final ↦
            rw (send_from, more, call, final)
              (inr (
                send_error e,
                (send_call fd (drop total buf) w).1,
                take total buf,
                drop total buf,
                refl,
                sym (take-append-drop total buf),
                kept ∙ at.1,
              ))
      ]

  send_from_lem :
      (fuel total : ℕ) (w0 w : W)
      → At w0 total w fuel
      → Outcome w0 (send_from send_call fuel fd buf total w)
  unfolding send_from
  send_from_lem zero total w0 w at = absurd (omega (arith, at.3))
  send_from_lem (suc fuel) total w0 w at = elim (Bool-cases (ltb total (length buf))) [
    | inl more ↦
        send_step fuel total w0 w (send_call fd (drop total buf) w).0
          (λ total' w''. send_from_lem fuel total' w0 w'') at more refl
    | inr over ↦
        rw (send_from, over)
          (inl (
            w,
            refl,
            at.1
                ∙ ap (λ b. wire w0 ++ b)
                    (take_all total buf (le_of_ltb-false total (length buf) over)),
            at.2,
          ))
  ]

  -- With more fuel than the buffer has bytes and the system has patience, `send_raw` ends: it has
  -- put the whole buffer on the wire, or it throws with a front part of the buffer there.
  pub send_raw-ends :
      (fuel : ℕ) (w : W)
      → length buf + patience w < fuel
      → Outcome w (send_raw send_call fuel fd buf w)
  send_raw-ends fuel w lt =
      send_from_lem fuel 0 w w
        (omega arith, sym (append-nil (wire w)), omega arith, omega (arith, lt))

module _ {W : Type 0} (send_call : ℕ → Bytes → W → Sent × W) (wire : W → Bytes) (patience : W → ℕ)
    (os : Sends send_call wire patience) (fd : ℕ) where
  -- With more fuel than the string has bytes, with its length, and the system has patience,
  -- `send_str` ends: the string is on the wire behind its length, or it throws with a front part of
  -- that there.
  pub send_str-ends :
      (fuel : ℕ) (str : Bytes) (w : W)
      → 8 + length str + patience w < fuel
      → Outcome send_call wire patience os fd (framed str) w (send_str send_call fuel fd str w)
  unfolding send_str
  send_str-ends fuel str w lt =
      let size = length-put_word 8 (length str) in
      elim (send_raw-ends send_call wire patience os fd (put_word 8 (length str)) fuel w
        (omega (arith, size, lt))) [
          | inl (w1, run1, wire1, calm1) ↦
              elim (send_raw-ends send_call wire patience os fd str fuel w1
                (omega (arith, calm1, lt))) [
                  | inl (w2, run2, wire2, calm2) ↦
                      rw (run1, run2)
                        (inl (
                          w2,
                          refl,
                          wire2
                              ∙ ap (λ b. b ++ str) wire1
                              ∙ append_assoc (wire w) (put_word 8 (length str)) str,
                          omega (arith, calm1, calm2),
                        ))
                  | inr (e, w2, front, rest, run2, split, wire2) ↦
                      rw (run1, run2)
                        (inr (
                          e,
                          w2,
                          put_word 8 (length str) ++ front,
                          rest,
                          refl,
                          ap (λ b. put_word 8 (length str) ++ b) split
                              ∙ sym (append_assoc (put_word 8 (length str)) front rest),
                          wire2
                              ∙ ap (λ b. b ++ front) wire1
                              ∙ append_assoc (wire w) (put_word 8 (length str)) front,
                        ))
                ]
          | inr (e, w1, front, rest, run1, split, wire1) ↦ rw run1 (
              inr (
                e,
                w1,
                front,
                rest ++ str,
                refl,
                ap (λ b. b ++ str) split ∙ append_assoc front rest str,
                wire1,
              ))
        ]
