-- ===== src/Tests/SocketWitness.antt =====
-- The theorems on src/utils/socket.h, with a system that is interrupted once and then takes or
-- brings one byte in each call.
use coursework_file_system.Prelude.{
  ℕ, zero, suc, ◌<◌, ◌≤◌, ◌≡◌, ◌⊎◌, inl, refl, ap, subst, true, [], ◌∷◌, ◌++◌, length, take, arith,
}
use coursework_file_system.Bytes.{Bytes}
use coursework_file_system.Socket.{
  Sent, sent, not_sent, Received, received, not_received, Errno, eintr, interrupted, framed,
  send_str, recv_str,
}
use coursework_file_system.Run.{ErrorCode, done, thrown}
use coursework_file_system.Socket.Send
use coursework_file_system.Socket.Send.{Sends, send_raw-ends, send_str-ends}
use coursework_file_system.Socket.Receive.{Receives, recv_str-framed}

-- The bytes on the wire, and the interruptions to come.
abbrev World : Type 0
World = Bytes × ℕ

abbrev slow_send : ℕ → Bytes → World → Sent × World
slow_send fd buf (wire, suc k) = (not_sent eintr, (wire, k))
slow_send fd [] (wire, zero) = (sent 0, (wire, 0))
slow_send fd (b ∷ bs) (wire, zero) = (sent 1, (wire ++ (b ∷ []), 0))

abbrev slow_recv : ℕ → ℕ → World → Received × World
slow_recv fd asked (stream, suc k) = (not_received eintr, (stream, k))
slow_recv fd zero (stream, zero) = (received [], (stream, 0))
slow_recv fd (suc asked) ([], zero) = (received [], ([], 0))
slow_recv fd (suc asked) (b ∷ stream, zero) = (received (b ∷ []), (stream, 0))

abbrev count_of : Sent → ℕ
count_of (sent n) = n
count_of (not_sent e) = 0

abbrev bytes_of : Received → Bytes
bytes_of (received bytes) = bytes
bytes_of (not_received e) = []

abbrev wire : World → Bytes
wire w = w.0

abbrev patience : World → ℕ
patience w = w.1

slow_send-Sends : Sends slow_send wire patience
slow_send-Sends = record { counts = counts; fails = fails }
  where
    counts :
        (fd n : ℕ) (buf : Bytes) (w : World)
        → 0 < length buf
        → (slow_send fd buf w).0 ≡ sent n
        → (n ≤ length buf)
          × (wire (slow_send fd buf w).1 ≡ wire w ++ take n buf)
          × (patience (slow_send fd buf w).1 ≤ patience w)
          × ((0 < n) ⊎ (patience (slow_send fd buf w).1 < patience w))
    counts fd n buf (out, suc k) some_bytes h = cc
    counts fd n [] (out, zero) some_bytes h = absurd (omega (arith, some_bytes))
    counts fd n (b ∷ bs) (out, zero) some_bytes h =
        let one : 1 ≡ n = ap count_of h in
        (
          omega (arith, one),
          ap (λ m. out ++ take m (b ∷ bs)) one,
          omega arith,
          inl (omega (arith, one)),
        )

    fails :
        (fd : ℕ) (e : Errno) (buf : Bytes) (w : World)
        → (slow_send fd buf w).0 ≡ not_sent e
        → (wire (slow_send fd buf w).1 ≡ wire w)
          × (interrupted e ≡ true → patience (slow_send fd buf w).1 < patience w)
    fails fd e buf (out, suc k) h = (refl, λ again. omega arith)
    fails fd e [] (out, zero) h = cc
    fails fd e (b ∷ bs) (out, zero) h = cc

slow_recv-Receives : Receives slow_recv wire patience
slow_recv-Receives = record { stores = stores; fails = fails }
  where
    stores :
        (fd asked : ℕ) (bytes : Bytes) (w : World)
        → (slow_recv fd asked w).0 ≡ received bytes
        → (length bytes ≤ asked)
          × (wire w ≡ bytes ++ wire (slow_recv fd asked w).1)
          × (patience (slow_recv fd asked w).1 ≤ patience w)
    stores fd asked bytes (stream, suc k) h = cc
    stores fd zero bytes (stream, zero) h =
        subst (λ b. (length b ≤ 0) × (stream ≡ b ++ stream) × (0 ≤ 0)) (ap bytes_of h)
          (omega arith, refl, omega arith)
    stores fd (suc asked) bytes ([], zero) h =
        subst (λ b. (length b ≤ suc asked) × ([] ≡ b ++ []) × (0 ≤ 0)) (ap bytes_of h)
          (omega arith, refl, omega arith)
    stores fd (suc asked) bytes (b ∷ stream, zero) h =
        subst (λ r. (length r ≤ suc asked) × (b ∷ stream ≡ r ++ stream) × (0 ≤ 0)) (ap bytes_of h)
          (omega arith, refl, omega arith)

    fails :
        (fd asked : ℕ) (e : Errno) (w : World)
        → (slow_recv fd asked w).0 ≡ not_received e
        → (wire w ≡ wire (slow_recv fd asked w).1)
          × (interrupted e ≡ true → patience (slow_recv fd asked w).1 < patience w)
    fails fd asked e (stream, suc k) h = (refl, λ again. omega arith)
    fails fd zero e (stream, zero) h = cc
    fails fd (suc asked) e ([], zero) h = cc
    fails fd (suc asked) e (b ∷ stream, zero) h = cc

abbrev hey : Bytes
hey = b'h' ∷ b'e' ∷ b'y' ∷ []

send_str-ends_example :
    Send.Outcome slow_send wire patience slow_send-Sends 5
      (framed hey)
      ([], 1)
      (send_str slow_send 20 5 hey ([], 1))
send_str-ends_example =
    send_str-ends slow_send wire patience slow_send-Sends 5 20 hey ([], 1) (omega arith)

recv_str-framed_example :
    ((w' : World) × (recv_str slow_recv 20 5 (framed hey ++ (b'!' ∷ []), 1) ≡ done hey w')
      × (wire w' ≡ b'!' ∷ []))
    ⊎ ((e : ErrorCode) × (w' : World) × (recv_str slow_recv 20 5 (framed hey ++ (b'!' ∷ []), 1)
          ≡ thrown e w'))
recv_str-framed_example =
    recv_str-framed slow_recv wire patience slow_recv-Receives 5 20 hey (b'!' ∷ [])
      (framed hey ++ (b'!' ∷ []), 1) (omega arith) refl (omega arith)
