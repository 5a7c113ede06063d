-- ===== src/Socket.antt =====
-- `socket_handle` of src/utils/socket.h: the loops that send and receive, and the framing of
-- numbers and strings. The system calls `send` and `recv` are parameters on the state `W` of the
-- network; a `ssize_t` result is a count or an error, as `errno` tells them apart. The loops run on
-- fuel; without fuel left they count as never ending.
pub mod Send
pub mod Receive
pub mod Handle
use coursework_file_system.Prelude.{
  ℕ, zero, suc, ◌+◌, ◌-◌, ◌^◌, ◌%◌, Bool, true, false, List, [], ◌∷◌, ◌++◌, length, drop, ltb,
}
use coursework_file_system.Bytes.{Bytes, put_word, get_word}
use coursework_file_system.Run.{
  ErrorCode, Run, done, thrown, undefined, Cmd, pure, ◌>>=◌, ◌>>◌, socket_closed_by_remote,
  socket_terminated, socket_send_fail, socket_recv_fail,
}

-- The values of `errno` that the code tells apart.
pub data Errno : Type 0 where
  eintr epipe ebadf einval enotsock eagain other_errno : Errno

-- What `::send` returns.
pub data Sent : Type 0 where
  sent : ℕ → Sent
  not_sent : Errno → Sent

-- What `::recv` returns, with the bytes that it stores; none at the end of the stream.
pub data Received : Type 0 where
  received : Bytes → Received
  not_received : Errno → Received

abbrev pub interrupted : Errno → Bool
interrupted eintr = true
interrupted _ = false

abbrev pub send_error : Errno → ErrorCode
send_error epipe = socket_closed_by_remote
send_error ebadf = socket_terminated
send_error einval = socket_terminated
send_error enotsock = socket_terminated
send_error _ = socket_send_fail

abbrev pub recv_error : Errno → ErrorCode
recv_error ebadf = socket_terminated
recv_error einval = socket_terminated
recv_error enotsock = socket_terminated
recv_error _ = socket_recv_fail

-- A string behind its length, a `size_t`.
abbrev pub framed : Bytes → Bytes
framed s = put_word 8 (length s) ++ s

module _ {W : Type 0} (send_call : ℕ → Bytes → W → Sent × W) where
  -- The loop of `send_raw`, with `total_sent`.
  unfoldable pub send_from : ℕ → ℕ → Bytes → ℕ → Cmd W (Unit {0})
  send_from zero fd buf total w = undefined
  send_from (suc fuel) fd buf total w = elim (ltb total (length buf)) [
    | false ↦ done tt w
    | true ↦
        let (result, w') = send_call fd (drop total buf) w in
        elim result [
          | sent n ↦ send_from fuel fd buf (total + n) w'
          | not_sent e ↦ elim (interrupted e) [
            | true ↦ send_from fuel fd buf total w'
            | false ↦ thrown (send_error e) w'
          ]
        ]
  ]

  abbrev pub send_raw : ℕ → ℕ → Bytes → Cmd W (Unit {0})
  send_raw fuel fd buf = send_from fuel fd buf 0

  -- `send` of a number of `width` bytes.
  abbrev pub send_word : ℕ → ℕ → ℕ → ℕ → Cmd W (Unit {0})
  send_word fuel fd width n = send_raw fuel fd (put_word width n)

  unfoldable pub send_str : ℕ → ℕ → Bytes → Cmd W (Unit {0})
  send_str fuel fd str = do send_word fuel fd 8 (length str); send_raw fuel fd str

module _ {W : Type 0} (recv_call : ℕ → ℕ → W → Received × W) where
  -- The loop of `recv_raw`, with what it has stored so far.
  unfoldable pub recv_from : ℕ → ℕ → ℕ → Bytes → Cmd W Bytes
  recv_from zero fd len stored w = undefined
  recv_from (suc fuel) fd len stored w = elim (ltb (length stored) len) [
    | false ↦ done stored w
    | true ↦
        let (result, w') = recv_call fd (len - length stored) w in
        elim result [
          | received bytes ↦ elim bytes [
            | [] ↦ thrown socket_closed_by_remote w'
            | b ∷ bs ↦ recv_from fuel fd len (stored ++ (b ∷ bs)) w'
          ]
          | not_received e ↦ elim (interrupted e) [
            | true ↦ recv_from fuel fd len stored w'
            | false ↦ thrown (recv_error e) w'
          ]
        ]
  ]

  abbrev pub recv_raw : ℕ → ℕ → ℕ → Cmd W Bytes
  recv_raw fuel fd len = recv_from fuel fd len []

  -- `recv` of a number of `width` bytes.
  abbrev pub recv_word : ℕ → ℕ → ℕ → Cmd W ℕ
  recv_word fuel fd width = do bytes ← recv_raw fuel fd width; pure (get_word width bytes).0

  unfoldable pub recv_str : ℕ → ℕ → Cmd W Bytes
  recv_str fuel fd = do len ← recv_word fuel fd 8; recv_raw fuel fd len
