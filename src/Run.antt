-- ===== src/Run.antt =====
-- Outcomes of the C++ code. A member function is a function from the object's state to a `Run`:
-- it returns a value, it throws an `except` (src/utils/except.h), both with the state that it
-- leaves behind, or its behaviour is undefined (an access out of bounds, a loop that never ends).
-- `enum ERROR_CODE`.
pub data ErrorCode : Type 0 where
  socket_create_fail socket_connect_fail socket_send_fail socket_recv_fail : ErrorCode
  socket_closed_by_remote socket_terminated : ErrorCode
  pwd_init_fail pwd_compute_fail : ErrorCode
  disk_addr_invalid : ErrorCode
  virtual_drive_invalid_args virtual_drive_file_create virtual_drive_mmap : ErrorCode
  fs_busy_handle fs_capacity_exceeded fs_access_denied : ErrorCode
  fs_name_not_exist fs_name_already_exist fs_name_too_long fs_name_invalid : ErrorCode

pub data Run (S A : Type 0) : Type 0 where
  done : A → S → Run S A
  thrown : ErrorCode → S → Run S A
  undefined : Run S A

abbrev pub Cmd : Type 0 → Type 0 → Type 0
Cmd S A = S → Run S A

abbrev pub pure : {S A : Type 0} → A → Cmd S A
pure a s = done a s

abbrev pub throw : {S A : Type 0} → ErrorCode → Cmd S A
throw e s = thrown e s

abbrev pub fault : {S A : Type 0} → Cmd S A
fault s = undefined

module _ {S A B : Type 0} where
  abbrev pub and_then : Run S A → (A → Cmd S B) → Run S B
  and_then (done a s) k = k a s
  and_then (thrown e s) k = thrown e s
  and_then undefined k = undefined

  infixl 5 ◌>>=◌ ◌>>◌
  abbrev pub ◌>>=◌ : Cmd S A → (A → Cmd S B) → Cmd S B
  m >>= k = λ s. and_then (m s) k

  abbrev pub ◌>>◌ : Cmd S A → Cmd S B → Cmd S B
  m >> n = m >>= λ _. n

-- A function on a member object, lifted to the object that holds it.
abbrev pub within : {S T A : Type 0} → (S → T → S) → S → Run T A → Run S A
within put s (done a t) = done a (put s t)
within put s (thrown e t) = thrown e (put s t)
within put s undefined = undefined
