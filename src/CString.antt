-- ===== src/CString.antt =====
-- C strings in `char` arrays: what `strcmp`, `strlen` and `strcpy` see and write.
pub mod Laws
use coursework_file_system.Prelude.{
  ℕ, suc, ◌+◌, Bool, true, false, ◌&&◌, Option, none, some, [], ◌∷◌, ◌++◌, length, leb, ◌==◌,
  if◌then◌else◌,
}
use coursework_file_system.Bytes.{Bytes}
use coursework_file_system.Memory.{memcpy}

-- The characters in front of the first NUL.
unfoldable pub c_str : Bytes → Bytes
c_str [] = []
c_str (c ∷ s) = if c == 0 then [] else c ∷ c_str s

-- `strcmp(s, t) == 0`, and `==` of `std::string`.
unfoldable pub same_text : Bytes → Bytes → Bool
same_text [] [] = true
same_text [] (d ∷ t) = false
same_text (c ∷ s) [] = false
same_text (c ∷ s) (d ∷ t) = c == d && same_text s t

-- `name.find(c) != npos`
unfoldable pub has_char : ℕ → Bytes → Bool
has_char c [] = false
has_char c (d ∷ s) = if d == c then true else has_char c s

-- `strcpy(buf, s)`: the characters and the NUL; past the end of `buf` it is undefined.
unfoldable pub strcpy : Bytes → Bytes → Option Bytes
unfolding memcpy
strcpy buf s = memcpy buf 0 (s ++ (0 ∷ []))
