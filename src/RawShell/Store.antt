-- ===== src/RawShell/Store.antt =====
-- What a `raw_shell` of src/raw_shell.h writes to a sector, and what it reads back.
use coursework_file_system.Prelude.{
  ℕ, zero, suc, ◌+◌, ◌-◌, ◌*◌, ◌%◌, ◌^◌, ◌≤◌, ◌<◌, ◌≡◌, ◌≢◌, ◌⊎◌, inl, inr, refl, sym, ap, ◌∙◌,
  true, false, ◌&&◌, some, [], ◌∷◌, ◌++◌, ◌==◌, if◌then◌else◌, ltb, take, replicate, length,
  length-replicate, length-append, Bool-cases, ==_iff, ==_self, ==_ne, ==_iff, ==_self, ==_ne,
  length-take, arith, lt→ltb, leb-true,
}
use coursework_file_system.Bytes.{Bytes}
use coursework_file_system.Run.{ErrorCode, done}
use coursework_file_system.Memory.{
  overwrite, splice, memcpy, read_range, length-splice, slice-splice_at,
}
use coursework_file_system.RamDisk.Refine.{sector_end}
use coursework_file_system.Disk.{Disk, sectors, update, read_sector, write_sector}
use coursework_file_system.RawShell.{
  RawShell, read_at, write_at, styled_yes, is_inside, sector_addr, read_inside, write_inside,
  reported, execute,
}

-- The members fit the disk, whose size does not overflow and whose sectors have their size.
pub record Ready (r : RawShell) : Type 0 where
  pub cylinders : r.cylinders ≡ r.disk.description.cylinders
  pub sectors_per_cylinder : r.sectors_per_cylinder ≡ r.disk.description.sectors_per_cylinder
  pub bytes_per_sector : r.bytes_per_sector ≡ r.disk.description.bytes_per_sector
  pub room : length r.buf ≡ r.bytes_per_sector + 1
  pub size : r.cylinders * r.sectors_per_cylinder < 2 ^ 64
  pub sized :
      (a : ℕ)
      → a < r.cylinders * r.sectors_per_cylinder
      → length (r.disk.sector a) ≡ r.bytes_per_sector

-- A text in a sector: cut off at its end, or followed by zeros.
abbrev pub padded : ℕ → Bytes → Bytes
padded n data_ = take n data_ ++ replicate (n - length data_) 0

take-replicate : (n : ℕ) → take {A = ℕ} n (replicate (suc n) 0) ≡ replicate n 0
take-replicate zero = refl
take-replicate (suc n) = ap (λ l. 0 ∷ l) (take-replicate n)

take-overwrite :
    (n : ℕ) (data_ : Bytes)
    → take n (overwrite (replicate (suc n) 0) (take n data_)) ≡ padded n data_
take-overwrite zero data_ =
    let e : 0 - length data_ ≡ 0 = omega arith in ap (λ k. replicate k 0) (sym e)
take-overwrite (suc n) [] =
    let e : suc n - 0 ≡ suc n = omega arith in
    ap (λ l. 0 ∷ l) (take-replicate n) ∙ ap (λ k. replicate k 0) (sym e)
take-overwrite (suc n) (c ∷ data_) =
    let e : suc n - suc (length data_) ≡ n - length data_ = omega arith in
    ap (λ l. c ∷ l) (take-overwrite n data_ ∙ ap (λ k. take n data_ ++ replicate k 0) (sym e))

take-padded :
    (n : ℕ) (data_ : Bytes)
    → take n (splice (replicate (n + 1) 0) 0 (take n data_)) ≡ padded n data_
take-padded n data_ =
    let e : n + 1 ≡ suc n = omega arith in
    ap (λ k. take n (overwrite (replicate k 0) (take n data_))) e ∙ take-overwrite n data_

length-padded : (n : ℕ) (data_ : Bytes) → length (padded n data_) ≡ n
length-padded n data_ =
    let size : length {A = ℕ} (replicate (n - length data_) 0) ≡ n - length data_ =
      length-replicate (n - length data_) 0 in
    omega (
      arith,
      length-append (take n data_) (replicate (n - length data_) 0),
      length-take n data_,
      size,
    )

write_sector_front :
    (d : Disk) (a : ℕ) (buf bytes : Bytes)
    → ltb a (sectors d.description) ≡ true
    → d.description.bytes_per_sector ≤ length buf
    → take d.description.bytes_per_sector buf ≡ bytes
    → write_sector a buf d ≡ done tt (record d { sector = update d.sector a bytes })
unfolding write_sector
write_sector_front d a buf bytes valid room e =
    rw (valid, leb-true d.description.bytes_per_sector (length buf) room, e) refl

read_sector_valid :
    (d : Disk) (a : ℕ)
    → ltb a (sectors d.description) ≡ true
    → read_sector a d ≡ done (d.sector a) d
unfolding read_sector
read_sector_valid d a h = rw h refl

memcpy_front :
    (buf bytes : Bytes) → length bytes ≤ length buf → memcpy buf 0 bytes ≡ some (splice buf 0 bytes)
unfolding memcpy
memcpy_front buf bytes h = rw (leb-true (0 + length bytes) (length buf) (omega (arith, h))) refl

-- The bytes are at the front of a buffer that has room for one more.
read_range_front :
    (buf bytes : Bytes) (n : ℕ)
    → length bytes ≡ n
    → length buf ≡ n + 1
    → read_range (splice buf 0 bytes) 0 n ≡ some bytes
unfolding read_range
read_range_front buf bytes n e room =
    rw
      (leb-true (0 + n) (length (splice buf 0 bytes))
        (omega (arith, room, length-splice buf 0 bytes)))
      (ap some (slice-splice_at buf 0 bytes n e (omega (arith, room))))

-- A shell whose sector holds `bytes` reads them.
shown_sector : RawShell → Bytes → RawShell
shown_sector r bytes = record r {
  buf = splice r.buf 0 bytes;
  output = r.output ++ ((styled_yes ++ (32 ∷ bytes)) ++ (10 ∷ []));
}

module _ (r : RawShell) (ready : Ready r) (c s : ℕ) (c_lt : c < r.cylinders)
    (s_lt : s < r.sectors_per_cylinder) where
  sector_addr_lem : sector_addr r c s ≡ c * r.sectors_per_cylinder + s
  sector_addr_lem =
      omega (arith, sector_end c r.cylinders r.sectors_per_cylinder c_lt, ready.size, s_lt)

  below_size : c * r.sectors_per_cylinder + s < r.cylinders * r.sectors_per_cylinder
  below_size = omega (arith, sector_end c r.cylinders r.sectors_per_cylinder c_lt, s_lt)

  sectors-Ready : sectors r.disk.description ≡ r.cylinders * r.sectors_per_cylinder
  sectors-Ready =
      ap (λ k. k % 2 ^ 64)
        (sym (
          ap (λ k. k * r.sectors_per_cylinder) ready.cylinders
          ∙ ap (λ k. r.disk.description.cylinders * k) ready.sectors_per_cylinder))
      ∙ omega (arith, ready.size)

  on_disk : ltb (sector_addr r c s) (sectors r.disk.description) ≡ true
  on_disk =
      lt→ltb (sector_addr r c s) (sectors r.disk.description)
        (omega (arith, sector_addr_lem, below_size, sectors-Ready))

  inside : is_inside r c s ≡ true
  inside = rw (lt→ltb c r.cylinders c_lt, lt→ltb s r.sectors_per_cylinder s_lt) refl

  read_inside-done :
      read_inside c s r ≡ done tt (shown_sector r (r.disk.sector (c * r.sectors_per_cylinder + s)))
  unfolding read_inside shown_sector
  read_inside-done =
      let size = ready.sized (c * r.sectors_per_cylinder + s) below_size in
      rw
        (
          read_inside,
          read_sector_valid r.disk (sector_addr r c s) on_disk,
          sector_addr_lem,
          memcpy_front r.buf (r.disk.sector (c * r.sectors_per_cylinder + s))
              (omega (arith, size, ready.room)),
          read_range_front r.buf (r.disk.sector (c * r.sectors_per_cylinder + s)) r.bytes_per_sector
              size ready.room,
        )
        refl

  module _ (digits : ℕ → Bytes) (shown : ErrorCode → Bytes) where
    execute-read_at :
        execute digits shown (read_at c s) r
        ≡ done tt (shown_sector r (r.disk.sector (c * r.sectors_per_cylinder + s)))
    unfolding execute shown_sector reported
    execute-read_at = rw (inside, read_inside-done) refl

-- The shell behind a write, and its disk.
abbrev pub stored_sector : RawShell → ℕ → Bytes → RawShell
stored_sector r a data_ =
    let d = r.disk in
    record r {
      disk = record d { sector = update d.sector a (padded r.bytes_per_sector data_) };
      buf = splice (replicate (r.bytes_per_sector + 1) 0) 0 (take r.bytes_per_sector data_);
      output = r.output ++ (styled_yes ++ (10 ∷ []));
    }

module _ (r : RawShell) (ready : Ready r) (c s : ℕ) (c_lt : c < r.cylinders)
    (s_lt : s < r.sectors_per_cylinder) where
  write_inside-done :
      (data_ : Bytes)
      → write_inside c s data_ r ≡ done tt (stored_sector r (c * r.sectors_per_cylinder + s) data_)
  unfolding write_inside
  write_inside-done data_ =
      let buf : Bytes = replicate (r.bytes_per_sector + 1) 0 in
      let front = take r.bytes_per_sector data_ in
      let size : length buf ≡ r.bytes_per_sector + 1 =
        length-replicate (r.bytes_per_sector + 1) 0 in
      rw
        (
          write_inside,
          memcpy_front buf front (omega (arith, size, length-take r.bytes_per_sector data_)),
          write_sector_front r.disk (sector_addr r c s) (splice buf 0 front)
              (padded r.bytes_per_sector data_) (on_disk r ready c s c_lt s_lt)
              (omega (arith, ready.bytes_per_sector, size, length-splice buf 0 front))
              (ap (λ k. take k (splice buf 0 front)) (sym ready.bytes_per_sector)
                ∙ take-padded r.bytes_per_sector data_),
          sector_addr_lem r ready c s c_lt s_lt,
        )
        refl

  Ready-stored_sector :
      (data_ : Bytes) → Ready (stored_sector r (c * r.sectors_per_cylinder + s) data_)
  Ready-stored_sector data_ = record {
    cylinders = ready.cylinders;
    sectors_per_cylinder = ready.sectors_per_cylinder;
    bytes_per_sector = ready.bytes_per_sector;
    room =
        length-splice (replicate (r.bytes_per_sector + 1) 0) 0 (take r.bytes_per_sector data_)
        ∙ length-replicate (r.bytes_per_sector + 1) 0;
    size = ready.size;
    sized = λ a h. elim (Bool-cases (a == c * r.sectors_per_cylinder + s)) [
      | inl e ↦ rw e (length-padded r.bytes_per_sector data_)
      | inr e ↦ rw e (ready.sized a h)
    ];
  }

-- Two sectors have one address exactly if they are the same.
same_sector :
    (n c s c' s' : ℕ) → s < n → s' < n → ((c' * n + s') == (c * n + s)) ≡ (c' == c && s' == s)
same_sector n c s c' s' lt lt' = elim (Bool-cases (c' == c)) [
  | inl e ↦
      let same = (==_iff c' c).0 e in
      rw same (elim (Bool-cases (s' == s)) [
        | inl f ↦ rw (==_self c, f, (==_iff s' s).0 f) (==_self (c * n + s))
        | inr f ↦
            rw (==_self c, f)
              (==_ne (c * n + s') (c * n + s) (λ g. differ s' s f (omega (arith, g))))
      ])
  | inr e ↦ rw e (
      ==_ne (c' * n + s') (c * n + s) (λ g. elim (order c' c (differ c' c e)) [
        | inl less ↦ omega (arith, g, sector_end c' c n less, lt')
        | inr more ↦ omega (arith, g, sector_end c c' n more, lt)
      ]))
]
  where
    differ : (a b : ℕ) → (a == b) ≡ false → a ≢ b
    differ a b e same = ground (arith, e, same)

    order : (a b : ℕ) → a ≢ b → (a < b) ⊎ (b < a)
    order a b h = omega (arith, h)

module _ (r : RawShell) (ready : Ready r) (c s : ℕ) (c_lt : c < r.cylinders)
    (s_lt : s < r.sectors_per_cylinder) (digits : ℕ → Bytes) (shown : ErrorCode → Bytes) where
  -- "W" to a sector of the disk prints "Yes". "R" of that sector then prints the text, cut off at the
  -- sector's end or followed by zeros, and "R" of any other sector of the disk what it held before.
  pub execute-write_at :
      (data_ : Bytes)
      → (r1 : RawShell) × (execute digits shown (write_at c s data_) r ≡ done tt r1)
        × (r1.output ≡ r.output ++ (styled_yes ++ (10 ∷ [])))
        × ((c' s' : ℕ)
            → c' < r.cylinders
            → s' < r.sectors_per_cylinder
            → (r2 : RawShell) × (execute digits shown (read_at c' s') r1 ≡ done tt r2)
              × (r2.output
                  ≡ r1.output
                    ++ ((styled_yes
                          ++ (32
                              ∷ (if c' == c && s' == s
                                  then padded r.bytes_per_sector data_
                                  else r.disk.sector (c' * r.sectors_per_cylinder + s'))))
                        ++ (10 ∷ []))))
  unfolding execute reported shown_sector
  execute-write_at data_ =
      let r1 = stored_sector r (c * r.sectors_per_cylinder + s) data_ in
      (
        r1,
        rw (inside r ready c s c_lt s_lt, write_inside-done r ready c s c_lt s_lt data_) refl,
        refl,
        λ c' s' c_lt' s_lt'. (
          shown_sector r1 (r1.disk.sector (c' * r.sectors_per_cylinder + s')),
          execute-read_at r1 (Ready-stored_sector r ready c s c_lt s_lt data_) c' s' c_lt' s_lt'
              digits shown,
          rw (same_sector r.sectors_per_cylinder c s c' s' s_lt s_lt') refl,
        ),
      )
