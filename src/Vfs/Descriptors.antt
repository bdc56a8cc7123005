-- ===== src/Vfs/Descriptors.antt =====
-- The table of file descriptors of src/fs/file.c: the slot that is taken, and the descriptor's way
-- from fopen through file_get_descriptor to fclose.
use slob_os.Prelude.{
  ℕ, zero, suc, ◌+◌, ◌-◌, ◌<◌, ◌≡◌, ◌≢◌, ◌⊎◌, inl, inr, refl, sym, ap, ◌∙◌, false, leb, ◌==◌, arith,
  Option, none, some, List, [], ◌∷◌, set, get_elem?, get_or, eq_cases, some_inj,
}
use mathlib.Core.Path.{subst}
use slob_os.Prelude.Int.{pos}
use slob_os.Status.{enomem, ok, err}
use slob_os.Vfs.{
  max_file_descriptors, Filesystem, FileDescriptor, FileMode, Files, first_free,
  file_new_descriptor, file_get_descriptor, file_free_descriptor, open_file, fclose, after_close,
}

module _ {A : Type 0} where
  -- Slot `j` is the first free one.
  pub record IsFirstFree (slots : List (Option A)) (j : ℕ) : Type 0 where
    pub free : get_elem? slots j ≡ some none
    pub taken : (k : ℕ) → k < j → get_elem? slots k ≢ some none

  no_free_cons :
      (a : A) (slots : List (Option A))
      → ((k : ℕ) → get_elem? slots k ≢ some none)
      → (k : ℕ) → get_elem? (some a ∷ slots) k ≢ some none
  no_free_cons a slots full zero e = absurd cc
  no_free_cons a slots full (suc k) e = full k e

  IsFirstFree-cons :
      (a : A) (slots : List (Option A)) (j : ℕ)
      → IsFirstFree slots j
      → IsFirstFree (some a ∷ slots) (suc j)
  IsFirstFree-cons a slots j first = record { free = first.free; taken = taken }
    where
      taken : (k : ℕ) → k < suc j → get_elem? (some a ∷ slots) k ≢ some none
      taken zero lt e = absurd cc
      taken (suc k) lt e = first.taken k (omega arith) e

  -- The loop finds the first free slot, and nothing only in a full table.
  pub first_free_lem :
      (slots : List (Option A)) (i : ℕ)
      → (((k : ℕ) → get_elem? slots k ≢ some none) × (first_free slots i ≡ none))
        ⊎ ((j : ℕ) × (IsFirstFree slots j × (first_free slots i ≡ some (i + j))))
  unfolding first_free
  first_free_lem [] i = inl ((λ k e. absurd cc), refl)
  first_free_lem (none ∷ slots) i =
      inr (0, (record { free = refl; taken = λ k lt. absurd (omega arith) }, ap some (omega arith)))
  first_free_lem (some a ∷ slots) i = elim (first_free_lem slots (i + 1)) [
    | inl (full, e) ↦ inl (no_free_cons a slots full, e)
    | inr (j, (first, e)) ↦
        inr (suc j, (IsFirstFree-cons a slots j first, e ∙ ap some (omega arith)))
  ]

  set_back :
      (slots : List (Option A)) (j : ℕ) (v : Option A)
      → get_elem? slots j ≡ some none
      → set (set slots j v) j none ≡ slots
  set_back [] j v free = refl
  set_back (x ∷ slots) zero v free = ap (λ y. y ∷ slots) (sym (some_inj free))
  set_back (x ∷ slots) (suc j) v free = ap (λ ys. x ∷ ys) (set_back slots j v free)

  get_or-set_self :
      (slots : List (Option A)) (j : ℕ) (v d : Option A)
      → get_elem? slots j ≡ some none
      → get_or (set slots j v) j d ≡ v
  get_or-set_self [] j v d free = absurd cc
  get_or-set_self (x ∷ slots) zero v d free = refl
  get_or-set_self (x ∷ slots) (suc j) v d free = get_or-set_self slots j v d free

  get_or-set_ne :
      (slots : List (Option A)) (j k : ℕ) (v d : Option A)
      → j ≢ k
      → get_or (set slots j v) k d ≡ get_or slots k d
  get_or-set_ne [] j k v d ne = refl
  get_or-set_ne (x ∷ slots) zero zero v d ne = absurd (ne refl)
  get_or-set_ne (x ∷ slots) zero (suc k) v d ne = refl
  get_or-set_ne (x ∷ slots) (suc j) zero v d ne = refl
  get_or-set_ne (x ∷ slots) (suc j) (suc k) v d ne =
      get_or-set_ne slots j k v d (λ e. ne (ap suc e))

module _ {S P : Type 0} where
  -- The descriptor that open_file puts into slot `j`.
  abbrev pub opened : Filesystem S P → ℕ → P → ℕ → FileDescriptor S P
  opened fs disk private j = record {
    index = j + 1;
    filesystem = fs;
    private = private;
    disk = disk;
  }

  -- What file_new_descriptor does: in a full table it gives ENOMEM; else it fills the first free
  -- slot, and the descriptor's number is one more than the slot's.
  pub file_new_descriptor_lem :
      (make : ℕ → FileDescriptor S P) (slots : List (Option (FileDescriptor S P)))
      → (((k : ℕ) → get_elem? slots k ≢ some none) × (file_new_descriptor make slots ≡ err enomem))
        ⊎ ((j : ℕ) × (IsFirstFree slots j
              × (file_new_descriptor make slots ≡ ok (set slots j (some (make (j + 1))), j + 1))))
  unfolding file_new_descriptor
  file_new_descriptor_lem make slots = elim (first_free_lem slots 0) [
    | inl (full, e) ↦ inl (full, rw (e, file_new_descriptor) refl)
    | inr (j, (first, e)) ↦
        let start : 0 + j ≡ j = omega arith in
        inr (j, (first, rw (e, start, file_new_descriptor) refl))
  ]

  first_unique :
      (slots : List (Option (FileDescriptor S P))) (i j : ℕ)
      → IsFirstFree slots i
      → IsFirstFree slots j
      → i ≡ j
  first_unique slots i j first second = elim (eq_cases i j) [
    | inl e ↦ e
    | inr (inl lt) ↦ absurd (second.taken i lt first.free)
    | inr (inr gt) ↦ absurd (first.taken j gt second.free)
  ]

  new_descriptor-first :
      (slots : List (Option (FileDescriptor S P))) (make : ℕ → FileDescriptor S P) (j : ℕ)
      → IsFirstFree slots j
      → file_new_descriptor make slots ≡ ok (set slots j (some (make (j + 1))), j + 1)
  new_descriptor-first slots make j first = elim (file_new_descriptor_lem make slots) [
    | inl (full, e) ↦ absurd (full j first.free)
    | inr (i, (other, e)) ↦
        subst (λ k. file_new_descriptor make slots ≡ ok (set slots k (some (make (k + 1))), k + 1))
          (first_unique slots i j other first) e
  ]

  open_file-first :
      (fs : Filesystem S P) (disk : ℕ) (path : List (List ℕ)) (mode : FileMode) (files : Files S P)
      (s : S) (private : P) (j : ℕ)
      → fs.fs_open files.machine disk path mode ≡ (s, ok private)
      → IsFirstFree files.file_descriptors j
      → open_file fs disk path mode files ≡ (
        record {
          file_descriptors = set files.file_descriptors j (some (opened fs disk private j));
          machine = s;
        },
        ok (j + 1),
      )
  unfolding open_file
  open_file-first fs disk path mode files s private j e first =
      rw
        (
          e,
          new_descriptor-first files.file_descriptors
              (λ i. record { index = i; filesystem = fs; private = private; disk = disk }) j first,
          open_file,
        )
        (ap
          (λ t. (
            record {
              file_descriptors = set files.file_descriptors j (some (opened fs disk private j));
              machine = t.0;
            },
            ok (j + 1),
          ))
          e)

  get_descriptor-set_self :
      (slots : List (Option (FileDescriptor S P))) (j : ℕ) (desc : FileDescriptor S P)
      → get_elem? slots j ≡ some none
      → j + 1 < max_file_descriptors
      → file_get_descriptor (set slots j (some desc)) (pos (j + 1)) ≡ some desc
  unfolding file_get_descriptor
  get_descriptor-set_self slots j desc free small =
      let index : j + 1 - 1 ≡ j = omega arith in
      let not_0 : (j + 1 == 0) ≡ false = ground arith in
      let not_last : leb 512 (j + 1) ≡ false = ground arith in
      rw (not_0, not_last, index) (get_or-set_self slots j (some desc) none free)

  get_descriptor-set_ne :
      (slots : List (Option (FileDescriptor S P))) (j k : ℕ) (desc : FileDescriptor S P)
      → k ≢ j + 1
      → file_get_descriptor (set slots j (some desc)) (pos k) ≡ file_get_descriptor slots (pos k)
  unfolding file_get_descriptor
  get_descriptor-set_ne slots j zero desc ne = refl
  get_descriptor-set_ne slots j (suc k) desc ne =
      let index : suc k - 1 ≡ k = omega arith in
      let other : j ≢ k = λ e. absurd (omega arith) in
      rw (index, get_or-set_ne slots j k (some desc) none other) refl

  -- Once a file is open under a number below SLOBOS_MAX_FILE_DESCRIPTORS, that number finds the new
  -- descriptor, and every other number finds what it found before.
  pub file_get_descriptor-open_file :
      (fs : Filesystem S P) (disk : ℕ) (path : List (List ℕ)) (mode : FileMode) (files : Files S P)
      (s : S) (private : P) (j k : ℕ)
      → fs.fs_open files.machine disk path mode ≡ (s, ok private)
      → IsFirstFree files.file_descriptors j
      → j + 1 < max_file_descriptors
      → (file_get_descriptor (open_file fs disk path mode files).0.file_descriptors (pos (j + 1))
          ≡ some (opened fs disk private j))
        × ((k ≡ j + 1)
            ⊎ (file_get_descriptor (open_file fs disk path mode files).0.file_descriptors (pos k)
                ≡ file_get_descriptor files.file_descriptors (pos k)))
  file_get_descriptor-open_file fs disk path mode files s private j k e first small =
      rw (open_file-first fs disk path mode files s private j e first) (
        get_descriptor-set_self files.file_descriptors j (opened fs disk private j) first.free
            small,
        elim (eq_cases k (j + 1)) [
          | inl same ↦ inl same
          | inr other ↦ inr (
              get_descriptor-set_ne files.file_descriptors j k (opened fs disk private j)
                (λ same. ground arith))
        ],
      )

  fclose-set :
      (slots : List (Option (FileDescriptor S P))) (j : ℕ) (fs : Filesystem S P) (disk : ℕ)
      (private : P) (s t : S)
      → fs.fs_close s private ≡ (t, ok tt)
      → get_elem? slots j ≡ some none
      → j + 1 < max_file_descriptors
      → fclose
          (pos (j + 1))
          (record { file_descriptors = set slots j (some (opened fs disk private j)); machine = s })
        ≡ (record { file_descriptors = slots; machine = t }, ok tt)
  unfolding fclose after_close file_free_descriptor
  fclose-set slots j fs disk private s t closed free small =
      let index : j + 1 - 1 ≡ j = omega arith in
      rw (get_descriptor-set_self slots j (opened fs disk private j) free small, fclose)
        (rw (closed, index, set_back slots j (some (opened fs disk private j)) free)
          (ap (λ x. (record { file_descriptors = slots; machine = x.0 }, ok tt)) closed))

  -- Opening a file and closing it again leaves the table of descriptors as it was, when the driver
  -- opens and closes the file and the number is below SLOBOS_MAX_FILE_DESCRIPTORS.
  pub fclose-open_file :
      (fs : Filesystem S P) (disk : ℕ) (path : List (List ℕ)) (mode : FileMode) (files : Files S P)
      (s t : S) (private : P) (j : ℕ)
      → fs.fs_open files.machine disk path mode ≡ (s, ok private)
      → fs.fs_close s private ≡ (t, ok tt)
      → IsFirstFree files.file_descriptors j
      → j + 1 < max_file_descriptors
      → fclose (pos (j + 1)) (open_file fs disk path mode files).0
        ≡ (record files { machine = t }, ok tt)
  fclose-open_file fs disk path mode files s t private j e closed first small =
      rw (open_file-first fs disk path mode files s private j e first)
        (fclose-set files.file_descriptors j fs disk private s t closed first.free small)

  -- The last slot, 511, is handed out as number 512, which no call then accepts.
  pub fopen_last :
      (slots : List (Option (FileDescriptor S P))) (make : ℕ → FileDescriptor S P)
      → IsFirstFree slots 511
      → (file_new_descriptor make slots ≡ ok (set slots 511 (some (make 512)), 512))
        × (file_get_descriptor (set slots 511 (some (make 512))) (pos 512) ≡ none)
  unfolding file_get_descriptor
  fopen_last slots make first = (new_descriptor-first slots make 511 first, refl)
