-- ===== src/Vfs.antt =====
-- The virtual file system of src/fs/file.c. A file system driver is a record of the functions that
-- it registers, over the states of the machine. Descriptors are kept in the table, where the source
-- keeps pointers to them; the allocation of one is taken to succeed, as the source does not test it.
pub mod Descriptors
mod Examples
use slob_os.Prelude.{
  ℕ, zero, suc, ◌+◌, ◌-◌, Bool, true, false, not, ◌&&◌, ◌||◌, Option, none, some, ltb, leb, ◌==◌,
  if◌then◌else◌, List, [], ◌∷◌, replicate, set, get_elem?, get_or,
}
use slob_os.Prelude.Memory.{Memory}
use slob_os.Prelude.Int.{ℤ, pos, negsuc}
use slob_os.Status.{Errno, eio, einvarg, enomem, Result, ok, err}
use slob_os.Text.{strncmp}
use slob_os.PathParser.{Chars, PathRoot, pathparser_parse}

-- SLOBOS_MAX_FILESYSTEMS
abbrev pub max_filesystems : ℕ
max_filesystems = 12

-- SLOBOS_MAX_FILE_DESCRIPTORS
abbrev pub max_file_descriptors : ℕ
max_file_descriptors = 512

pub data FileMode : Type 0 where
  file_mode_read file_mode_write file_mode_append file_mode_invalid : FileMode

pub record FileStat : Type 0 where
  pub flags : ℕ
  pub filesize : ℕ

-- `struct filesystem` over machine states `S` and private descriptor data `P`. A disk is its number.
-- `fs_read` gives the number of items that were read.
pub record Filesystem (S P : Type 0) : Type 0 where
  pub fs_resolve_disk : S → ℕ → S × Result (Unit {0})
  pub fs_open : S → ℕ → List Chars → FileMode → S × Result P
  pub fs_read : S → ℕ → P → (size nmemb out : ℕ) → S × Result ℕ
  pub fs_seek : S → P → (offset whence : ℕ) → S × Result (Unit {0})
  pub fs_stat : S → ℕ → P → Result FileStat
  pub fs_close : S → P → S × Result (Unit {0})

module _ {A : Type 0} where
  -- The loop of fs_get_free_filesystem, and of file_new_descriptor, from slot `i` on.
  pub first_free : List (Option A) → ℕ → Option ℕ
  first_free [] i = none
  first_free (none ∷ slots) i = some i
  first_free (some a ∷ slots) i = first_free slots (i + 1)

module _ {S P : Type 0} where
  pub fs_get_free_filesystem : List (Option (Filesystem S P)) → Option ℕ
  unfolding first_free
  fs_get_free_filesystem filesystems = first_free filesystems 0

  -- `none` where the source loops for ever.
  pub fs_insert_filesystem :
      List (Option (Filesystem S P)) → Filesystem S P → Option (List (Option (Filesystem S P)))
  unfolding fs_get_free_filesystem
  fs_insert_filesystem filesystems filesystem = elim (fs_get_free_filesystem filesystems) [
    | none ↦ none
    | some i ↦ some (set filesystems i (some filesystem))
  ]

  -- The first file system that can read the disk; the others may have changed the state.
  pub resolve_loop : S → ℕ → List (Option (Filesystem S P)) → S × Option (Filesystem S P)
  resolve_loop s disk [] = (s, none)
  resolve_loop s disk (none ∷ rest) = resolve_loop s disk rest
  resolve_loop s disk (some fs ∷ rest) =
      let (s', res) = fs.fs_resolve_disk s disk in
      let later = resolve_loop s' disk rest in elim res [ ok u ↦ (s', some fs) | err e ↦ later ]

  pub fs_resolve : S → ℕ → List (Option (Filesystem S P)) → S × Option (Filesystem S P)
  unfolding resolve_loop
  fs_resolve s disk filesystems = resolve_loop s disk filesystems

-- `struct file_descriptor`
pub record FileDescriptor (S P : Type 0) : Type 0 where
  pub index : ℕ
  pub filesystem : Filesystem S P
  pub private : P
  pub disk : ℕ

-- file_descriptors and the state below the file system.
pub record Files (S P : Type 0) : Type 0 where
  pub file_descriptors : List (Option (FileDescriptor S P))
  pub machine : S

pub file_get_mode_by_string : Chars → FileMode
file_get_mode_by_string [] = file_mode_invalid
file_get_mode_by_string (c ∷ rest) =
    if c == b'r'
    then file_mode_read
    else if c == b'w'
    then file_mode_write
    else if c == b'a'
    then file_mode_append
    else file_mode_invalid

mode_is_invalid : FileMode → Bool
mode_is_invalid file_mode_invalid = true
mode_is_invalid other = false

-- The tests `!root_path->first` and `fd < 1`, and the number of a disk that disk_get finds.
abbrev is_empty : List Chars → Bool
is_empty [] = true
is_empty (part ∷ parts) = false

abbrev below_1 : ℤ → Bool
below_1 (pos fd) = fd == 0
below_1 (negsuc n) = true

abbrev disk_number : ℤ → ℕ
disk_number (pos d) = d
disk_number (negsuc n) = 0

module _ {S P : Type 0} where
  -- What fopen makes of an error: 0.
  abbrev fd_or_0 : Files S P × Result ℕ → Files S P × ℕ
  fd_or_0 (files, ok fd) = (files, fd)
  fd_or_0 (files, err e) = (files, 0)

  -- The cleared table of fs_init.
  pub fs_init : S → Files S P
  fs_init s = record { file_descriptors = replicate max_file_descriptors none; machine = s }

  -- The slot is filled with the descriptor that `make` gives for its index.
  pub file_new_descriptor :
      (ℕ → FileDescriptor S P)
      → List (Option (FileDescriptor S P))
      → Result (List (Option (FileDescriptor S P)) × ℕ)
  unfolding first_free
  file_new_descriptor make descriptors = elim (first_free descriptors 0) [
    | none ↦ err enomem
    | some i ↦ ok (set descriptors i (some (make (i + 1))), i + 1)
  ]

  pub file_get_descriptor : List (Option (FileDescriptor S P)) → ℤ → Option (FileDescriptor S P)
  file_get_descriptor descriptors (negsuc n) = none
  file_get_descriptor descriptors (pos fd) =
      if fd == 0 || leb max_file_descriptors fd then none else get_or descriptors (fd - 1) none

  pub file_free_descriptor :
      List (Option (FileDescriptor S P)) → FileDescriptor S P → List (Option (FileDescriptor S P))
  file_free_descriptor descriptors desc = set descriptors (desc.index - 1) none

  -- The part of fopen behind the path: the file is opened by its file system, then a descriptor is
  -- taken. The result is the descriptor's number.
  pub open_file : Filesystem S P → ℕ → List Chars → FileMode → Files S P → Files S P × Result ℕ
  unfolding file_new_descriptor
  open_file fs disk path mode files =
      let (s, opened) = fs.fs_open files.machine disk path mode in
      elim opened [
        | err e ↦ (record files { machine = s }, err e)
        | ok private ↦
            elim (file_new_descriptor
              (λ i. record { index = i; filesystem = fs; private = private; disk = disk })
              files.file_descriptors) [
                | err e ↦ (record files { machine = s }, err e)
                | ok (descriptors, fd) ↦
                    (record { file_descriptors = descriptors; machine = s }, ok fd)
              ]
      ]

  -- `mounted` is the file system of each disk that disk_get finds. `none` in the root is a path that
  -- the parser refuses.
  pub fopen_root :
      (ℤ → Option (Option (Filesystem S P)))
      → Option PathRoot
      → Chars
      → Files S P
      → Files S P × Result ℕ
  unfolding open_file mode_is_invalid file_get_mode_by_string
  fopen_root mounted none mode_str files = (files, err einvarg)
  fopen_root mounted (some root) mode_str files =
      if is_empty root.parts then (files, err einvarg) else elim (mounted root.drive_no) [
        | none ↦ (files, err eio)
        | some none ↦ (files, err eio)
        | some (some fs) ↦
            if mode_is_invalid (file_get_mode_by_string mode_str)
            then (files, err einvarg)
            else open_file fs (disk_number root.drive_no) root.parts
                (file_get_mode_by_string mode_str) files
      ]

  -- The result is the descriptor's number, or 0 for every error; `none` for too little fuel.
  pub fopen :
      ℕ
      → (ℤ → Option (Option (Filesystem S P)))
      → Chars
      → Chars
      → Files S P
      → Option (Files S P × ℕ)
  unfolding fopen_root
  fopen fuel mounted filename mode_str files = elim (pathparser_parse fuel filename) [
    | none ↦ none
    | some root ↦ some (fd_or_0 (fopen_root mounted root mode_str files))
  ]

  pub fstat : ℤ → Files S P → Result FileStat
  unfolding file_get_descriptor
  fstat fd files = elim (file_get_descriptor files.file_descriptors fd) [
    | none ↦ err eio
    | some desc ↦ desc.filesystem.fs_stat files.machine desc.disk desc.private
  ]

  -- What fclose does with the driver's answer: a closed file gives its descriptor back.
  pub after_close :
      List (Option (FileDescriptor S P))
      → FileDescriptor S P
      → S × Result (Unit {0})
      → Files S P × Result (Unit {0})
  unfolding file_free_descriptor
  after_close descriptors desc (s, ok u) =
      (record { file_descriptors = file_free_descriptor descriptors desc; machine = s }, ok u)
  after_close descriptors desc (s, err e) =
      (record { file_descriptors = descriptors; machine = s }, err e)

  pub fclose : ℤ → Files S P → Files S P × Result (Unit {0})
  fclose fd files = elim (file_get_descriptor files.file_descriptors fd) [
    | none ↦ (files, err eio)
    | some desc ↦
        after_close files.file_descriptors desc
          (desc.filesystem.fs_close files.machine desc.private)
  ]

  pub fseek : ℤ → (offset whence : ℕ) → Files S P → Files S P × Result (Unit {0})
  unfolding file_get_descriptor
  fseek fd offset whence files = elim (file_get_descriptor files.file_descriptors fd) [
    | none ↦ (files, err eio)
    | some desc ↦
        let (s, res) = desc.filesystem.fs_seek files.machine desc.private offset whence in
        (record files { machine = s }, res)
  ]

  pub fread : (ptr size nmemb : ℕ) → ℤ → Files S P → Files S P × Result ℕ
  unfolding file_get_descriptor
  fread ptr size nmemb fd files =
      if size == 0 || (nmemb == 0 || below_1 fd)
      then (files, err einvarg)
      else elim (file_get_descriptor files.file_descriptors fd) [
        | none ↦ (files, err einvarg)
        | some desc ↦
            let (s, res) =
              desc.filesystem.fs_read files.machine desc.disk desc.private size nmemb ptr in
            (record files { machine = s }, res)
      ]
