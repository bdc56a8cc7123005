-- ===== src/Vfs/Examples.antt =====
-- The theorems on descriptors at a file system that opens every path, with a counter as its state.
use slob_os.Prelude.{
  ℕ, ◌+◌, ◌<◌, ◌≡◌, ◌≢◌, refl, arith, Option, none, some, List, [], ◌∷◌, get_elem?, suc, zero,
}
use slob_os.Prelude.Int.{pos}
use slob_os.Status.{ok}
use slob_os.Vfs.{Filesystem, FileDescriptor, Files, file_mode_read, open_file, fclose}
use slob_os.Vfs.Descriptors.{IsFirstFree, fclose-open_file}

abbrev counting : Filesystem ℕ ℕ
counting = record {
  fs_resolve_disk = λ s disk. (s, ok tt);
  fs_open = λ s disk path mode. (s + 1, ok s);
  fs_read = λ s disk private size nmemb out. (s, ok nmemb);
  fs_seek = λ s private offset whence. (s, ok tt);
  fs_stat = λ s disk private. ok (record { flags = 0; filesize = 0 });
  fs_close = λ s private. (s, ok tt);
}

abbrev make : ℕ → FileDescriptor ℕ ℕ
make i = record { index = i; filesystem = counting; private = 0; disk = 0 }

-- The first descriptor is taken.
abbrev slots : List (Option (FileDescriptor ℕ ℕ))
slots = some (make 1) ∷ none ∷ none ∷ []

abbrev files : Files ℕ ℕ
files = record { file_descriptors = slots; machine = 5 }

slots-IsFirstFree : IsFirstFree slots 1
slots-IsFirstFree = record { free = refl; taken = taken }
  where
    taken : (k : ℕ) → k < 1 → get_elem? slots k ≢ some none
    taken zero lt e = absurd cc
    taken (suc k) lt e = absurd (omega arith)

fclose-open_file_example :
    fclose (pos 2) (open_file counting 0 [] file_mode_read files).0
    ≡ (record files { machine = 6 }, ok tt)
fclose-open_file_example =
    fclose-open_file counting 0 [] file_mode_read files 6 6 5 1 refl refl slots-IsFirstFree
      (omega arith)
