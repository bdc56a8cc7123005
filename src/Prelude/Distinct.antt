-- ===== src/Prelude/Distinct.antt =====
-- Lists of distinct addresses.
use Prim.Native.Nat.{ℕ}
use mathlib.Core.Path.{sym}
use mathlib.Core.Logic.{◌≢◌}
use mathlib.Core.List.{List, [], ◌∷◌, ◌++◌}

-- No entry of the list is `a`.
abbrev pub IsNew : ℕ → List ℕ → Type 0
IsNew a [] = Unit {0}
IsNew a (x ∷ xs) = (a ≢ x) × IsNew a xs

abbrev pub IsDistinct : List ℕ → Type 0
IsDistinct [] = Unit {0}
IsDistinct (x ∷ xs) = IsNew x xs × IsDistinct xs

append-IsNew : (a task : ℕ) (xs : List ℕ) → IsNew a xs → a ≢ task → IsNew a (xs ++ task ∷ [])
append-IsNew a task [] new ne = (ne, tt)
append-IsNew a task (x ∷ xs) (other, new) ne = (other, append-IsNew a task xs new ne)

pub append-IsDistinct :
    (task : ℕ) (xs : List ℕ) → IsDistinct xs → IsNew task xs → IsDistinct (xs ++ task ∷ [])
append-IsDistinct task [] d new = (tt, tt)
append-IsDistinct task (x ∷ xs) (d, ds) (ne, new) =
    (append-IsNew x task xs d (λ e. ne (sym e)), append-IsDistinct task xs ds new)
