-- ===== src/Keyboard/Drivers.antt =====
-- The list of keyboard drivers of src/keyboard/keyboard.c and the registration of the PS/2 driver of
-- src/keyboard/ps2.c. A driver is its address, 0 for none. Drivers act on a machine state.
use slob_os.Prelude.{
  ne_test, ℕ, ◌≡◌, ◌≢◌, refl, sym, ap, ◌∙◌, Option, none, some, ◌==◌, if◌then◌else◌, List, [], ◌∷◌,
  ◌++◌,
}
use slob_os.Prelude.Store.{put, put_self, put_ne}
use slob_os.Status.{einvarg, Result, err}
use slob_os.Prelude.Distinct.{IsNew, IsDistinct, append-IsDistinct}

-- `struct keyboard` without its name; `none` is the null pointer of a driver without an `init`.
pub record Keyboard (M : Type 0) : Type 0 where
  pub init : Option (M → M × Result (Unit {0}))
  pub next : ℕ

-- The drivers by address and the two variables of the list.
pub record Drivers (M : Type 0) : Type 0 where
  pub store : ℕ → Keyboard M
  pub keyboard_list_head : ℕ
  pub keyboard_list_tail : ℕ

-- The last driver of the list, or `before` when it has none.
abbrev pub last_from : ℕ → List ℕ → ℕ
last_from before [] = before
last_from before (x ∷ xs) = last_from x xs

last_from-IsNew : (a x : ℕ) (xs : List ℕ) → IsNew a (x ∷ xs) → a ≢ last_from x xs
last_from-IsNew a x [] new = new.0
last_from-IsNew a x (y ∷ ys) new = last_from-IsNew a y ys new.1

last_from_append : (a b : ℕ) (xs : List ℕ) → last_from b (xs ++ a ∷ []) ≡ a
last_from_append a b [] = refl
last_from_append a b (x ∷ xs) = last_from_append a x xs

module _ {M : Type 0} where
  unfoldable pub link_next : (ℕ → Keyboard M) → ℕ → ℕ → ℕ → Keyboard M
  link_next store a next = put store a (record (store a) { next = next })

  unfoldable pub link_keyboard : Drivers M → ℕ → Drivers M
  link_keyboard d keyboard =
      if d.keyboard_list_tail == 0
      then record d { keyboard_list_head = keyboard; keyboard_list_tail = keyboard }
      else record d {
        store = link_next d.store d.keyboard_list_tail keyboard;
        keyboard_list_tail = keyboard;
      }

  -- What follows the test of `init`.
  insert_init :
      M → Drivers M → ℕ → Option (M → M × Result (Unit {0})) → M × (Drivers M × Result (Unit {0}))
  unfolding link_keyboard
  insert_init m d keyboard none = (m, (d, err einvarg))
  insert_init m d keyboard (some init) = ((init m).0, (link_keyboard d keyboard, (init m).1))

  pub keyboard_insert : M → Drivers M → ℕ → M × (Drivers M × Result (Unit {0}))
  unfolding insert_init
  keyboard_insert m d keyboard = insert_init m d keyboard (d.store keyboard).init

  -- From `first`, along `next`, the drivers are those of the list and the last one's `next` is 0.
  abbrev pub IsForward : (ℕ → Keyboard M) → (first : ℕ) → List ℕ → Type 0
  IsForward store first [] = first ≡ 0
  IsForward store first (x ∷ xs) = (first ≡ x) × ((x ≢ 0) × IsForward store (store x).next xs)

  -- The list's variables hold the drivers of a list of distinct addresses.
  pub record IsDrivers (d : Drivers M) (xs : List ℕ) : Type 0 where
    pub forward : IsForward d.store d.keyboard_list_head xs
    pub ends : d.keyboard_list_tail ≡ last_from 0 xs
    pub distinct : IsDistinct xs

  last_from_nonzero :
      (s : ℕ → Keyboard M) (first x : ℕ) (xs : List ℕ)
      → IsForward s first (x ∷ xs)
      → last_from x xs ≢ 0
  last_from_nonzero s first x [] f = f.1.0
  last_from_nonzero s first x (y ∷ ys) f = last_from_nonzero s (s x).next y ys f.1.1

  append-IsForward :
      (s : ℕ → Keyboard M) (first a x : ℕ) (xs : List ℕ)
      → IsForward s first (x ∷ xs)
      → IsDistinct (x ∷ xs)
      → a ≢ 0
      → (s a).next ≡ 0
      → IsNew a (x ∷ xs)
      → IsForward (link_next s (last_from x xs) a) first (x ∷ xs ++ a ∷ [])
  unfolding link_next
  append-IsForward s first a x [] f d nonzero ends new =
      let at_x = put_self s x (record (s x) { next = a }) in
      let at_a = put_ne s x (record (s x) { next = a }) a new.0 in
      (
        f.0,
        (
          f.1.0,
          (
            ap (λ (k : Keyboard M). k.next) at_x,
            (nonzero, ap (λ (k : Keyboard M). k.next) at_a ∙ ends),
          ),
        ),
      )
  append-IsForward s first a x (y ∷ ys) f d nonzero ends new =
      let last = last_from y ys in
      let ne : x ≢ last = last_from-IsNew x y ys d.0 in
      let at_x = put_ne s last (record (s last) { next = a }) x ne in
      let rest = append-IsForward s (s x).next a y ys f.1.1 d.1 nonzero ends new.1 in
      (f.0, (f.1.0, rw (at_x) rest))

  link_keyboard-IsDrivers :
      (d : Drivers M) (keyboard : ℕ) (xs : List ℕ)
      → IsDrivers d xs
      → keyboard ≢ 0
      → (d.store keyboard).next ≡ 0
      → IsNew keyboard xs
      → IsDrivers (link_keyboard d keyboard) (xs ++ keyboard ∷ [])
  unfolding link_keyboard
  link_keyboard-IsDrivers d keyboard [] q nonzero alone new =
      rw (q.ends) record { forward = (refl, (nonzero, alone)); ends = refl; distinct = (tt, tt) }
  link_keyboard-IsDrivers d keyboard (x ∷ xs) q nonzero alone new =
      let last = last_from_nonzero d.store d.keyboard_list_head x xs q.forward in
      rw (q.ends, ne_test (last_from x xs) 0 last)
        record {
          forward =
              append-IsForward d.store d.keyboard_list_head keyboard x xs q.forward q.distinct
                nonzero alone new;
          ends = sym (last_from_append keyboard x xs);
          distinct = append-IsDistinct keyboard (x ∷ xs) q.distinct new;
        }

  -- A driver with an `init` that no driver of the list is and that leads to no other driver stands
  -- behind the others after keyboard_insert, whatever its `init` returns; the status is that of
  -- `init`, which runs once.
  pub keyboard_insert-IsDrivers :
      (m : M) (d : Drivers M) (keyboard : ℕ) (xs : List ℕ) (init : M → M × Result (Unit {0}))
      → IsDrivers d xs
      → (d.store keyboard).init ≡ some init
      → keyboard ≢ 0
      → (d.store keyboard).next ≡ 0
      → IsNew keyboard xs
      → (d' : Drivers M) × ((keyboard_insert m d keyboard ≡ ((init m).0, (d', (init m).1)))
          × IsDrivers d' (xs ++ keyboard ∷ []))
  unfolding keyboard_insert insert_init
  keyboard_insert-IsDrivers m d keyboard xs init q has nonzero alone new = (
    link_keyboard d keyboard,
    (rw (has) refl, link_keyboard-IsDrivers d keyboard xs q nonzero alone new),
  )

  -- Without an `init` the list and the machine are the same and the error is EINVARG.
  pub keyboard_insert_refused :
      (m : M) (d : Drivers M) (keyboard : ℕ)
      → (d.store keyboard).init ≡ none
      → keyboard_insert m d keyboard ≡ (m, (d, err einvarg))
  unfolding keyboard_insert insert_init
  keyboard_insert_refused m d keyboard has = rw (has) refl
