-- ===== src/Text/Compare.antt =====
-- strncmp on strings in memory.
use slob_os.Prelude.{
  ℕ, zero, suc, ◌+◌, ◌≡◌, ◌≢◌, ◌↔◌, inl, inr, refl, sym, ◌∙◌, arith, eq_cases, List, [], ◌∷◌, take,
}
use slob_os.Prelude.Int.{pos, sub_ℕ}
use slob_os.Prelude.Memory.{Memory}
use slob_os.Text.{strncmp}
use slob_os.Text.Strings.{CString}

tails_eq : {a b : ℕ} {s t : List ℕ} → a ∷ s ≡ b ∷ t → s ≡ t
tails_eq e = cc

heads_eq : {a b : ℕ} {s t : List ℕ} → a ∷ s ≡ b ∷ t → a ≡ b
heads_eq e = cc

sub_ℕ-eq_zero : (a b : ℕ) → sub_ℕ a b ≡ pos 0 → a ≡ b
unfolding sub_ℕ
sub_ℕ-eq_zero a b h = ground arith

module _ (m : Memory) (p q n : ℕ) where
  strncmp-ne : m p ≢ m q → strncmp m p q (suc n) ≡ sub_ℕ (m p) (m q)
  unfolding strncmp
  strncmp-ne ne = ground arith

  strncmp-end : m p ≡ m q → m p ≡ 0 → strncmp m p q (suc n) ≡ pos 0
  unfolding strncmp
  strncmp-end e z = ground arith

  strncmp-next : m p ≡ m q → m p ≢ 0 → strncmp m p q (suc n) ≡ strncmp m (p + 1) (q + 1) n
  unfolding strncmp
  strncmp-next e ne = ground arith

  -- A difference that is 0 is none.
  strncmp-differs : m p ≢ m q → strncmp m p q (suc n) ≢ pos 0
  strncmp-differs ne e = ne (sub_ℕ-eq_zero (m p) (m q) (sym (strncmp-ne ne) ∙ e))

-- strncmp is 0 exactly for strings with the same first `n` characters.
pub strncmp_iff :
    (n : ℕ) (m : Memory) (p q : ℕ) (s t : List ℕ)
    → CString m p s
    → CString m q t
    → (strncmp m p q n ≡ pos 0) ↔ (take n s ≡ take n t)
unfolding strncmp
strncmp_iff zero m p q s t hs ht = ((λ e. refl), λ e. refl)
strncmp_iff (suc n) m p q [] [] hs ht = ((λ e. refl), λ e. strncmp-end m p q n (hs ∙ sym ht) hs)
strncmp_iff (suc n) m p q [] (d ∷ t) hs (f, nf, ht) =
    ((λ e. absurd (strncmp-differs m p q n (λ u. nf (sym f ∙ sym u ∙ hs)) e)), λ e. cc)
strncmp_iff (suc n) m p q (c ∷ s) [] (e, ne, hs) ht =
    ((λ z. absurd (strncmp-differs m p q n (λ u. ne (sym e ∙ u ∙ ht)) z)), λ z. cc)
strncmp_iff (suc n) m p q (c ∷ s) (d ∷ t) (e, ne, hs) (f, nf, ht) = elim (eq_cases c d) [
  | inl same ↦
      let step = strncmp-next m p q n (e ∙ same ∙ sym f) (λ z. ne (sym e ∙ z)) in
      let (to, from) = strncmp_iff n m (p + 1) (q + 1) s t hs ht in
      ((λ z. cc (same, to (sym step ∙ z))), λ z. step ∙ from (tails_eq z))
  | inr other ↦
      let ne' : c ≢ d = omega arith in
      (
        (λ z. absurd (strncmp-differs m p q n (λ u. ne' (sym e ∙ u ∙ f)) z)),
        λ z. absurd (ne' (heads_eq z)),
      )
]
