-- ===== src/Machine/Pushed.antt =====
-- The loops of src/machine.rs that push what a list does not have yet, in general.
use kelinode_rs.Prelude.{
  Bool, false, ◌&&◌, List, [], ◌∷◌, ◌++◌, is_empty, if◌then◌else◌, All, All-append, append-nil,
  append_assoc, ◌≡◌, sym, arith, if_intro,
}
use mathlib.Core.Path.{subst}

-- No element is one that those before it have.
abbrev pub AreApart : {A : Type 0} → (List A → A → Bool) → List A → List A → Type 0
AreApart has seen [] = Unit {0}
AreApart has seen (a ∷ as') = (has seen a ≡ false) × AreApart has (seen ++ a ∷ []) as'

push-AreApart :
    {A : Type 0} (has : List A → A → Bool) (seen all : List A) (a : A)
    → AreApart has seen all
    → has (seen ++ all) a ≡ false
    → AreApart has seen (all ++ a ∷ [])
push-AreApart has seen [] a h fresh = (subst (λ s. has s a ≡ false) (append-nil seen) fresh, tt)
push-AreApart has seen (b ∷ all) a (h, hs) fresh = (
  h,
  push-AreApart has (seen ++ b ∷ []) all a hs
      (subst (λ s. has s a ≡ false) (sym (append_assoc seen (b ∷ []) all)) fresh),
)

-- The two loops, which push what the list does not have.
module _ {A : Type 0} (has : List A → A → Bool) where
  abbrev pub push_all : List A → List A → List A
  push_all target [] = target
  push_all target (a ∷ rest) = push_all (if has target a then target else target ++ a ∷ []) rest

  pub record ArePushed (P : A → Type 0) (target : List A) : Type 0 where
    pub valid : All P target
    pub apart : AreApart has [] target

  pub push_all-ArePushed :
      (P : A → Type 0) (target new : List A)
      → ArePushed P target
      → All P new
      → ArePushed P (push_all target new)
  push_all-ArePushed P target [] h k = h
  push_all-ArePushed P target (a ∷ new) h (p, k) =
      if_intro (λ t. ArePushed P (push_all t new)) (has target a)
        (λ _. push_all-ArePushed P target new h k)
        (λ fresh.
          push_all-ArePushed P (target ++ a ∷ []) new
            (record {
              valid = All-append P target (a ∷ []) h.valid (p, tt);
              apart = push-AreApart has [] target a h.apart fresh;
            })
            k)

  pub push_all_empty :
      (target new : List A)
      → ((a : A) → has [] a ≡ false)
      → is_empty (push_all target new) ≡ (is_empty target && is_empty new)
  push_all_empty target [] h = ground arith
  push_all_empty [] (a ∷ new) h = rw (h a) (push_all_empty (a ∷ []) new h)
  push_all_empty (b ∷ target) (a ∷ new) h =
      if_intro (λ t. is_empty (push_all t new) ≡ false) (has (b ∷ target) a)
        (λ _. push_all_empty (b ∷ target) new h)
        (λ _. push_all_empty (b ∷ (target ++ a ∷ [])) new h)
