-- ===== src/Prelude/Members.antt =====
-- The members of the lists that `map` and `keep` make.
use mathlib.Core.Path.{◌≡◌, refl, sym, ap, ◌∙◌}
use mathlib.Core.Bool.{Bool, true}
use mathlib.Core.List.{List, [], ◌∷◌, map, Memᴰ}
use kelinode_rs.Prelude.Tests.{if_intro}
use kelinode_rs.Prelude.Lists.{All, keep}

pub kept :
    {A : Type 0} (p : A → Bool) (xs : List A) (x : A)
    → Memᴰ x (keep p xs)
    → Memᴰ x xs × (p x ≡ true)
kept p [] x = λ m. elim m [ ]
kept {A} p (y ∷ xs) x =
    if_intro (λ (ys : List A). Memᴰ x ys → Memᴰ x (y ∷ xs) × (p x ≡ true)) (p y)
      (λ holds m. elim m [
        | Memᴰ.head e ↦ (Memᴰ.head e, ap p e ∙ holds)
        | Memᴰ.tail t ↦ let (t', h) = kept p xs x t in (Memᴰ.tail t', h)
      ])
      (λ _ m. let (t, h) = kept p xs x m in (Memᴰ.tail t, h))

pub mapped :
    {A B : Type 0} (f : A → B) (xs : List A) (y : B)
    → Memᴰ y (map f xs)
    → (x : A) × Memᴰ x xs × (f x ≡ y)
mapped f [] y m = elim m [ ]
mapped f (x ∷ xs) y (Memᴰ.head e) = (x, Memᴰ.head refl, sym e)
mapped f (x ∷ xs) y (Memᴰ.tail t) = let (z, z_in, e) = mapped f xs y t in (z, Memᴰ.tail z_in, e)

pub All-members :
    {A : Type 0} (P : A → Type 0) (xs : List A) → ((x : A) → Memᴰ x xs → P x) → All P xs
All-members P [] h = tt
All-members P (x ∷ xs) h = (h x (Memᴰ.head refl), All-members P xs (λ y m. h y (Memᴰ.tail m)))

pub All-map :
    {A B : Type 0} (P : A → Type 0) (Q : B → Type 0) (f : A → B) (xs : List A)
    → ((x : A) → P x → Q (f x))
    → All P xs
    → All Q (map f xs)
All-map P Q f [] h k = tt
All-map P Q f (x ∷ xs) h (k, ks) = (h x k, All-map P Q f xs h ks)

pub kept_in :
    {A : Type 0} (p : A → Bool) (xs : List A) (x : A) → Memᴰ x xs → p x ≡ true → Memᴰ x (keep p xs)
kept_in p [] x m h = elim m [ ]
kept_in p (y ∷ xs) x (Memᴰ.head e) h = let q : p y ≡ true = ap p (sym e) ∙ h in rw q (Memᴰ.head e)
kept_in {A} p (y ∷ xs) x (Memᴰ.tail t) h =
    if_intro (λ (ys : List A). Memᴰ x ys) (p y) (λ _. Memᴰ.tail (kept_in p xs x t h))
      (λ _. kept_in p xs x t h)

pub mapped_in : {A B : Type 0} (f : A → B) (xs : List A) (x : A) → Memᴰ x xs → Memᴰ (f x) (map f xs)
mapped_in f [] x m = elim m [ ]
mapped_in f (y ∷ xs) x (Memᴰ.head e) = Memᴰ.head (ap f e)
mapped_in f (y ∷ xs) x (Memᴰ.tail t) = Memᴰ.tail (mapped_in f xs x t)
