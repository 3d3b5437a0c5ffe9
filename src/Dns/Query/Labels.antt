-- ===== src/Dns/Query/Labels.antt =====
-- Splitting a name at its dots.
use socks5proxy_native.Prelude.{
  ℕ, ◌≤◌, ◌≡◌, refl, ap, ◌∙◌, ◌≢◌, List, [], ◌∷◌, ◌++◌, length, All, arith,
}
use socks5proxy_native.Dns.Query.{labels}

-- Labels joined by single dots.
unfoldable pub join : List (List ℕ) → List ℕ
join [] = []
join (l ∷ []) = l
join (l ∷ m ∷ ls) = l ++ (b'.' ∷ join (m ∷ ls))

abbrev pub IsPlain : List ℕ → Type 0
IsPlain l = (1 ≤ length l) × All (λ c. c ≢ b'.') l

labels-last : (c : ℕ) (l : List ℕ) → All (λ d. d ≢ b'.') (c ∷ l) → labels (c ∷ l) ≡ (c ∷ l) ∷ []
unfolding labels
labels-last c [] a = ground arith
labels-last c (d ∷ l) (a, as') = ground (arith, labels-last d l as')

labels-front :
    (c : ℕ) (l rest : List ℕ)
    → All (λ d. d ≢ b'.') (c ∷ l)
    → labels ((c ∷ l) ++ (b'.' ∷ rest)) ≡ (c ∷ l) ∷ labels rest
unfolding labels
labels-front c [] rest a = ground arith
labels-front c (d ∷ l) rest (a, as') = ground (arith, labels-front d l rest as')

-- Splitting a name at its dots gives back the labels that were joined, if these are not empty and have no
-- dots.
pub labels-join : (ls : List (List ℕ)) → All IsPlain ls → labels (join ls) ≡ ls
unfolding join
labels-join [] a = unfold labels in refl
labels-join ([] ∷ ls) a = absurd (omega arith)
labels-join ((c ∷ l) ∷ []) (a, _) = labels-last c l a.1
labels-join ((c ∷ l) ∷ m ∷ ls) (a, as') =
    labels-front c l (join (m ∷ ls)) a.1 ∙ ap (◌∷◌ (c ∷ l)) (labels-join (m ∷ ls) as')
