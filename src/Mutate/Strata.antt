-- ===== src/Mutate/Strata.antt =====
-- The groups that a sample is drawn from: one for each file, with the mutants of the file.
use wac_mono.Base.{
  ℕ, ◌+◌, ◌≤◌, ◌≡◌, ◌≢◌, refl, sym, ◌∙◌, ap, subst, arith, Bool, true, false, List, [], ◌∷◌, ◌++◌,
  if◌then◌else◌, if_intro, length, All, All-imp, append_assoc, append-nil, length-append,
}
use mathlib.Core.List.{Perm}
use mathlib.Core.List.Perm
use wac_mono.Mutate.Texts.{Text, same_text}
use wac_mono.Mutate.TextLaws.{same_text-eq, same_text_refl, same_text-ne}
use wac_mono.Mutate.Edits.{Mutant, TextMap, push, text_leb}
use wac_mono.Mutate.Sample.{file_of, group_mutants}

-- The mutants of one file, in their order.
abbrev pub of_file : Text → List Mutant → List Mutant
of_file key [] = []
of_file key (m ∷ rest) =
    let others = of_file key rest in if same_text (file_of m) key then m ∷ others else others

-- How many mutants the groups hold.
abbrev pub total : TextMap (List Mutant) → ℕ
total [] = 0
total ((key, g) ∷ rest) = length g + total rest

-- The files come in order, each once.
abbrev pub Ascending : TextMap (List Mutant) → Type 0
Ascending [] = Unit {0}
Ascending (g ∷ rest) = All (λ h. (text_leb g.0 h.0 ≡ true) × (g.0 ≢ h.0)) rest × Ascending rest

-- Groups of the mutants by their files: each is the mutants of its file in some order, of which it has one or more, and
-- none is left out.
pub record IsStrata (mutants : List Mutant) (groups : TextMap (List Mutant)) : Type 0 where
  pub ascending : Ascending groups
  pub by_file : All (λ g. Perm g.1 (of_file g.0 mutants)) groups
  pub none_empty : All (λ g. 1 ≤ length g.1) groups
  pub together : total groups ≡ length mutants

abbrev pub Distinct : TextMap (List Mutant) → Type 0
Distinct [] = Unit {0}
Distinct (g ∷ rest) = All (λ h. g.0 ≢ h.0) rest × Distinct rest

-- What holds of the keys holds after a push.
push-All :
    (P : Text → Type 0) (groups : TextMap (List Mutant)) (key : Text) (m : Mutant)
    → P key
    → All (λ g. P g.0) groups
    → All (λ g. P g.0) (push groups key m)
push-All P [] key m p h = (p, tt)
push-All P ((k, g) ∷ rest) key m p h =
    if_intro (All (λ g. P g.0)) (same_text k key) (λ same. (h.0, h.1))
      (λ other. (h.0, push-All P rest key m p h.1))

push-Distinct :
    (groups : TextMap (List Mutant)) (key : Text) (m : Mutant)
    → Distinct groups
    → Distinct (push groups key m)
push-Distinct [] key m d = (tt, tt)
push-Distinct ((k, g) ∷ rest) key m d =
    if_intro Distinct (same_text k key) (λ same. (d.0, d.1))
      (λ other. (
        push-All (λ h. k ≢ h) rest key m (same_text-ne k key other) d.0,
        push-Distinct rest key m d.1,
      ))

group_mutants-Distinct :
    (groups : TextMap (List Mutant)) (mutants : List Mutant)
    → Distinct groups
    → Distinct (group_mutants groups mutants)
unfolding group_mutants
group_mutants-Distinct groups [] d = d
group_mutants-Distinct groups (m ∷ rest) d =
    group_mutants-Distinct (push groups (file_of m) m) rest (push-Distinct groups (file_of m) m d)

-- What stands under a key.
abbrev contents : TextMap (List Mutant) → Text → List Mutant
contents [] key = []
contents ((k, g) ∷ rest) key = if same_text k key then g else contents rest key

contents-push :
    (groups : TextMap (List Mutant)) (key other : Text) (m : Mutant)
    → contents (push groups key m) other
      ≡ contents groups other ++ (if same_text key other then m ∷ [] else [])
contents-push [] key other m = refl
contents-push ((k, g) ∷ rest) key other m =
    if_intro
      (λ (pushed : TextMap (List Mutant)).
        contents pushed other ≡ contents ((k, g) ∷ rest) other ++ added key)
      (same_text k key)
      (λ same.
        subst
          (λ q.
            (if same_text k other then g ++ m ∷ [] else contents rest other)
            ≡ contents ((k, g) ∷ rest) other ++ added q)
          (same_text-eq k key same) (here (same_text k other)))
      (λ apart.
        behind (same_text k other) refl (same_text-ne k key apart) (contents-push rest key other m))
  where
    added : Text → List Mutant
    added q = if same_text q other then m ∷ [] else []

    here :
        (b : Bool)
        → (if b then g ++ m ∷ [] else contents rest other)
          ≡ (if b then g else contents rest other) ++ (if b then m ∷ [] else [])
    here true = refl
    here false = sym (append-nil (contents rest other))

    elsewhere : (b : Bool) → same_text key other ≡ b → key ≢ other → added key ≡ []
    elsewhere true e n = absurd (n (same_text-eq key other e))
    elsewhere false e n = rw e refl

    behind :
        (b : Bool)
        → same_text k other ≡ b
        → k ≢ key
        → contents (push rest key m) other ≡ contents rest other ++ added key
        → (if b then g else contents (push rest key m) other)
          ≡ (if b then g else contents rest other) ++ added key
    behind true e n ih =
        let none_added : added key ≡ [] =
          elsewhere (same_text key other) refl (λ q. n (same_text-eq k other e ∙ sym q)) in
        rw none_added (sym (append-nil g))
    behind false e n ih = ih

-- The groups hold the mutants of their files, in their order.
contents-group_mutants :
    (groups : TextMap (List Mutant)) (mutants : List Mutant) (key : Text)
    → contents (group_mutants groups mutants) key ≡ contents groups key ++ of_file key mutants
unfolding group_mutants
contents-group_mutants groups [] key = sym (append-nil (contents groups key))
contents-group_mutants groups (m ∷ rest) key =
    contents-group_mutants (push groups (file_of m) m) rest key
    ∙ ap (λ c. c ++ of_file key rest) (contents-push groups (file_of m) key m)
    ∙ append_assoc (contents groups key) _ (of_file key rest)
    ∙ ap (◌++◌ (contents groups key)) (first (same_text (file_of m) key))
  where
    first :
        (b : Bool)
        → (if b then m ∷ [] else []) ++ of_file key rest
          ≡ (if b then m ∷ of_file key rest else of_file key rest)
    first true = refl
    first false = refl

under_keys :
    (groups : TextMap (List Mutant)) → Distinct groups → All (λ g. contents groups g.0 ≡ g.1) groups
under_keys [] d = tt
under_keys ((k, g) ∷ rest) d = (rw (same_text_refl k) refl, behind rest d.0 (under_keys rest d.1))
  where
    behind :
        (gs : TextMap (List Mutant))
        → All (λ h. k ≢ h.0) gs
        → All (λ h. contents rest h.0 ≡ h.1) gs
        → All (λ h. contents ((k, g) ∷ rest) h.0 ≡ h.1) gs
    behind [] n e = tt
    behind (h ∷ hs) n e = (passed (same_text k h.0) refl, behind hs n.1 e.1)
      where
        passed : (b : Bool) → same_text k h.0 ≡ b → (if b then g else contents rest h.0) ≡ h.1
        passed true s = absurd (n.0 (same_text-eq k h.0 s))
        passed false s = e.0

grouped :
    (mutants : List Mutant) → All (λ g. Perm g.1 (of_file g.0 mutants)) (group_mutants [] mutants)
grouped mutants =
    All-imp
      (λ g e.
        subst (λ l. Perm l (of_file g.0 mutants)) (sym (contents-group_mutants [] mutants g.0) ∙ e)
          (Perm.refl (of_file g.0 mutants)))
      (group_mutants [] mutants) (under_keys _ (group_mutants-Distinct [] mutants tt))

push-none_empty :
    (groups : TextMap (List Mutant)) (key : Text) (m : Mutant)
    → All (λ g. 1 ≤ length g.1) groups
    → All (λ g. 1 ≤ length g.1) (push groups key m)
push-none_empty [] key m h = (omega arith, tt)
push-none_empty ((k, g) ∷ rest) key m h =
    if_intro (All (λ g. 1 ≤ length g.1)) (same_text k key)
      (λ same. (omega (arith, length-append g (m ∷ [])), h.1))
      (λ other. (h.0, push-none_empty rest key m h.1))

group_mutants-none_empty :
    (groups : TextMap (List Mutant)) (mutants : List Mutant)
    → All (λ g. 1 ≤ length g.1) groups
    → All (λ g. 1 ≤ length g.1) (group_mutants groups mutants)
unfolding group_mutants
group_mutants-none_empty groups [] h = h
group_mutants-none_empty groups (m ∷ rest) h =
    group_mutants-none_empty (push groups (file_of m) m) rest
      (push-none_empty groups (file_of m) m h)

total-push :
    (groups : TextMap (List Mutant)) (key : Text) (m : Mutant)
    → total (push groups key m) ≡ total groups + 1
total-push [] key m = refl
total-push ((k, g) ∷ rest) key m =
    if_intro (λ pushed. total pushed ≡ length g + total rest + 1) (same_text k key)
      (λ same. omega (arith, length-append g (m ∷ [])))
      (λ other. omega (arith, total-push rest key m))

total-group_mutants :
    (groups : TextMap (List Mutant)) (mutants : List Mutant)
    → total (group_mutants groups mutants) ≡ total groups + length mutants
unfolding group_mutants
total-group_mutants groups [] = omega arith
total-group_mutants groups (m ∷ rest) =
    omega
      (arith, total-group_mutants (push groups (file_of m) m) rest, total-push groups (file_of m) m)

-- Grouped in one pass: the files are apart, and nothing is lost.
pub group_mutants-grouped :
    (mutants : List Mutant)
    → Distinct (group_mutants [] mutants)
      × All (λ g. Perm g.1 (of_file g.0 mutants)) (group_mutants [] mutants)
      × All (λ g. 1 ≤ length g.1) (group_mutants [] mutants)
      × (total (group_mutants [] mutants) ≡ length mutants)
group_mutants-grouped mutants = (
  group_mutants-Distinct [] mutants tt,
  grouped mutants,
  group_mutants-none_empty [] mutants tt,
  omega (arith, total-group_mutants [] mutants),
)
