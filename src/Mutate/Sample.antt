-- ===== src/Mutate/Sample.antt =====
-- tools/mutate/sample.ts: a random sample of the mutants, spread over the files.
use wac_mono.Base.{
  ℕ, zero, suc, ◌+◌, ◌-◌, ◌*◌, ◌/◌, ◌%◌, ◌^◌, min, ◌||◌, Option, none, some, List, [], ◌∷◌, ◌++◌,
  get_elem?, leb, ◌==◌, if◌then◌else◌, length,
}
use wac_mono.Mutate.Texts.{Text}
use wac_mono.Mutate.Edits.{Mutant, TextMap, push, add_text, text_leb}

-- `m.edits[0]?.file ?? ""`
abbrev pub file_of : Mutant → Text
file_of m = elim m.edits [ [] ↦ [] | e ∷ rest ↦ e.file ]

-- A number of 32 bits, without its sign.
abbrev pub word : ℕ → ℕ
word n = n % 2 ^ 32

-- An operation on the bits of two numbers, bit by bit from the lowest.
abbrev pub bitwise : (ℕ → ℕ → ℕ) → ℕ → ℕ → ℕ → ℕ
bitwise f zero a b = 0
bitwise f (suc bits) a b = f (a % 2) (b % 2) + 2 * bitwise f bits (a / 2) (b / 2)

abbrev pub xor : ℕ → ℕ → ℕ
xor = bitwise (λ a b. (a + b) % 2) 32

abbrev pub or : ℕ → ℕ → ℕ
or = bitwise (λ a b. min 1 (a + b)) 32

-- A draw: the number of which 2^32 is one, and the state after it.
unfoldable pub mulberry32 : ℕ → ℕ × ℕ
mulberry32 state =
    let a = word (state + 1831565813) in
    let t = word (xor a (a / 2 ^ 15) * or 1 a) in
    let u = xor (word (t + word (xor t (t / 2 ^ 7) * or 61 t))) t in (xor u (u / 2 ^ 14), a)

unfoldable pub group_mutants : TextMap (List Mutant) → List Mutant → TextMap (List Mutant)
group_mutants groups [] = groups
group_mutants groups (m ∷ rest) = group_mutants (push groups (file_of m) m) rest

-- `[...byFile.keys()].sort()`, with the group of each key.
unfoldable pub insert_group : Text × List Mutant → TextMap (List Mutant) → TextMap (List Mutant)
insert_group g [] = g ∷ []
insert_group g (h ∷ rest) = if text_leb g.0 h.0 then g ∷ h ∷ rest else h ∷ insert_group g rest

unfoldable pub sort_groups : TextMap (List Mutant) → TextMap (List Mutant)
sort_groups [] = []
sort_groups (g ∷ rest) = insert_group g (sort_groups rest)

abbrev pub set_nth {ℓ} : {A : Type ℓ} → List A → ℕ → A → List A
set_nth [] i a = []
set_nth (x ∷ xs) zero a = a ∷ xs
set_nth (x ∷ xs) (suc i) a = x ∷ set_nth xs i a

-- `[g[i], g[j]] = [g[j], g[i]]`
unfoldable pub swap {ℓ} : {A : Type ℓ} → List A → ℕ → ℕ → List A
swap g i j = elim (get_elem? g i) [
  | none ↦ g
  | some x ↦ (elim (get_elem? g j) [ none ↦ g | some y ↦ set_nth (set_nth g i y) j x ])
]

-- Fisher-Yates from position `i` down. A draw times i + 1 has no rounding below 2^21 mutants.
unfoldable pub shuffle {ℓ} : {A : Type ℓ} → List A → ℕ → ℕ → List A × ℕ
shuffle g zero state = (g, state)
shuffle g (suc i) state =
    let draw = mulberry32 state in shuffle (swap g (suc i) (draw.0 * (suc i + 1) / 2 ^ 32)) i draw.1

unfoldable pub shuffle_groups : TextMap (List Mutant) → ℕ → List (List Mutant)
shuffle_groups [] state = []
shuffle_groups ((key, g) ∷ rest) state =
    let shuffled = shuffle g (length g - 1) state in shuffled.0 ∷ shuffle_groups rest shuffled.1

-- One round over the groups, where `left` are still wanted.
unfoldable pub one_round {ℓ} : {A : Type ℓ} → List (List A) → ℕ → ℕ → List A
one_round [] round left = []
one_round (g ∷ groups) round zero = []
one_round (g ∷ groups) round (suc left) = elim (get_elem? g round) [
  | none ↦ one_round groups round (suc left)
  | some m ↦ m ∷ one_round groups round left
]

-- `for (let round = 0; picked.length < n; round++)`, which ends after a round that takes nothing.
unfoldable pub pick_rounds {ℓ} : {A : Type ℓ} → List (List A) → ℕ → ℕ → ℕ → List A
pick_rounds groups zero round left = []
pick_rounds groups (suc fuel) round zero = []
pick_rounds groups (suc fuel) round (suc left) = elim (one_round groups round (suc left)) [
  | [] ↦ []
  | m ∷ more ↦ (m ∷ more) ++ pick_rounds groups fuel (round + 1) (left - length more)
]

-- `none` is a number that is not finite, or below 0; a number with a fraction is left out. A round takes a mutant or is the last, so that n + 1 rounds
-- are enough.
unfoldable pub sample_mutants : List Mutant → Option ℕ → ℕ → List Mutant
sample_mutants mutants none seed = mutants
sample_mutants mutants (some n) seed =
    if (n == 0) || leb (length mutants) n
    then mutants
    else pick_rounds (shuffle_groups (sort_groups (group_mutants [] mutants)) seed) (n + 1) 0 n

unfoldable files_seen : List Text → List Mutant → List Text
files_seen seen [] = seen
files_seen seen (m ∷ rest) = files_seen (add_text seen (file_of m)) rest

pub file_count : List Mutant → ℕ
file_count mutants = length (files_seen [] mutants)
