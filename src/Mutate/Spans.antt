-- ===== src/Mutate/Spans.antt =====
-- Where the body of a function that is found stands.
use wac_mono.Base.{
  ℕ, zero, suc, ◌+◌, ◌-◌, ◌≤◌, ◌<◌, ◌≡◌, refl, sym, ◌∙◌, subst, some_inj, arith, Bool, true, false,
  Option, none, some, List, [], ◌∷◌, ◌==◌, if◌then◌else◌, get_elem?, drop, length, length-drop,
}
use Prim.Native.String.{String}
use wac_mono.Mutate.Texts.{Text}
use wac_mono.Mutate.Functions.{
  Token, Function, is_kind, kind_at, still_open, skip_matched, body_at, typed_at, named_at,
  function_at,
}

get_elem?-drop {ℓ} :
    {A : Type ℓ} (n d : ℕ) (xs : List A) → get_elem? (drop n xs) d ≡ get_elem? xs (n + d)
get_elem?-drop zero d xs = let e : 0 + d ≡ d = omega arith in rw e
get_elem?-drop (suc n) d [] = refl
get_elem?-drop (suc n) d (x ∷ xs) =
    let e : suc n + d ≡ suc (n + d) = omega arith in rw e (get_elem?-drop n d xs)

kind_at-drop :
    (tokens : List Token) (n d : ℕ) (k : String)
    → kind_at (drop n tokens) d k ≡ kind_at tokens (n + d) k
kind_at-drop tokens n d k = rw (kind_at, get_elem?-drop n d tokens) refl

-- Where a walk ends with nothing open, the last token that it looked at is a closer.
abbrev Closes : String → List Token → ℕ → ℕ → Type 0
Closes closer ts p q = (d : ℕ) × (q ≡ p + d + 1) × (d < length ts) × (kind_at ts d closer ≡ true)

module _ (opener closer : String) where
  skip_none : (ts : List Token) (p : ℕ) → (skip_matched opener closer ts 0 p).1 ≡ p
  unfolding skip_matched
  skip_none [] p = refl
  skip_none (t ∷ rest) p = refl

  still_open-zero :
      (t : Token) (count : ℕ) → still_open opener closer t count ≡ 0 → is_kind closer t ≡ true
  still_open-zero t count = closing (is_kind opener t) (is_kind closer t)
    where
      closing :
          (o c : Bool)
          → (if o then suc (suc count) else if c then count else suc count) ≡ 0
          → c ≡ true
      closing true c e = absurd (omega (arith, e))
      closing false true e = refl
      closing false false e = absurd (omega (arith, e))

  Closes-later :
      (t : Token) (rest : List Token) (p q : ℕ)
      → Closes closer rest (p + 1) q
      → Closes closer (t ∷ rest) p q
  Closes-later t rest p q (d, at, within, is_closer) = (suc d, omega arith, omega arith, is_closer)

  skip_matched-Closes :
      (ts : List Token) (count p : ℕ)
      → (skip_matched opener closer ts (suc count) p).0 ≡ 0
      → Closes closer ts p (skip_matched opener closer ts (suc count) p).1
  unfolding skip_matched
  skip_matched-Closes [] count p e = absurd (omega (arith, e))
  skip_matched-Closes (t ∷ rest) count p e =
      closed (still_open opener closer t count) refl (λ n. skip_matched-Closes rest n (p + 1)) e
    where
      closed :
          (n : ℕ)
          → still_open opener closer t count ≡ n
          → ((m : ℕ)
              → (skip_matched opener closer rest (suc m) (p + 1)).0 ≡ 0
              → Closes closer rest (p + 1) (skip_matched opener closer rest (suc m) (p + 1)).1)
          → (skip_matched opener closer rest n (p + 1)).0 ≡ 0
          → Closes closer (t ∷ rest) p (skip_matched opener closer rest n (p + 1)).1
      closed zero s ih e =
          (0, rw (skip_none rest (p + 1)) (omega arith), omega arith, still_open-zero t count s)
      closed (suc n) s ih e = Closes-later t rest p _ (ih n e)

  skip_matched-le : (ts : List Token) (count p : ℕ) → p ≤ (skip_matched opener closer ts count p).1
  unfolding skip_matched
  skip_matched-le [] count p = omega arith
  skip_matched-le (t ∷ rest) zero p = omega arith
  skip_matched-le (t ∷ rest) (suc count) p =
      omega (arith, skip_matched-le rest (still_open opener closer t count) (p + 1))

-- The braces of a body: where they stand, and that they are braces.
unfoldable pub IsSpan : List Token → Function → Type 0
IsSpan tokens f =
    (f.opening < f.closing)
    × (f.closing < length tokens)
    × (kind_at tokens f.opening "{" ≡ true)
    × (kind_at tokens f.closing "}" ≡ true)

pub IsSpan-lt : (tokens : List Token) (f : Function) → IsSpan tokens f → f.opening < f.closing
unfolding IsSpan
IsSpan-lt tokens f h = h.0

body_at-IsSpan :
    (tokens : List Token) (ret_type : List Text) (name : Text) (p : ℕ) (f : Function)
    → body_at tokens ret_type name p ≡ some f
    → (f.opening ≡ p) × IsSpan tokens f
unfolding body_at IsSpan
body_at-IsSpan tokens ret_type name p f e = opened (kind_at tokens p "{") refl e
  where
    braces : ℕ × ℕ
    braces = skip_matched "{" "}" (drop (p + 1) tokens) 1 (p + 1)

    span : Function
    span = record { ret_type = ret_type; name = name; opening = p; closing = braces.1 - 1 }

    span-IsSpan :
        kind_at tokens p "{" ≡ true
        → Closes "}" (drop (p + 1) tokens) (p + 1) braces.1
        → IsSpan tokens span
    span-IsSpan is_open (d, at, within, is_closer) =
        let here : braces.1 - 1 ≡ p + 1 + d = omega (arith, at) in
        let shorter = length-drop (p + 1) tokens in
        (
          omega (arith, here),
          omega (arith, here, within, shorter),
          is_open,
          rw here (sym (kind_at-drop tokens (p + 1) d "}") ∙ is_closer),
        )

    matched :
        kind_at tokens p "{" ≡ true
        → (b : Bool) → (braces.0 == 0) ≡ b
        → (if b then some span else none) ≡ some f
        → (f.opening ≡ p) × IsSpan tokens f
    matched is_open false z e = cc
    matched is_open true z e =
        subst (λ g. (g.opening ≡ p) × IsSpan tokens g) (some_inj span f e)
          (
            refl,
            span-IsSpan is_open
                (skip_matched-Closes "{" "}" (drop (p + 1) tokens) 0 (p + 1) (ground arith)),
          )

    opened :
        (o : Bool)
        → kind_at tokens p "{" ≡ o
        → (if o then (if braces.0 == 0 then some span else none) else none) ≡ some f
        → (f.opening ≡ p) × IsSpan tokens f
    opened false k e = cc
    opened true k e = matched k (braces.0 == 0) refl e

if_some {ℓ} :
    {A : Type ℓ} (b : Bool) (o : Option A) (x : A) → (if b then o else none) ≡ some x → o ≡ some x
if_some true o x e = e
if_some false o x e = cc

typed_at-IsSpan :
    (tokens : List Token) (i : ℕ) (name : Text) (ret_type : List Text) (f : Function)
    → typed_at tokens i name ret_type ≡ some f
    → (i < f.opening) × IsSpan tokens f
unfolding typed_at
typed_at-IsSpan tokens i name [] f e = cc
typed_at-IsSpan tokens i name (t ∷ ts) f e =
    let spans = body_at-IsSpan tokens (t ∷ ts) name _ f e in
    (omega (arith, spans.0, skip_matched-le "(" ")" (drop (i + 1) tokens) 1 (i + 1)), spans.1)

named_at-IsSpan :
    (tokens : List Token) (before : ℕ) (o : Option Token) (f : Function)
    → named_at tokens before o ≡ some f
    → (suc before < f.opening) × IsSpan tokens f
unfolding named_at
named_at-IsSpan tokens before none f e = cc
named_at-IsSpan tokens before (some name) f e =
    typed_at-IsSpan tokens (suc before) name.text _ f (if_some (is_kind "ident" name) _ f e)

pub function_at-IsSpan :
    (tokens : List Token) (i : ℕ) (f : Function)
    → function_at tokens i ≡ some f
    → (i < f.opening) × IsSpan tokens f
unfolding function_at
function_at-IsSpan tokens zero f e = cc
function_at-IsSpan tokens (suc i) f e =
    named_at-IsSpan tokens i _ f (if_some (kind_at tokens (suc i) "(") _ f e)
