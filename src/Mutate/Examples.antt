-- ===== src/Mutate/Examples.antt =====
-- The tool's theorems at a small file: `bool f() { return g("a") < 'b'; }`.
use wac_mono.Base.{◌+◌, ◌≡◌, refl, arith, true, none, some, List, [], ◌∷◌, map, All, take, length}
use wac_mono.Mutate.Texts.{Text, text, text_in}
use wac_mono.Mutate.Edits.{Mutant, operator, curated, TextMap, apply_edits}
use wac_mono.Mutate.Functions.{
  Token, functions, functions_from, look, function_at, named_at, typed_at, body_at, skip_matched,
  ret_type_before,
}
use wac_mono.Mutate.Numerals.{bump_literal, bump_decimal, read_digits, write_number, write_digits}
use wac_mono.Mutate.Generate.{
  offset, line_starts, Operators, Lexed, generate, generate_from, token_mutants, relational_of,
  literal_of, guard_of, extreme_mutants, extreme_of, extreme_between,
}
use wac_mono.Mutate.Defaults.{default_value_for, normalise}
use wac_mono.Mutate.Literals.{
  literal_wanted, scopes_from, const_name, shape_members, shape_key, wanted_in, wanted_members,
  spread,
}
use wac_mono.Mutate.Sample.{sample_mutants}
use wac_mono.Mutate.Select.{Profile, narrow, plan_for}
use wac_mono.Mutate.Locate.{Curated, found, hits_from, choose_hit, locate, locate_edits}
use wac_mono.Mutate.Triage.{Measured, signed, triage, triage_all, new_seen}
use wac_mono.Mutate.Distinct.{AllDistinct, run_signatures, runs-AllDistinct}
use wac_mono.Mutate.Faithful.{TokenIn, ends, decoded, character, spelled}
use wac_mono.Mutate.Mutants.{Ordered}
use wac_mono.Mutate.Applied.{ChangesOnly, generate-ChangesOnly}
use wac_mono.Mutate.Rounds.{columns}
use wac_mono.Mutate.Strata.{IsStrata}
use wac_mono.Mutate.SortedStrata.{lists_of}
use wac_mono.Mutate.Draw.{sample_mutants-columns}
use wac_mono.Mutate.Reach.{plan_for-narrow}

abbrev file : Text
file = text "packages/fmt/src/one.wac"

abbrev source : Text
source = text "bool f() { return g(\"a\") < 'b'; }"

-- As the lexer gives them: the string without its quotes, the code of the character, and an end that has no text.
abbrev tokens : List Token
tokens =
    record { kind = text "bool"; text = text "bool"; line = 1; col = 1 }
    ∷ record { kind = text "ident"; text = text "f"; line = 1; col = 6 }
    ∷ record { kind = text "("; text = text "("; line = 1; col = 7 }
    ∷ record { kind = text ")"; text = text ")"; line = 1; col = 8 }
    ∷ record { kind = text "{"; text = text "{"; line = 1; col = 10 }
    ∷ record { kind = text "return"; text = text "return"; line = 1; col = 12 }
    ∷ record { kind = text "ident"; text = text "g"; line = 1; col = 19 }
    ∷ record { kind = text "("; text = text "("; line = 1; col = 20 }
    ∷ record { kind = text "string"; text = text "a"; line = 1; col = 21 }
    ∷ record { kind = text ")"; text = text ")"; line = 1; col = 24 }
    ∷ record { kind = text "<"; text = text "<"; line = 1; col = 26 }
    ∷ record { kind = text "int"; text = text "98"; line = 1; col = 28 }
    ∷ record { kind = text ";"; text = text ";"; line = 1; col = 31 }
    ∷ record { kind = text "}"; text = text "}"; line = 1; col = 33 }
    ∷ record { kind = text "eof"; text = text ""; line = 1; col = 34 }
    ∷ []

abbrev lexed : Text → Lexed
lexed s = record { tokens = tokens; errors = [] }

abbrev replacement_of : Mutant → Text
replacement_of m = elim m.edits [ [] ↦ [] | e ∷ rest ↦ e.replacement ]

abbrev everything : Operators
everything = record { relational = true; literal = true; guard = true; extreme = true }

tokens-InSource : All (TokenIn source) tokens
unfolding offset line_starts
tokens-InSource = (
  spelled (λ e. cc) refl,
  (
    spelled (λ e. cc) refl,
    (
      spelled (λ e. cc) refl,
      (
        spelled (λ e. cc) refl,
        (
          spelled (λ e. cc) refl,
          (
            spelled (λ e. cc) refl,
            (
              spelled (λ e. cc) refl,
              (
                spelled (λ e. cc) refl,
                (
                  decoded refl,
                  (
                    spelled (λ e. cc) refl,
                    (
                      spelled (λ e. cc) refl,
                      (
                        character refl (λ e. cc) (_, refl),
                        (spelled (λ e. cc) refl, (spelled (λ e. cc) refl, (ends refl, tt))),
                      ),
                    ),
                  ),
                ),
              ),
            ),
          ),
        ),
      ),
    ),
  ),
)

tokens-Ordered : Ordered source tokens
unfolding offset line_starts
tokens-Ordered = (
  (
    omega arith,
    (
      omega arith,
      (
        omega arith,
        (
          omega arith,
          (
            omega arith,
            (
              omega arith,
              (
                omega arith,
                (
                  omega arith,
                  (
                    omega arith,
                    (omega arith, (omega arith, (omega arith, (omega arith, (omega arith, tt))))),
                  ),
                ),
              ),
            ),
          ),
        ),
      ),
    ),
  ),
  (
    (
      omega arith,
      (
        omega arith,
        (
          omega arith,
          (
            omega arith,
            (
              omega arith,
              (
                omega arith,
                (
                  omega arith,
                  (
                    omega arith,
                    (omega arith, (omega arith, (omega arith, (omega arith, (omega arith, tt))))),
                  ),
                ),
              ),
            ),
          ),
        ),
      ),
    ),
    (
      (
        omega arith,
        (
          omega arith,
          (
            omega arith,
            (
              omega arith,
              (
                omega arith,
                (
                  omega arith,
                  (
                    omega arith,
                    (omega arith, (omega arith, (omega arith, (omega arith, (omega arith, tt))))),
                  ),
                ),
              ),
            ),
          ),
        ),
      ),
      (
        (
          omega arith,
          (
            omega arith,
            (
              omega arith,
              (
                omega arith,
                (
                  omega arith,
                  (
                    omega arith,
                    (omega arith, (omega arith, (omega arith, (omega arith, (omega arith, tt))))),
                  ),
                ),
              ),
            ),
          ),
        ),
        (
          (
            omega arith,
            (
              omega arith,
              (
                omega arith,
                (
                  omega arith,
                  (
                    omega arith,
                    (omega arith, (omega arith, (omega arith, (omega arith, (omega arith, tt))))),
                  ),
                ),
              ),
            ),
          ),
          (
            (
              omega arith,
              (
                omega arith,
                (
                  omega arith,
                  (
                    omega arith,
                    (omega arith, (omega arith, (omega arith, (omega arith, (omega arith, tt))))),
                  ),
                ),
              ),
            ),
            (
              (
                omega arith,
                (
                  omega arith,
                  (
                    omega arith,
                    (omega arith, (omega arith, (omega arith, (omega arith, (omega arith, tt))))),
                  ),
                ),
              ),
              (
                (
                  omega arith,
                  (
                    omega arith,
                    (omega arith, (omega arith, (omega arith, (omega arith, (omega arith, tt))))),
                  ),
                ),
                (
                  (
                    omega arith,
                    (omega arith, (omega arith, (omega arith, (omega arith, (omega arith, tt))))),
                  ),
                  (
                    (omega arith, (omega arith, (omega arith, (omega arith, (omega arith, tt))))),
                    (
                      (omega arith, (omega arith, (omega arith, (omega arith, tt)))),
                      (
                        (omega arith, (omega arith, (omega arith, tt))),
                        ((omega arith, (omega arith, tt)), ((omega arith, tt), (tt, tt))),
                      ),
                    ),
                  ),
                ),
              ),
            ),
          ),
        ),
      ),
    ),
  ),
)

generate-ChangesOnly_example :
    All
      (λ m.
        (after : TextMap Text) × (apply_edits ((file, source) ∷ []) m ≡ some after)
        × ChangesOnly file source ((file, source) ∷ []) after)
      (generate lexed file source everything (some 3))
generate-ChangesOnly_example =
    generate-ChangesOnly lexed ((file, source) ∷ []) file source everything (some 3) refl
      (record { in_source = tokens-InSource; in_order = tokens-Ordered })

-- A function that returns false, two other comparisons, and another code of the character.
generate-replacements :
    map replacement_of (generate lexed file source everything (some 3))
    ≡ text "{ return false; }" ∷ text "<=" ∷ text ">" ∷ text "99" ∷ []
unfolding generate generate_from token_mutants relational_of literal_of guard_of extreme_mutants
    extreme_of extreme_between default_value_for normalise offset line_starts functions
    functions_from look function_at named_at typed_at body_at skip_matched ret_type_before
    literal_wanted scopes_from const_name shape_members shape_key wanted_in wanted_members spread
    bump_literal bump_decimal read_digits write_number write_digits
generate-replacements = refl

abbrev a_mutant : Text → Text → Mutant
a_mutant path name = record {
  name = name;
  edits = record { file = path; start = 0; end = 1; replacement = text "x"; was = text "y" } ∷ [];
  origin = operator;
  ratio_only = none;
  must_survive = none;
  equivalent = none;
}

abbrev population : List Mutant
population =
    a_mutant (text "a") (text "1")
    ∷ a_mutant (text "a") (text "2")
    ∷ a_mutant (text "a") (text "3")
    ∷ a_mutant (text "b") (text "4")
    ∷ []

sample_mutants-columns_example :
    (groups : TextMap (List Mutant)) × IsStrata population groups
    × (length (sample_mutants population (some 2) 7) ≡ 2)
    × (sample_mutants population (some 2) 7 ≡ take 2 (columns (lists_of groups) 0 3))
sample_mutants-columns_example = sample_mutants-columns population 2 7 (omega arith) (omega arith)

abbrev profile : Profile
profile = record {
  lines = (text "one.wac:1", text "adds" ∷ []) ∷ [];
  known = text "one.wac:1" ∷ [];
  home = [];
  test_files = [];
  cost = [];
}

plan_for-narrow_example :
    (ts : List Text) × (plan_for profile (text "one.wac:1" ∷ text "one.wac:2" ∷ []) ≡ narrow ts)
    × (text_in (text "adds") ts ≡ true)
plan_for-narrow_example =
    plan_for-narrow profile (text "one.wac:1" ∷ text "one.wac:2" ∷ []) (text "one.wac:1")
      (text "adds") refl refl refl

abbrev flip : Curated
flip = record {
  name = text "one/flip";
  edits = record { file = file; find = text "<"; replace = text ">"; nth = none } ∷ [];
  nth = none;
  ratio_only = none;
  must_survive = none;
  equivalent = none;
}

abbrev flipped : Mutant
flipped = record {
  name = text "one/flip";
  edits =
      record { file = file; start = 25; end = 25 + 1; replacement = text ">"; was = text "<" } ∷ [];
  origin = curated;
  ratio_only = none;
  must_survive = none;
  equivalent = none;
}

located : locate ((file, source) ∷ []) flip ≡ found flipped
unfolding locate locate_edits hits_from choose_hit
located = refl

abbrev measured : List (Mutant × Measured)
measured =
    (a_mutant (text "a") (text "1"), signed (text "a=x") (text "a=o"))
    ∷ (a_mutant (text "a") (text "2"), signed (text "a=x") (text "a=o"))
    ∷ (a_mutant (text "a") (text "3"), signed (text "a=o") (text "a=o"))
    ∷ (a_mutant (text "a") (text "4"), signed (text "a=y") (text "a=o"))
    ∷ []

-- The second is a duplicate of the first, and the third changes nothing.
two_of_four : run_signatures (triage_all new_seen measured) ≡ text "a=x" ∷ text "a=y" ∷ []
unfolding triage_all triage
two_of_four = refl

runs-AllDistinct_example : AllDistinct (run_signatures (triage_all new_seen measured))
runs-AllDistinct_example = runs-AllDistinct measured
