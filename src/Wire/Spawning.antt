-- ===== src/Wire/Spawning.antt =====
-- The programs and arguments that a spawn is asked for are the ones that the host starts.
use wac_mono.Base.{
  ℕ, zero, suc, ◌+◌, ◌^◌, ◌<◌, ◌≡◌, refl, ap, ◌∙◌, arith, ℤ, pos, Bool, true, false, none, some,
  List, [], ◌∷◌, ◌++◌, append_assoc, append-nil, length, concat, map, All, drop, get_elem?, ◌==◌,
  if◌then◌else◌, length-append,
}
use wac_mono.Wire.Bytes.{
  Bytes, i32le, get_i32, subarray, IsInt32, StandsFrom, length-i32le, get_i32-stands,
  StandsFrom-past, subarray-stands,
}
use wac_mono.Wire.Requests.{
  flag_byte, headed, prefixed, argument_bytes, argv_bytes, spawn_payload, spawn_self_payload,
}
use wac_mono.Wire.Unpack.{
  unpack_rounds, unpack_args, want, byte_is_one, unpack_spawn, unpack_spawn_self,
}
use wac_mono.Mutate.Texts.{Text}

-- A length that the payload can say.
abbrev pub Fits : Bytes → Type 0
Fits b = length b < 2 ^ 31

get_elem?-drop : (at : ℕ) (p : Bytes) → get_elem? p at ≡ get_elem? (drop at p) 0
get_elem?-drop zero p = refl
get_elem?-drop (suc at) [] = refl
get_elem?-drop (suc at) (b ∷ p) = get_elem?-drop at p

pub is_one : (on : Bool) → ((if on then 1 else 0) == 1) ≡ on
is_one true = refl
is_one false = refl

module _ (p : Bytes) where
  -- Behind an integer.
  pub StandsFrom-i32 :
      (at : ℕ) (n : ℤ) (rest : Bytes)
      → StandsFrom p at (i32le n ++ rest)
      → StandsFrom p (at + 4) rest
  unfolding i32le
  StandsFrom-i32 at n rest there = StandsFrom-past p at (i32le n) rest there

  unpack_rounds-args :
      (args : List Bytes) (at : ℕ) (done : List Bytes) (rest : Bytes)
      → All Fits args
      → StandsFrom p at (concat (map argument_bytes args) ++ rest)
      → unpack_rounds p (length args) (pos at) done
        ≡ some (record {
          args = done ++ args;
          at = pos (at + length (concat (map argument_bytes args)));
        })
  unfolding unpack_rounds
  unpack_rounds-args [] at done rest fits there =
      let e : at + 0 ≡ at = omega arith in rw (e, append-nil) refl
  unpack_rounds-args (a ∷ args) at done rest fits there =
      let more = concat (map argument_bytes args) ++ rest in
      let at_len : StandsFrom p at (i32le (pos (length a)) ++ (a ++ more)) =
        there ∙ simp append_assoc refl in
      let at_arg = StandsFrom-i32 at _ _ at_len in
      let at_more = StandsFrom-past p (at + 4) a more at_arg in
      let next : at + (4 + length a) ≡ at + 4 + length a = omega arith in
      let end : at + 4 + length a + length (concat (map argument_bytes args))
          ≡ at + length (argument_bytes a ++ concat (map argument_bytes args)) =
        omega (
          arith,
          length-append (argument_bytes a) (concat (map argument_bytes args)),
          length-append (i32le (pos (length a))) a,
          length-i32le (pos (length a)),
        ) in
      rw
        (
          get_i32-stands p at (pos (length a)) (a ++ more) fits.0 at_len,
          next,
          subarray-stands p (at + 4) a more at_arg,
          unpack_rounds-args args (at + 4 + length a) (done ++ a ∷ []) rest fits.1 at_more,
          end,
          append_assoc,
        )
        refl

  unpack_args-stands :
      (args : List Bytes) (at : ℕ) (rest : Bytes)
      → length args < 2 ^ 31
      → All Fits args
      → StandsFrom p at (argv_bytes args ++ rest)
      → unpack_args p (pos at)
        ≡ some (record { args = args; at = pos (at + length (argv_bytes args)) })
  unfolding unpack_args argv_bytes
  unpack_args-stands args at rest few fits there =
      let body = concat (map argument_bytes args) in
      let at_count : StandsFrom p at (i32le (pos (length args)) ++ (body ++ rest)) =
        there ∙ simp append_assoc refl in
      let end : at + 4 + length body ≡ at + length (i32le (pos (length args)) ++ body) =
        omega (
          arith,
          length-append (i32le (pos (length args))) body,
          length-i32le (pos (length args)),
        ) in
      rw
        (
          get_i32-stands p at (pos (length args)) (body ++ rest) few at_count,
          unpack_rounds-args args (at + 4) [] rest fits (StandsFrom-i32 at _ _ at_count),
          end,
        )
        refl

  byte_is_one-stands :
      (on : Bool) (at : ℕ) → StandsFrom p at (flag_byte on) → byte_is_one p (pos at) ≡ on
  byte_is_one-stands on at there =
      let here : get_elem? p at ≡ some (if on then 1 else 0) =
        get_elem?-drop at p ∙ ap (λ q. get_elem? q 0) there in
      ap (λ o. elim o [ none ↦ false | some b ↦ b == 1 ]) here ∙ is_one on

-- What stands behind the arguments: the directory behind its length, and the flag.
abbrev trailer : Bytes → Bool → Bytes
trailer cwd inherit_in = prefixed cwd (flag_byte inherit_in)

module _ (p : Bytes) (at : ℕ) (cwd : Bytes) (inherit_in : Bool) (fits : Fits cwd)
    (there : StandsFrom p at (trailer cwd inherit_in)) where
  at_length : StandsFrom p at (i32le (pos (length cwd)) ++ (cwd ++ flag_byte inherit_in))
  unfolding prefixed
  at_length = there

  at_cwd : StandsFrom p (at + 4) (cwd ++ flag_byte inherit_in)
  at_cwd = StandsFrom-i32 p at _ _ at_length

  trailer-length : get_i32 p (pos at) ≡ some (pos (length cwd))
  trailer-length = get_i32-stands p at _ _ fits at_length

  trailer-cwd : subarray p (pos (at + 4)) (pos (at + 4 + length cwd)) ≡ cwd
  trailer-cwd = subarray-stands p (at + 4) cwd _ at_cwd

  trailer-flag : byte_is_one p (pos (at + 4 + length cwd)) ≡ inherit_in
  trailer-flag = byte_is_one-stands p inherit_in _ (StandsFrom-past p (at + 4) cwd _ at_cwd)

module _ (encode : Text → Bytes) (decode : Bytes → Text) (args : List Bytes) (grants : ℤ)
    (cwd : Text) (inherit_in : Bool) (cwd_back : decode (encode cwd) ≡ cwd)
    (cwd_fits : Fits (encode cwd)) (few : length args < 2 ^ 31) (fits : All Fits args)
    (granted : IsInt32 grants) where
  -- The host of a `spawn` reads from the payload what the program asked for: the grants, the source, every argument
  -- byte for byte, the directory and whether the input is inherited; if the decoder reads back what the encoder
  -- writes of the two texts, the grants are a 32-bit integer, and no length or count is 2^31 or more.
  pub unpack_spawn-spawn_payload :
      (source : Text)
      → decode (encode source) ≡ source
      → Fits (encode source)
      → let p = spawn_payload encode source args grants cwd inherit_in in
        (want p ≡ some grants)
        × (unpack_spawn decode p
            ≡ some (record { source = source; args = args; cwd = cwd; inherit_in = inherit_in }))
  unfolding want unpack_spawn spawn_payload headed
  unpack_spawn-spawn_payload source source_back source_fits = (
    get_i32-stands p 0 grants _ granted refl,
    rw
        (
          get_i32-stands p 4 (pos (length s)) (s ++ after) source_fits at_source_len,
          unpack_args-stands p args (8 + length s) (trailer (encode cwd) inherit_in) few fits
              at_args,
          subarray-stands p 8 s after at_source,
          trailer-length p _ _ inherit_in cwd_fits at_trailer,
          trailer-cwd p _ _ inherit_in cwd_fits at_trailer,
          trailer-flag p _ _ inherit_in cwd_fits at_trailer,
          source_back,
          cwd_back,
        )
        refl,
  )
    where
      s : Bytes
      s = encode source

      p : Bytes
      p = spawn_payload encode source args grants cwd inherit_in

      after : Bytes
      after = headed (argv_bytes args) (trailer (encode cwd) inherit_in)

      at_source_len : StandsFrom p 4 (i32le (pos (length s)) ++ (s ++ after))
      at_source_len = StandsFrom-i32 p 0 grants _ refl

      at_source : StandsFrom p 8 (s ++ after)
      at_source = StandsFrom-i32 p 4 _ _ at_source_len

      at_args : StandsFrom p (8 + length s) (argv_bytes args ++ trailer (encode cwd) inherit_in)
      at_args = StandsFrom-past p 8 s after at_source

      at_trailer :
          StandsFrom p (8 + length s + length (argv_bytes args)) (trailer (encode cwd) inherit_in)
      at_trailer = StandsFrom-past p (8 + length s) _ _ at_args

  -- The same of a `spawnSelf`, which sends no source.
  pub unpack_spawn_self-spawn_self_payload :
      let p = spawn_self_payload encode args grants cwd inherit_in in
      (want p ≡ some grants)
      × (unpack_spawn_self decode p
          ≡ some (record { args = args; cwd = cwd; inherit_in = inherit_in }))
  unfolding want unpack_spawn_self spawn_self_payload headed
  unpack_spawn_self-spawn_self_payload = (
    get_i32-stands p 0 grants _ granted refl,
    rw
        (
          unpack_args-stands p args 4 (trailer (encode cwd) inherit_in) few fits at_args,
          trailer-length p _ _ inherit_in cwd_fits at_trailer,
          trailer-cwd p _ _ inherit_in cwd_fits at_trailer,
          trailer-flag p _ _ inherit_in cwd_fits at_trailer,
          cwd_back,
        )
        refl,
  )
    where
      p : Bytes
      p = spawn_self_payload encode args grants cwd inherit_in

      at_args : StandsFrom p 4 (argv_bytes args ++ trailer (encode cwd) inherit_in)
      at_args = StandsFrom-i32 p 0 grants _ refl

      at_trailer : StandsFrom p (4 + length (argv_bytes args)) (trailer (encode cwd) inherit_in)
      at_trailer = StandsFrom-past p 4 _ _ at_args
