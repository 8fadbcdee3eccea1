-- ===== src/Wire/Pushing.antt =====
-- What a program pushes for a child inside it is what the host keeps for the child; and the two paths of a rename.
use wac_mono.Base.{
  ◌+◌, ◌^◌, ◌<◌, ◌≡◌, ◌≢◌, refl, ap, ◌∙◌, pos, some, List, [], ◌∷◌, ◌++◌, length, All, ◌==◌,
  if_intro, ==_iff,
}
use wac_mono.Wire.Bytes.{
  Bytes, i32le, read_i32le, StandsFrom, get_i32-stands, StandsFrom-past, subarray-stands,
  subarray_from-stands,
}
use wac_mono.Wire.Requests.{headed, prefixed, join_nul, push_payload, two_paths}
use wac_mono.Wire.Unpack.{unpack_push, unpack_rename, split_nul, push_front, told_args}
use wac_mono.Wire.Spawning.{Fits, StandsFrom-i32}
use wac_mono.Mutate.Texts.{Text}

-- A text without a NUL.
abbrev pub HasNoNul : Text → Type 0
HasNoNul t = All (λ c. c ≢ 0) t

split_nul-whole : (t : Text) → HasNoNul t → split_nul t ≡ t ∷ []
split_nul-whole [] h = refl
split_nul-whole (c ∷ cs) h =
    if_intro (λ parts. parts ≡ (c ∷ cs) ∷ []) (c == 0) (λ e. absurd (h.0 ((==_iff c 0).0 e)))
      (λ e. ap (push_front c) (split_nul-whole cs h.1))

split_nul-first : (t rest : Text) → HasNoNul t → split_nul (t ++ (0 ∷ rest)) ≡ t ∷ split_nul rest
split_nul-first [] rest h = refl
split_nul-first (c ∷ cs) rest h =
    if_intro (λ parts. parts ≡ (c ∷ cs) ∷ split_nul rest) (c == 0)
      (λ e. absurd (h.0 ((==_iff c 0).0 e))) (λ e. ap (push_front c) (split_nul-first cs rest h.1))

split_nul-join_nul :
    (t : Text) (rest : List Text)
    → All HasNoNul (t ∷ rest)
    → split_nul (join_nul (t ∷ rest)) ≡ t ∷ rest
split_nul-join_nul t [] h = split_nul-whole t h.0
split_nul-join_nul t (u ∷ rest) h =
    split_nul-first t (join_nul (u ∷ rest)) h.0 ∙ ap (◌∷◌ t) (split_nul-join_nul u rest h.1)

told_args-join_nul :
    (argv : List Text) → All HasNoNul argv → told_args (pos (length argv)) (join_nul argv) ≡ argv
told_args-join_nul [] h = refl
told_args-join_nul (t ∷ rest) h = split_nul-join_nul t rest h

module _ (encode : Text → Bytes) (decode : Bytes → Text) where
  -- The host of a `pushChild` reads from the payload the child's command line, its input and its directory, where no
  -- argument holds a NUL; if the decoder reads back what the encoder writes of the directory and of the joined
  -- command line, and no length or count is 2^31 or more. No argument at all and one empty argument are told apart.
  pub unpack_push-push_payload :
      (argv : List Text) (stdin : Bytes) (cwd : Text)
      → All HasNoNul argv
      → length argv < 2 ^ 31
      → decode (encode (join_nul argv)) ≡ join_nul argv
      → Fits (encode (join_nul argv))
      → decode (encode cwd) ≡ cwd
      → Fits (encode cwd)
      → unpack_push decode (push_payload encode argv stdin cwd)
        ≡ some (record { argv = argv; stdin = stdin; cwd = cwd })
  unfolding unpack_push push_payload headed prefixed
  unpack_push-push_payload argv stdin cwd whole few argv_back argv_fits cwd_back cwd_fits =
      rw
        (
          get_i32-stands p 0 (pos (length argv)) _ few refl,
          get_i32-stands p 4 (pos (length joined)) _ argv_fits at_joined_len,
          get_i32-stands p (8 + length joined) (pos (length dir)) _ cwd_fits at_dir_len,
          subarray-stands p 8 joined _ at_joined,
          subarray-stands p (8 + length joined + 4) dir stdin at_dir,
          subarray_from-stands p (8 + length joined + 4 + length dir) stdin
              (StandsFrom-past p (8 + length joined + 4) dir stdin at_dir),
          argv_back,
          cwd_back,
          told_args-join_nul argv whole,
        )
        refl
    where
      joined : Bytes
      joined = encode (join_nul argv)

      dir : Bytes
      dir = encode cwd

      p : Bytes
      p = push_payload encode argv stdin cwd

      at_joined_len : StandsFrom p 4 (i32le (pos (length joined)) ++ (joined ++ prefixed dir stdin))
      at_joined_len = StandsFrom-i32 p 0 (pos (length argv)) _ refl

      at_joined : StandsFrom p 8 (joined ++ prefixed dir stdin)
      at_joined = StandsFrom-i32 p 4 _ _ at_joined_len

      at_dir_len : StandsFrom p (8 + length joined) (i32le (pos (length dir)) ++ (dir ++ stdin))
      at_dir_len = StandsFrom-past p 8 joined _ at_joined

      at_dir : StandsFrom p (8 + length joined + 4) (dir ++ stdin)
      at_dir = StandsFrom-i32 p (8 + length joined) _ _ at_dir_len

  -- The host of a `rename` reads the two paths in the order that the program gave them.
  pub unpack_rename-two_paths :
      (from to : Text)
      → decode (encode from) ≡ from
      → decode (encode to) ≡ to
      → Fits (encode from)
      → unpack_rename decode (two_paths encode from to) ≡ some (from, to)
  unfolding unpack_rename two_paths read_i32le
  unpack_rename-two_paths from to from_back to_back fits =
      let p = two_paths encode from to in
      let at_from = StandsFrom-i32 p 0 (pos (length (encode from))) _ refl in
      rw
        (
          get_i32-stands p 0 (pos (length (encode from))) _ fits refl,
          subarray-stands p 4 (encode from) (encode to) at_from,
          subarray_from-stands p (4 + length (encode from)) (encode to)
              (StandsFrom-past p 4 (encode from) (encode to) at_from),
          from_back,
          to_back,
        )
        refl
