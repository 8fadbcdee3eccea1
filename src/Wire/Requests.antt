-- ===== src/Wire/Requests.antt =====
-- The arguments of a capability as the payload of its call: what `cliOf` and `pageOf` of provider.ts submit. An
-- array that is filled part by part is the parts in order. The runtime's text encoder is a parameter.
use wac_mono.Base.{ℤ, pos, Bool, List, [], ◌∷◌, ◌++◌, if◌then◌else◌, length, concat, map}
use wac_mono.Wire.Bytes.{Bytes, i32le}
use wac_mono.Mutate.Texts.{Text}

abbrev pub flag_byte : Bool → Bytes
flag_byte on = (if on then 1 else 0) ∷ []

unfoldable pub headed : Bytes → Bytes → Bytes
headed head body = head ++ body

-- The length of the head, the head, and the body.
unfoldable pub prefixed : Bytes → Bytes → Bytes
prefixed head body = i32le (pos (length head)) ++ (head ++ body)

abbrev pub argument_bytes : Bytes → Bytes
argument_bytes a = i32le (pos (length a)) ++ a

-- A count, then each argument behind its length.
unfoldable pub argv_bytes : List Bytes → Bytes
argv_bytes args = i32le (pos (length args)) ++ concat (map argument_bytes args)

-- `parts.join("\u0000")`
abbrev pub join_nul : List Text → Text
join_nul [] = []
join_nul (t ∷ []) = t
join_nul (t ∷ u ∷ rest) = t ++ (0 ∷ join_nul (u ∷ rest))

module _ (encode : Text → Bytes) where
  unfoldable pub two_paths : Text → Text → Bytes
  two_paths from to = let a = encode from in i32le (pos (length a)) ++ (a ++ encode to)

  unfoldable pub flagged : Bool → Text → Bytes
  flagged on path = flag_byte on ++ encode path

  unfoldable pub write_file_payload : Text → Bytes → Bytes
  unfolding prefixed
  write_file_payload path body = prefixed (encode path) body

  -- `connect` and `listen`.
  unfoldable pub connect_payload : Text → ℤ → Bytes
  unfolding headed
  connect_payload host port = headed (i32le port) (encode host)

  unfoldable pub spawn_payload : Text → List Bytes → ℤ → Text → Bool → Bytes
  unfolding headed prefixed argv_bytes
  spawn_payload source args grants cwd inherit_in = headed (i32le grants) (
      prefixed (encode source)
        (headed (argv_bytes args) (prefixed (encode cwd) (flag_byte inherit_in))))

  unfoldable pub spawn_self_payload : List Bytes → ℤ → Text → Bool → Bytes
  unfolding headed prefixed argv_bytes
  spawn_self_payload args grants cwd inherit_in =
      headed (i32le grants)
        (headed (argv_bytes args) (prefixed (encode cwd) (flag_byte inherit_in)))

  unfoldable pub push_payload : List Text → Bytes → Text → Bytes
  unfolding headed prefixed
  push_payload argv stdin cwd =
      headed (i32le (pos (length argv)))
        (prefixed (encode (join_nul argv)) (prefixed (encode cwd) stdin))
