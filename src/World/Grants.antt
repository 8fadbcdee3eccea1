-- ===== src/World/Grants.antt =====
-- No program is granted more than the programs that it descends from.
use wac_mono.Base.{
  ℕ, ◌≡◌, refl, Bool, true, false, ◌&&◌, Option, none, some, List, [], ◌∷◌, if◌then◌else◌, ◌∙◌, ap,
}
use wac_mono.World.{
  Options, Wanted, fs_given, grant_read, grant_write, grant_net, grant_env, may_read, may_write,
  is_some, asks, give, child_options,
}

-- The four things that can be granted.
pub data Grant : Type 0 where
  reading writing network environment : Grant

abbrev pub flag_of : Grant → ℕ
flag_of reading = grant_read
flag_of writing = grant_write
flag_of network = grant_net
flag_of environment = grant_env

-- What a world's handlers test before they serve a call.
abbrev pub holds : Options → Grant → Bool
holds opts reading = may_read opts
holds opts writing = may_write opts
holds opts network = opts.net
holds opts environment = is_some opts.env

-- The world of a program that was spawned by one that was spawned, and so on.
unfoldable pub descendant : Options → List Wanted → Options
descendant opts [] = opts
descendant opts (w ∷ rest) = descendant (child_options opts w) rest

-- Whether a thing was asked for at every spawn.
abbrev pub always_asked : Grant → List Wanted → Bool
always_asked g [] = true
always_asked g (w ∷ rest) = asks w.grants (flag_of g) && always_asked g rest

given_fs :
    (read write : Bool)
    → ((elim (fs_given read write) [ none ↦ false | some fs ↦ fs.read ]) ≡ read)
      × ((elim (fs_given read write) [ none ↦ false | some fs ↦ fs.write ]) ≡ write)
given_fs true true = (refl, refl)
given_fs true false = (refl, refl)
given_fs false true = (refl, refl)
given_fs false false = (refl, refl)

given_net : (b : Bool) → (if b then true else false) ≡ b
given_net true = refl
given_net false = refl

given_env :
    {A : Type 0} (o : Option A) (asked : Bool)
    → is_some (if asked && is_some o then o else none) ≡ asked && is_some o
given_env none true = refl
given_env none false = refl
given_env (some a) true = refl
given_env (some a) false = refl

holds-child_options :
    (g : Grant) (opts : Options) (w : Wanted)
    → holds (child_options opts w) g ≡ asks w.grants (flag_of g) && holds opts g
unfolding may_read may_write child_options give
holds-child_options reading opts w =
    (given_fs (asks w.grants grant_read && may_read opts)
      (asks w.grants grant_write && may_write opts)).0
holds-child_options writing opts w =
    (given_fs (asks w.grants grant_read && may_read opts)
      (asks w.grants grant_write && may_write opts)).1
holds-child_options network opts w = given_net (asks w.grants grant_net && opts.net)
holds-child_options environment opts w = given_env opts.env (asks w.grants grant_env)

and_swap : (a b c : Bool) → a && (b && c) ≡ (b && a) && c
and_swap true true c = refl
and_swap true false c = refl
and_swap false true c = refl
and_swap false false c = refl

-- A program holds a grant exactly if the first of the programs that it descends from holds it and every spawn on the way
-- asked for it; so none on the way can have less.
pub holds-descendant :
    (g : Grant) (opts : Options) (chain : List Wanted)
    → holds (descendant opts chain) g ≡ always_asked g chain && holds opts g
unfolding descendant
holds-descendant g opts [] = refl
holds-descendant g opts (w ∷ rest) =
    holds-descendant g (child_options opts w) rest
    ∙ ap (λ h. always_asked g rest && h) (holds-child_options g opts w)
    ∙ and_swap (always_asked g rest) (asks w.grants (flag_of g)) (holds opts g)
