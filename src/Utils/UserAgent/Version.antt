-- ===== src/Utils/UserAgent/Version.antt =====
-- What the versions in a user agent are, and when reading one panics.
use armiarma.Base.{
  ℕ, ◌≡◌, refl, ◌↔◌, inl, inr, Bool, true, false, ◌||◌, Option, none, some, List, [], ◌∷◌, ◌==◌,
  if◌then◌else◌, Bool-cases, get_elem?,
}
use mathlib.Core.Option
use armiarma.Base.Text.{codes}
use armiarma.Utils.UserAgent.{
  NetworkType, ethereum_network, ipfs_network, filecoin_network, other_network, Table, mentions,
  client_name_parser, parse_client_type, client_and_version, lotus_version, clean_version,
  clean_version_lotus, split, filecoin_clients, str_contains_lower_caps,
}

-- The characters of a text before the first that is `sep`.
abbrev pub before : ℕ → List ℕ → List ℕ
before sep [] = []
before sep (c ∷ s) = if c == sep then [] else (c ∷ before sep s)

abbrev pub occurs : ℕ → List ℕ → Bool
occurs x [] = false
occurs x (c ∷ s) = c == x || occurs x s

split-before : (sep : ℕ) (s : List ℕ) → (split sep s).0 ≡ before sep s
unfolding split
split-before sep [] = refl
split-before sep (c ∷ s) = elim (Bool-cases (c == sep)) [
  | inl f ↦ rw f refl
  | inr f ↦ rw (f, split-before sep s) refl
]

split-occurs :
    (sep : ℕ) (s : List ℕ) → (get_elem? (split sep s).1 0 ≡ none) ↔ (occurs sep s ≡ false)
unfolding split
split-occurs sep [] = (λ _. refl, λ _. refl)
split-occurs sep (c ∷ s) = elim (Bool-cases (c == sep)) [
  | inl f ↦ rw f (λ h. cc, λ h. cc)
  | inr f ↦ rw f (split-occurs sep s)
]

-- The panic in `cleanVersionLotus`.
clean_version_lotus-panics :
    (v : List ℕ) → (clean_version_lotus v ≡ none) ↔ (occurs 45 (before 43 v) ≡ false)
unfolding clean_version_lotus
clean_version_lotus-panics v = rw (split-before 43 v) (split-occurs 45 (before 43 v))

map-none : {A B : Type 0} (f : A → B) (o : Option A) → (Option.map f o ≡ none) ↔ (o ≡ none)
map-none f none = (λ _. refl, λ _. refl)
map-none f (some a) = (λ h. cc, λ h. cc)

-- The same for two maps, a direction each.
twice_none_of :
    {A B C : Type 0} (f : B → C) (g : A → B) (o : Option A)
    → Option.map f (Option.map g o) ≡ none
    → o ≡ none
twice_none_of f g none h = refl
twice_none_of f g (some a) h = cc

twice_none :
    {A B C : Type 0} (f : B → C) (g : A → B) (o : Option A)
    → o ≡ none
    → Option.map f (Option.map g o) ≡ none
twice_none f g o h = rw h refl

lotus-panics :
    (name : List ℕ)
    → (lotus_version (client_name_parser filecoin_clients name) name ≡ none) ↔ (
        (str_contains_lower_caps name (codes "lotus") ≡ true)
        × (occurs 45 (before 43 name) ≡ false))
unfolding client_name_parser mentions
lotus-panics name = elim (Bool-cases (str_contains_lower_caps name (codes "lotus"))) [
  | inl f ↦
      let (to, from) = map-none clean_version (clean_version_lotus name) in
      let (to', from') = clean_version_lotus-panics name in
      rw f (λ h. (refl, to' (to h)), λ (_, h). from (from' h))
  | inr f ↦ rw f (λ h. cc, λ (e, _). cc)
]

-- A panic exactly if the network is Filecoin, and the text before the first '/' mentions lotus in letters of any case
-- and has no '-' before its first '+'. No order of the maps' entries changes that.
pub parse_client_type-panics :
    (order : Table → Table) (network : NetworkType) (user_agent : List ℕ)
    → order filecoin_clients ≡ filecoin_clients
    → (parse_client_type order network user_agent ≡ none) ↔ (
        (network ≡ filecoin_network)
        × (str_contains_lower_caps (before 47 user_agent) (codes "lotus") ≡ true)
        × (occurs 45 (before 43 (before 47 user_agent)) ≡ false))
unfolding parse_client_type client_and_version
parse_client_type-panics order ethereum_network ua o = (λ h. cc, λ (e, _, _). cc)
parse_client_type-panics order ipfs_network ua o = (λ h. cc, λ (e, _, _). cc)
parse_client_type-panics order other_network ua o = (λ h. cc, λ (e, _, _). cc)
parse_client_type-panics order filecoin_network ua o =
    let name = before 47 ua in
    let (to, from) = lotus-panics name in
    rw (o, split-before 47 ua)
      (
        λ h. let (l, d) = to (twice_none_of _ _ _ h) in (refl, l, d),
        λ (_, l, d). twice_none _ _ _ (from (l, d)),
      )
